-- ===== src/Schema/Rows.antt =====
-- Where a layout puts the fields of a row.
use apx_db.Common.{
  ℕ, zero, suc, ◌+◌, ◌*◌, ◌^◌, ◌≤◌, ◌<◌, ◌≡◌, subst, List, [], ◌∷◌, some, arith, length, get_elem?,
  take, Bool, true, false, if◌then◌else◌,
}
use apx_db.Schema.Layout.{
  FieldSchema, FieldLayout, CollectionSchema, schema_fields, field_storage_size, is_variable_field,
  nullable_bits, fixed_size, variable_slots, bitmap_size, layout_fields, layout_of, to_uint32,
  variable,
}

-- The field starts at `low` at least and ends at `high` at most.
abbrev IsWithin : ℕ → ℕ → FieldLayout → Type 0
IsWithin low high e = (low ≤ e.offset) × (e.offset + e.size ≤ high)

to_uint32-small : (n : ℕ) → n < 2 ^ 32 → to_uint32 n ≡ n
to_uint32-small n h = omega arith

next_slot-small :
    (v : Bool) (slot : ℕ)
    → slot + 1 < 2 ^ 32
    → (if v then to_uint32 (slot + 1) else slot) ≡ slot + (if v then 1 else 0)
next_slot-small true slot h = to_uint32-small (slot + 1) h
next_slot-small false slot h = omega arith

-- Where neither counter wraps, the fields after the first one are laid out from sums.
layout_fields-tail :
    (f : FieldSchema) (fs : List FieldSchema) (offset slot i : ℕ) (e : FieldLayout)
    → offset + field_storage_size f < 2 ^ 32
    → slot + 1 < 2 ^ 32
    → get_elem? (layout_fields offset slot (f ∷ fs)) (suc i) ≡ some e
    → get_elem?
        (layout_fields
          (offset + field_storage_size f)
          (slot + (if is_variable_field f then 1 else 0))
          fs)
        i
      ≡ some e
unfolding layout_fields
layout_fields-tail f fs offset slot i e b c h =
    subst
      (λ o.
        get_elem? (layout_fields o (slot + (if is_variable_field f then 1 else 0)) fs) i ≡ some e)
      (to_uint32-small (offset + field_storage_size f) b)
      (subst
        (λ n. get_elem? (layout_fields (to_uint32 (offset + field_storage_size f)) n fs) i ≡ some e)
        (next_slot-small (is_variable_field f) slot c) h)

layout_fields-IsWithin :
    (fs : List FieldSchema) (offset slot i : ℕ) (e : FieldLayout)
    → offset + fixed_size fs < 2 ^ 32
    → slot + length fs < 2 ^ 32
    → get_elem? (layout_fields offset slot fs) i ≡ some e
    → IsWithin offset (offset + fixed_size fs) e
unfolding fixed_size layout_fields
layout_fields-IsWithin [] offset slot i e b c h = ground arith
layout_fields-IsWithin (f ∷ fs) offset slot zero e b c h = ground arith
layout_fields-IsWithin (f ∷ fs) offset slot (suc i) e b c h =
    let rest : IsWithin (offset + field_storage_size f)
        (offset + field_storage_size f + fixed_size fs) e =
      layout_fields-IsWithin fs (offset + field_storage_size f)
        (slot + (if is_variable_field f then 1 else 0)) i e (omega arith) (ground arith)
        (layout_fields-tail f fs offset slot i e (omega arith) (omega arith) h) in
    (omega (arith, rest), omega (arith, rest))

-- Two fields of a layout lie apart, the one that is declared first before the other.
layout_fields-apart :
    (fs : List FieldSchema) (offset slot i j : ℕ) (a b : FieldLayout)
    → offset + fixed_size fs < 2 ^ 32
    → slot + length fs < 2 ^ 32
    → i < j
    → get_elem? (layout_fields offset slot fs) i ≡ some a
    → get_elem? (layout_fields offset slot fs) j ≡ some b
    → a.offset + a.size ≤ b.offset
unfolding fixed_size layout_fields
layout_fields-apart [] offset slot i j a b p q l g h = ground arith
layout_fields-apart (f ∷ fs) offset slot i zero a b p q l g h = ground arith
layout_fields-apart (f ∷ fs) offset slot zero (suc j) a b p q l g h =
    let within : IsWithin (offset + field_storage_size f)
        (offset + field_storage_size f + fixed_size fs) b =
      layout_fields-IsWithin fs (offset + field_storage_size f)
        (slot + (if is_variable_field f then 1 else 0)) j b (omega arith) (ground arith)
        (layout_fields-tail f fs offset slot j b (omega arith) (omega arith) h) in
    ground (arith, within)
layout_fields-apart (f ∷ fs) offset slot (suc i) (suc j) a b p q l g h =
    layout_fields-apart fs (offset + field_storage_size f)
      (slot + (if is_variable_field f then 1 else 0)) i j a b (omega arith) (ground arith)
      (omega arith) (layout_fields-tail f fs offset slot i a (omega arith) (omega arith) g)
      (layout_fields-tail f fs offset slot j b (omega arith) (omega arith) h)

-- The fields of a layout, where its row is shorter than 2^32 bytes and it has less than 2^32
-- fields: of two of them, the one declared first starts behind the bitmap and ends before the
-- other starts, which ends within the row.
pub layout_of-apart :
    (s : CollectionSchema) (i j : ℕ) (a b : FieldLayout)
    → bitmap_size (schema_fields s) + fixed_size (schema_fields s) < 2 ^ 32
    → length (schema_fields s) < 2 ^ 32
    → i < j
    → get_elem? (layout_of s).field_layouts i ≡ some a
    → get_elem? (layout_of s).field_layouts j ≡ some b
    → ((layout_of s).nullable_bitmap_size ≤ a.offset)
      × (a.offset + a.size ≤ b.offset)
      × (b.offset + b.size ≤ (layout_of s).row_fixed_size)
unfolding layout_of
layout_of-apart s i j a b p q l g h =
    let fs = schema_fields s in
    let first : IsWithin (bitmap_size fs) (bitmap_size fs + fixed_size fs) a =
      layout_fields-IsWithin fs (bitmap_size fs) 0 i a p (omega arith) g in
    let second : IsWithin (bitmap_size fs) (bitmap_size fs + fixed_size fs) b =
      layout_fields-IsWithin fs (bitmap_size fs) 0 j b p (omega arith) h in
    (
      omega arith,
      layout_fields-apart fs (bitmap_size fs) 0 i j a b p (omega arith) l g h,
      omega arith,
    )

nullable_bits-length : (fs : List FieldSchema) → nullable_bits fs ≤ length fs
unfolding nullable_bits
nullable_bits-length [] = omega arith
nullable_bits-length (f ∷ fs) = ground (arith, nullable_bits-length fs)

-- For less than 2^32 fields, the bitmap has a bit for every nullable field, and less than a byte
-- more.
pub bitmap_size-bits :
    (fs : List FieldSchema)
    → length fs < 2 ^ 32
    → (nullable_bits fs ≤ 8 * bitmap_size fs) × (8 * bitmap_size fs < nullable_bits fs + 8)
unfolding bitmap_size
bitmap_size-bits fs h =
    let few : nullable_bits fs ≤ length fs = nullable_bits-length fs in (omega arith, omega arith)

-- The slot of every variable field is its number among them.
layout_fields-slot :
    (fs : List FieldSchema) (offset slot i : ℕ) (e : FieldLayout)
    → offset + fixed_size fs < 2 ^ 32
    → slot + length fs < 2 ^ 32
    → get_elem? (layout_fields offset slot fs) i ≡ some e
    → e.storage_kind ≡ variable
    → e.variable_slot ≡ slot + variable_slots (take i fs)
unfolding fixed_size layout_fields variable_slots
layout_fields-slot [] offset slot i e b c h v = ground arith
layout_fields-slot (f ∷ fs) offset slot zero e b c h v = ground arith
layout_fields-slot (f ∷ fs) offset slot (suc i) e b c h v =
    let rest : e.variable_slot
        ≡ slot + (if is_variable_field f then 1 else 0) + variable_slots (take i fs) =
      layout_fields-slot fs (offset + field_storage_size f)
        (slot + (if is_variable_field f then 1 else 0)) i e (omega arith) (ground arith)
        (layout_fields-tail f fs offset slot i e (omega arith) (omega arith) h) v in
    omega (arith, rest)

-- A variable field of a layout has as its slot the number of variable fields before it, where the
-- row is shorter than 2^32 bytes and it has less than 2^32 fields.
pub layout_of-slot :
    (s : CollectionSchema) (i : ℕ) (e : FieldLayout)
    → bitmap_size (schema_fields s) + fixed_size (schema_fields s) < 2 ^ 32
    → length (schema_fields s) < 2 ^ 32
    → get_elem? (layout_of s).field_layouts i ≡ some e
    → e.storage_kind ≡ variable
    → e.variable_slot ≡ variable_slots (take i (schema_fields s))
unfolding layout_of
layout_of-slot s i e p q h v =
    let slot =
      layout_fields-slot (schema_fields s) (bitmap_size (schema_fields s)) 0 i e p (omega arith) h
        v in
    omega (arith, slot)
