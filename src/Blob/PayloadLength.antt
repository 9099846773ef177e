-- ===== src/Blob/PayloadLength.antt =====
-- src/native/apxdb_collection.c: what `get_blob_field_payload` finds is not longer than the blob.
use apx_db.Common.{
  ◌+◌, ◌≤◌, ◌≡◌, ◌≢◌, refl, sym, ap, Bool, true, false, ◌==◌, List, [], ◌∷◌, none, some, ◌⊎◌, inl,
  inr, Bool-cases, Option-cases, ltb, if◌then◌else◌, Text, length, length-take_le, length-drop,
  take, drop, arith,
}
use apx_db.Schema.{Schema, SchemaRef, Field, no_schema, schema_at, embedded_schema}
use apx_db.Blob.Read.{
  read_le, payload_text, nested_blob, entry_payload, get_schema_field_index, get_blob_field_entry,
  field_payload, is_embedded, payload_on_path, segments, get_blob_field_payload, FieldEntry,
}

pub nothing : {A : Type 0} {a : A} → none ≢ some a
nothing h = cc

pub schema_or_none : (r : SchemaRef) → (r ≡ no_schema) ⊎ ((s : Schema) × (r ≡ schema_at s))
schema_or_none no_schema = inl refl
schema_or_none (schema_at s) = inr (s, refl)

guarded :
    {A : Type 0} (b c : Bool) (x y : A)
    → (if b then none else if c then none else some x) ≡ some y
    → (b ≡ false) × (x ≡ y)
guarded true c x y h = cc
guarded false true x y h = cc
guarded false false x y h = (refl, cc)

pub payload_text-length :
    (payload s : Text) → payload_text payload ≡ some s → length s + 4 ≤ length payload
unfolding payload_text
payload_text-length payload s h =
    let (long, same) =
      guarded (ltb (length payload) 4) (ltb (length payload) (4 + read_le 4 payload))
        (take (read_le 4 payload) (drop 4 payload)) s h in
    let four : 4 ≤ length payload = ground arith in
    omega (
      arith,
      sym (ap length same),
      length-take_le (read_le 4 payload) (drop 4 payload),
      length-drop 4 payload,
      four,
    )

entry_payload-length : (blob : Text) (e : FieldEntry) → length (entry_payload blob e) ≤ length blob
entry_payload-length blob e =
    omega (arith, length-take_le e.size (drop e.offset blob), length-drop e.offset blob)

unless_null : {A : Type 0} (b : Bool) (x y : A) → (if b then some x else none) ≡ some y → x ≡ y
unless_null true x y h = cc
unless_null false x y h = cc

field_payload-length :
    (s : Schema) (blob segment p : Text) (f : Field)
    → field_payload s blob segment ≡ some (f, p)
    → length p ≤ length blob
unfolding field_payload
field_payload-length s blob segment p f h = elim (Option-cases (get_schema_field_index s segment)) [
  | inl missing ↦ absurd (nothing (rw (missing, field_payload) at h))
  | inr ((i, g), k) ↦ elim (Option-cases (get_blob_field_entry blob i)) [
    | inl missing ↦ absurd (nothing (rw (k, missing, field_payload) at h))
    | inr (e, l) ↦
        let same =
          unless_null (e.null_flag == 0) (g, entry_payload blob e) (f, p)
            (rw (k, l, field_payload) at h) in
        omega (arith, sym (ap (λ r. length r.1) same), entry_payload-length blob e)
  ]
]

-- What is found on a path is no longer than the blob.
payload_on_path-length :
    (s : Schema) (blob : Text) (path : List Text) (f : Field) (p : Text)
    → payload_on_path s blob path ≡ some (f, p)
    → length p ≤ length blob
unfolding payload_on_path
payload_on_path-length s blob [] f p h = cc
payload_on_path-length s blob (x ∷ []) f p h = field_payload-length s blob x p f h
payload_on_path-length s blob (x ∷ y ∷ path) f p h = elim (Option-cases (field_payload s blob x)) [
  | inl missing ↦ absurd (nothing (rw (missing, payload_on_path) at h))
  | inr ((g, q), k) ↦ elim (Bool-cases (is_embedded g)) [
    | inr other ↦ absurd (nothing (rw (k, other, payload_on_path) at h))
    | inl inside ↦ elim (schema_or_none (embedded_schema g)) [
      | inl missing ↦ absurd (nothing (rw (k, inside, missing, payload_on_path) at h))
      | inr (nested, there) ↦ elim (Option-cases (nested_blob q)) [
        | inl missing ↦ absurd (nothing (rw (k, inside, there, missing, payload_on_path) at h))
        | inr (bytes, b) ↦ omega (
          arith,
          payload_on_path-length nested bytes (y ∷ path) f p
              (rw (k, inside, there, b, payload_on_path) at h),
          payload_text-length q bytes b,
          field_payload-length s blob x q g k,
        )
      ]
    ]
  ]
]

pub get_blob_field_payload-length :
    (s : Schema) (blob path : Text) (f : Field) (p : Text)
    → get_blob_field_payload s blob path ≡ some (f, p)
    → length p ≤ length blob
unfolding get_blob_field_payload
get_blob_field_payload-length s blob path f p h = elim (Bool-cases (ltb (length path) 256)) [
  | inl fits ↦ payload_on_path-length s blob (segments path) f p (rw fits at h)
  | inr long ↦ absurd (nothing (rw long at h))
]
