-- ===== src/Collection/SizeLoops.antt =====
-- The loops over elements and over fields: what conforms has a size, where it does level for level.
use apx_db.Common.{ℕ, suc, ◌≤◌, ◌<◌, ◌≡◌, refl, Bool, true, false, ◌&&◌, arith, if◌then◌else◌}
use apx_db.Common.Outcome.{Outcome, returned, failed, out_of_fuel, ◌>>◌, require}
use apx_db.Json.{Value, Items, Members, null, array, object, no_items, item, apxdb_json_object_get}
use apx_db.Json.Depth.{depth, depth_of_items, depth_of_members, max-left, max-right}
use apx_db.Schema.{
  schema, Fields, Field, field, SchemaRef, no_fields, with_field, schema_at, name_of, type_of,
  is_nullable, embedded_schema, element_field, enum_strategy,
}
use apx_db.Blob.Size.{
  or_null, is_null, size_items, size_fields, document_size, size_embedded, size_list,
}
use apx_db.Blob.Fuel.{depth-or_null}
use apx_db.Collection.Validate.{
  validate_elements, validate_json_array, validate_fields, validate_json_object, validate_embedded,
}
use apx_db.Collection.CanStore.{
  is_storable, can_store, can_store_ref, can_store_fields, Returns, Returns->>=,
}

>>-returned :
    (a b : Outcome (Unit {0})) → (a >> b) ≡ returned tt → (a ≡ returned tt) × (b ≡ returned tt)
>>-returned (returned tt) b h = (refl, h)
>>-returned failed b h = cc
>>-returned out_of_fuel b h = cc

pub require-returned : (b : Bool) → require b ≡ returned tt → b ≡ true
require-returned true h = refl
require-returned false h = cc

&&-true : (a b : Bool) → (a && b) ≡ true → (a ≡ true) × (b ≡ true)
&&-true true b h = (refl, h)
&&-true false b h = cc

-- `size_of` gives conforming values, nested less deep than `k`, a size.
abbrev pub IsSized :
    {D : Type 0}
    → ℕ
    → (Field → Value D → Outcome (Unit {0}))
    → (Field → Value D → Outcome ℕ)
    → Type 0
IsSized {D = D} k validate size_of =
    (f : Field) (v : Value D)
    → depth v < k
    → can_store f ≡ true
    → validate f v ≡ returned tt
    → Returns (size_of f v)

element_field-can_store : (f : Field) → can_store f ≡ true → can_store (element_field f) ≡ true
unfolding can_store
element_field-can_store
      (field name type nullable embeds element_type element_schema strategy values) h =
    ground (arith, h)

pub embedded_schema-can_store :
    (f : Field) → can_store f ≡ true → can_store_ref (embedded_schema f) ≡ true
unfolding can_store
embedded_schema-can_store
      (field name type nullable embeds element_type element_schema strategy values) h =
    ground (arith, h)

pub type_of-is_storable :
    (f : Field) → can_store f ≡ true → is_storable (type_of f) (enum_strategy f) ≡ true
unfolding can_store
type_of-is_storable (field name type nullable embeds element_type element_schema strategy values)
      h =
    ground (arith, h)

module _ {D : Type 0} (k : ℕ) (validate : Field → Value D → Outcome (Unit {0}))
    (size_of : Field → Value D → Outcome ℕ) (sized : IsSized k validate size_of)
    (nothing : (f : Field) → 0 < k → is_nullable f ≡ true → Returns (size_of f null)) where
  size_items-Returns :
      (f : Field) (vs : Items D)
      → depth_of_items vs < k
      → can_store f ≡ true
      → validate_elements validate f vs ≡ returned tt
      → Returns (size_items size_of f vs)
  unfolding size_items validate_elements depth
  size_items-Returns f no_items h c e = (0, refl)
  size_items-Returns f (item v vs) h c e =
      let (first, rest) = >>-returned (validate f v) (validate_elements validate f vs) e in
      let left = max-left (depth v) (depth_of_items vs) in
      let right = max-right (depth v) (depth_of_items vs) in
      Returns->>= (size_of f v) _ (sized f v (omega (arith, left)) c first) (λ size.
        Returns->>= (size_items size_of f vs) _
          (size_items-Returns f vs (omega (arith, right)) c rest) (λ total. (_, refl)))

  pub size_fields-Returns :
      (fs : Fields) (ms : Members D)
      → depth_of_members ms < k
      → can_store_fields fs ≡ true
      → validate_fields validate fs (object ms) ≡ returned tt
      → Returns (size_fields size_of fs (object ms))
  unfolding size_fields validate_fields can_store
  size_fields-Returns no_fields ms h c e = (0, refl)
  size_fields-Returns (with_field f fs) ms h c e =
      let v = or_null (apxdb_json_object_get (object ms) (name_of f)) in
      let inside : depth v ≤ depth_of_members ms = depth-or_null ms (name_of f) in
      let (c', cs) = &&-true (can_store f) (can_store_fields fs) c in
      let (first, rest) = >>-returned _ (validate_fields validate fs (object ms)) e in
      Returns->>= (size_of f v) _ (field_value f v (omega (arith, inside)) c' first) (λ size.
        Returns->>= (size_fields size_of fs (object ms)) _ (size_fields-Returns fs ms h cs rest)
          (λ total. (_, refl)))
    where
      field_value :
          (g : Field) (w : Value D)
          → depth w < k
          → can_store g ≡ true
          → (if is_null w then require (is_nullable g) else validate g w) ≡ returned tt
          → Returns (size_of g w)
      field_value g null l d r = nothing g (omega arith) (require-returned (is_nullable g) r)
      field_value g w l d r = sized g w l d r

  pub size_embedded-Returns :
      (r : SchemaRef) (v : Value D)
      → depth v < suc k
      → can_store_ref r ≡ true
      → validate_embedded validate r v ≡ returned tt
      → Returns (size_embedded size_of r v)
  unfolding size_embedded document_size validate_embedded validate_json_object can_store depth
  size_embedded-Returns (schema_at (schema name fs)) (object ms) h c e =
      Returns->>= (document_size size_of (schema name fs) (object ms)) _
        (Returns->>= (size_fields size_of fs (object ms)) _
          (size_fields-Returns fs ms (omega arith) c e) (λ _. (_, refl)))
        (λ _. (_, refl))
  size_embedded-Returns _ _ h c e = cc

  pub size_list-Returns :
      (f : Field) (v : Value D)
      → depth v < suc k
      → is_null v ≡ false
      → can_store f ≡ true
      → validate_json_array validate f v ≡ returned tt
      → Returns (size_list size_of f v)
  unfolding size_list validate_json_array depth
  size_list-Returns f (array vs) h n c e =
      Returns->>= (size_items size_of (element_field f) vs) _
        (size_items-Returns (element_field f) vs (omega arith) (element_field-can_store f c) e)
        (λ _. (_, refl))
  size_list-Returns f _ h n c e = cc
