-- ===== src/Blob/MatchFuel.antt =====
-- src/native/apxdb_collection.c: the calls of `blob_field_matches_value` go into ever fewer bytes, so that
-- a unit of fuel for each byte, and one more, is enough.
use apx_db.Common.{
  ℕ, zero, suc, ◌≤◌, ◌<◌, ◌≡◌, ◌≢◌, Bool, true, false, inl, inr, Bool-cases, Option-cases, ltb,
  if◌then◌else◌, Text, length, length-take_le, length-drop, take, drop, arith,
}
use apx_db.Common.Outcome.{Outcome, returned, out_of_fuel}
use apx_db.Libc.{Doubles}
use apx_db.Json.{Value, Members, object, no_members, member}
use apx_db.Schema.{
  Schema, Field, type_of, embedded_schema, element_field, is_sized, apxdb_schema_find_field,
  FieldType, byte, short, int, float, double, boolean, text, datetime, embedded, enumeration,
  list_of,
}
use apx_db.Blob.Scalars.{scalar_type_size}
use apx_db.Blob.Read.{Loads, read_le, nested_blob, get_blob_field_payload}
use apx_db.Blob.Match.{
  contains_element, blob_list_contains, blob_has_members, blob_embedded_object_matches,
  embedded_matches, matches_by_type, blob_field_matches_value,
}
use apx_db.Blob.Fuel.{>>=-ne-out_of_fuel}
use apx_db.Blob.PayloadLength.{schema_or_none, payload_text-length, get_blob_field_payload-length}

-- Fuel for one value, if it has less than `n` bytes.
abbrev IsEnoughFor : {D : Type 0} → ℕ → (Field → Text → Value D → Outcome Bool) → Type 0
IsEnoughFor {D = D} n field_matches =
    (f : Field) (payload : Text) (query : Value D)
    → length payload < n
    → field_matches f payload query ≢ out_of_fuel

if-ne-out_of_fuel :
    (b : Bool) (m k : Outcome Bool)
    → m ≢ out_of_fuel
    → k ≢ out_of_fuel
    → (if b then m else k) ≢ out_of_fuel
if-ne-out_of_fuel true m k h l = h
if-ne-out_of_fuel false m k h l = l

returned-ne-out_of_fuel : {A : Type 0} (a : A) → returned a ≢ out_of_fuel
returned-ne-out_of_fuel a e = cc

behind :
    (payload : Text) (n : ℕ)
    → length payload < suc n
    → ltb (length payload) 4 ≡ false
    → length (drop 4 payload) < n
behind payload n h long = ground (arith, length-drop 4 payload)

module _ {D : Type 0} ⦃fp : Doubles D⦄ (n : ℕ)
    (field_matches : Field → Text → Value D → Outcome Bool)
    (enough : IsEnoughFor n field_matches) where
  contains_element-ne-out_of_fuel :
      (m : ℕ) (e : Field) (cursor : Text) (query : Value D)
      → length cursor < n
      → contains_element field_matches m e cursor query ≢ out_of_fuel
  unfolding contains_element
  contains_element-ne-out_of_fuel zero e cursor query h = returned-ne-out_of_fuel false
  contains_element-ne-out_of_fuel (suc m) e cursor query h =
      let body = if is_sized (type_of e) then drop 4 cursor else cursor in
      let size = if is_sized (type_of e) then read_le 4 cursor else scalar_type_size (type_of e) in
      let shorter : length body ≤ length cursor = ground (arith, length-drop 4 cursor) in
      if-ne-out_of_fuel _ (returned false) _ (returned-ne-out_of_fuel false) (
        if-ne-out_of_fuel _ (returned false) _ (returned-ne-out_of_fuel false) (
          >>=-ne-out_of_fuel (field_matches e (take size body) query) _
            (enough e (take size body) query (omega (arith, length-take_le size body)))
            (λ found. if-ne-out_of_fuel found (returned true) _ (returned-ne-out_of_fuel true) (
              contains_element-ne-out_of_fuel m e (drop size body) query
                (omega (arith, length-drop size body))))))

  blob_list_contains-ne-out_of_fuel :
      (f : Field) (payload : Text) (query : Value D)
      → length payload < suc n
      → blob_list_contains field_matches f payload query ≢ out_of_fuel
  unfolding blob_list_contains
  blob_list_contains-ne-out_of_fuel f payload query h = elim (Bool-cases (ltb (length payload) 4)) [
    | inl tiny ↦ rw (tiny, blob_list_contains) (returned-ne-out_of_fuel false)
    | inr long ↦
        rw (long, blob_list_contains)
          (contains_element-ne-out_of_fuel (read_le 4 payload) (element_field f) (drop 4 payload)
            query (behind payload n h long))
  ]

  blob_has_members-ne-out_of_fuel :
      (s : Schema) (blob : Text) (ms : Members D)
      → length blob < n
      → blob_has_members field_matches s blob ms ≢ out_of_fuel
  unfolding blob_has_members
  blob_has_members-ne-out_of_fuel s blob no_members h = returned-ne-out_of_fuel true
  blob_has_members-ne-out_of_fuel s blob (member name v ms) h =
      elim (Option-cases (apxdb_schema_find_field s name)) [
        | inl missing ↦ rw (missing, blob_has_members) (returned-ne-out_of_fuel false)
        | inr (_, found) ↦ elim (Option-cases (get_blob_field_payload s blob name)) [
          | inl missing ↦ rw (found, missing, blob_has_members) (returned-ne-out_of_fuel false)
          | inr ((f, p), k) ↦
              rw (found, k, blob_has_members)
                (>>=-ne-out_of_fuel (field_matches f p v) _
                  (enough f p v (omega (arith, get_blob_field_payload-length s blob name f p k)))
                  (λ b.
                    if-ne-out_of_fuel b _ (returned false)
                      (blob_has_members-ne-out_of_fuel s blob ms h)
                      (returned-ne-out_of_fuel false)))
        ]
      ]

  embedded_matches-ne-out_of_fuel :
      (f : Field) (payload : Text) (query : Value D)
      → length payload < suc n
      → embedded_matches field_matches f payload query ≢ out_of_fuel
  unfolding embedded_matches blob_embedded_object_matches
  embedded_matches-ne-out_of_fuel f payload (object ms) h =
      elim (schema_or_none (embedded_schema f)) [
        | inl missing ↦ rw (missing, embedded_matches) (returned-ne-out_of_fuel false)
        | inr (s, there) ↦ elim (Option-cases (nested_blob payload)) [
          | inl missing ↦ rw (there, missing, embedded_matches) (returned-ne-out_of_fuel false)
          | inr (blob, b) ↦
              rw (there, b, embedded_matches)
                (blob_has_members-ne-out_of_fuel s blob ms
                  (omega (arith, payload_text-length payload blob b)))
        ]
      ]
  embedded_matches-ne-out_of_fuel f payload _ h = returned-ne-out_of_fuel false

module _ {D : Type 0} ⦃fp : Doubles D⦄ ⦃ld : Loads D⦄ where
  matches_by_type-ne-out_of_fuel :
      (n : ℕ) (field_matches : Field → Text → Value D → Outcome Bool)
      → IsEnoughFor n field_matches
      → (type : FieldType) (f : Field) (payload : Text) (query : Value D) → length payload < suc n
      → matches_by_type field_matches type f payload query ≢ out_of_fuel
  unfolding matches_by_type
  matches_by_type-ne-out_of_fuel n field_matches enough embedded f payload query h =
      embedded_matches-ne-out_of_fuel n field_matches enough f payload query h
  matches_by_type-ne-out_of_fuel n field_matches enough list_of f payload query h =
      blob_list_contains-ne-out_of_fuel n field_matches enough f payload query h
  matches_by_type-ne-out_of_fuel n field_matches enough byte f payload query h =
      returned-ne-out_of_fuel _
  matches_by_type-ne-out_of_fuel n field_matches enough short f payload query h =
      returned-ne-out_of_fuel _
  matches_by_type-ne-out_of_fuel n field_matches enough int f payload query h =
      returned-ne-out_of_fuel _
  matches_by_type-ne-out_of_fuel n field_matches enough float f payload query h =
      returned-ne-out_of_fuel _
  matches_by_type-ne-out_of_fuel n field_matches enough double f payload query h =
      returned-ne-out_of_fuel _
  matches_by_type-ne-out_of_fuel n field_matches enough boolean f payload query h =
      returned-ne-out_of_fuel _
  matches_by_type-ne-out_of_fuel n field_matches enough text f payload query h =
      returned-ne-out_of_fuel _
  matches_by_type-ne-out_of_fuel n field_matches enough datetime f payload query h =
      returned-ne-out_of_fuel _
  matches_by_type-ne-out_of_fuel n field_matches enough enumeration f payload query h =
      returned-ne-out_of_fuel _

  -- With more fuel than there are bytes, `blob_field_matches_value` comes to a result for any field, any
  -- bytes and any query.
  pub blob_field_matches_value-ne-out_of_fuel :
      (n : ℕ) (f : Field) (payload : Text) (query : Value D)
      → length payload < n
      → blob_field_matches_value n f payload query ≢ out_of_fuel
  unfolding blob_field_matches_value
  blob_field_matches_value-ne-out_of_fuel zero f payload query h = absurd (omega arith)
  blob_field_matches_value-ne-out_of_fuel (suc n) f payload query h =
      matches_by_type-ne-out_of_fuel n (blob_field_matches_value n)
        (λ f payload query h. blob_field_matches_value-ne-out_of_fuel n f payload query h)
        (type_of f) f payload query h
