-- ===== src/Blob/Fetch.antt =====
-- The bytes that `serialize_document_blob` writes for a field are what `get_blob_field_payload` finds.
use apx_db.Common.{
  ℕ, suc, ◌+◌, ◌-◌, ◌*◌, ◌<◌, ◌≡◌, refl, ap, [], ◌++◌, Option, none, some, inl, inr, Bool-cases,
  Text, text_eq, length, length-append, arith,
}
use apx_db.Common.Outcome.{Outcome, returned, failed, out_of_fuel, ◌>>=◌}
use apx_db.Json.{Value, apxdb_json_object_get}
use apx_db.Schema.{Fields, Field, no_fields, with_field, name_of}
use apx_db.Blob.Agree.{>>=-eq-returned}
use apx_db.Blob.Size.{or_null, is_null, count_fields}
use apx_db.Blob.Write.{entry, write_fields}
use apx_db.Blob.Read.{next_field, field_index}
use apx_db.Blob.Written.{length-entry, IsWritten, null_here, bytes_here, null_first, bytes_first}

abbrev indexed : ℕ → Field → Option (ℕ × Field)
indexed i f = some (i, f)

field_index-head : (g f : Field) (i : ℕ) → indexed 0 g ≡ indexed i f → (i ≡ 0) × (f ≡ g)
field_index-head g f i h = (cc, cc)

field_index-tail :
    (o : Option (ℕ × Field)) (f : Field) (i : ℕ)
    → next_field o ≡ some (i, f)
    → (j : ℕ) × (o ≡ some (j, f)) × (i ≡ suc j)
field_index-tail none f i h = cc
field_index-tail (some (j, g)) f i h = (j, cc, cc)

-- What came before a result of the loop: after a null field, and after one with bytes.
abbrev Loop : Type 0
Loop = Outcome (Text × Text)

abbrev after_null : Text → Text × Text → Loop
after_null first r = returned (first ++ r.0, r.1)

abbrev after_bytes : Text → Text → Text × Text → Loop
after_bytes first bytes r = returned (first ++ r.0, bytes ++ r.1)

null-returned :
    (r : Loop) (first : Text) (written : Text × Text)
    → (r >>= after_null first) ≡ returned written
    → (es : Text) × (r ≡ returned (es, written.1)) × (first ++ es ≡ written.0)
null-returned (returned (es, ps)) first (entries, payloads) h = (es, cc, cc)
null-returned failed first written h = cc
null-returned out_of_fuel first written h = cc

bytes-returned :
    (r : Loop) (first bytes : Text) (written : Text × Text)
    → (r >>= after_bytes first bytes) ≡ returned written
    → (es : Text) × (ps : Text) × (r ≡ returned (es, ps))
      × (first ++ es ≡ written.0)
      × (bytes ++ ps ≡ written.1)
bytes-returned (returned (es, ps)) first bytes (entries, payloads) h = (es, ps, refl, cc, cc)
bytes-returned failed first bytes written h = cc
bytes-returned out_of_fuel first bytes written h = cc

-- The value of a document under a field's name.
abbrev pub of_field : {D : Type 0} → Value D → Field → Value D
of_field document f = or_null (apxdb_json_object_get document (name_of f))

module _ {D : Type 0} (size_of : Field → Value D → Outcome ℕ)
    (write : Field → Value D → ℕ → Outcome Text) where
  -- The loop writes the field that `field_index` finds, at its index.
  pub write_fields-IsWritten :
      (fs : Fields) (document : Value D) (blob_size offset : ℕ) (name : Text) (i : ℕ) (f : Field)
      (entries payloads : Text)
      → write_fields size_of write fs document blob_size offset ≡ returned (entries, payloads)
      → field_index fs name ≡ some (i, f)
      → IsWritten write i f (of_field document f) offset entries payloads
  unfolding write_fields field_index
  write_fields-IsWritten no_fields document blob_size offset name i f entries payloads h k = cc
  write_fields-IsWritten (with_field g fs) document blob_size offset name i f entries payloads h k =
      elim (Bool-cases (is_null (of_field document g))) [
        | inl n ↦
            let (es, e, same) =
              null-returned (write_fields size_of write fs document blob_size offset) (entry 0 0 1)
                (entries, payloads) (rw (n, write_fields) at h) in
            elim (Bool-cases (text_eq (name_of g) name)) [
              | inl t ↦
                  let (z, is_g) = field_index-head g f i (rw (t, field_index) at k) in
                  rw is_g
                    (null_here write i g (of_field document g) offset es entries payloads z n same)
              | inr t ↦
                  let (j, found, z) =
                    field_index-tail (field_index fs name) f i (rw (t, field_index) at k) in
                  null_first write i j f (of_field document f) offset es entries payloads z same (
                    write_fields-IsWritten fs document blob_size offset name j f es payloads e
                      found)
            ]
        | inr n ↦
            let (bytes, wr, h₁) =
              >>=-eq-returned (write g (of_field document g) (blob_size - offset)) _
                (entries, payloads) (rw (n, write_fields) at h) in
            let (es, ps, e, same, same_p) =
              bytes-returned
                (write_fields size_of write fs document blob_size (offset + length bytes))
                (entry offset (length bytes) 0) bytes (entries, payloads) h₁ in
            elim (Bool-cases (text_eq (name_of g) name)) [
              | inl t ↦
                  let (z, is_g) = field_index-head g f i (rw (t, field_index) at k) in
                  rw is_g (
                    bytes_here write i g (of_field document g) offset (blob_size - offset) bytes es
                      ps entries payloads z n wr same same_p)
              | inr t ↦
                  let (j, found, z) =
                    field_index-tail (field_index fs name) f i (rw (t, field_index) at k) in
                  bytes_first write i j f (of_field document f) offset bytes es ps entries payloads
                    z same same_p
                    (write_fields-IsWritten fs document blob_size (offset + length bytes) name j f
                      es ps e found)
            ]
      ]

  pub write_fields-length :
      (fs : Fields) (document : Value D) (blob_size offset : ℕ) (entries payloads : Text)
      → write_fields size_of write fs document blob_size offset ≡ returned (entries, payloads)
      → length entries ≡ 12 * count_fields fs
  unfolding write_fields count_fields
  write_fields-length no_fields document blob_size offset entries payloads h =
      let e : entries ≡ [] = cc in rw e
  write_fields-length (with_field g fs) document blob_size offset entries payloads h =
      elim (Bool-cases (is_null (of_field document g))) [
        | inl n ↦
            let (es, e, same) =
              null-returned (write_fields size_of write fs document blob_size offset) (entry 0 0 1)
                (entries, payloads) (rw (n, write_fields) at h) in
            omega (
              arith,
              ap length same,
              length-append (entry 0 0 1) es,
              length-entry 0 0 1,
              write_fields-length fs document blob_size offset es payloads e,
            )
        | inr n ↦
            let (bytes, wr, h₁) =
              >>=-eq-returned (write g (of_field document g) (blob_size - offset)) _
                (entries, payloads) (rw (n, write_fields) at h) in
            let (es, ps, e, same, same_p) =
              bytes-returned
                (write_fields size_of write fs document blob_size (offset + length bytes))
                (entry offset (length bytes) 0) bytes (entries, payloads) h₁ in
            omega (
              arith,
              ap length same,
              length-append (entry offset (length bytes) 0) es,
              length-entry offset (length bytes) 0,
              write_fields-length fs document blob_size (offset + length bytes) es ps e,
            )
      ]

pub field_index-lt :
    (fs : Fields) (name : Text) (i : ℕ) (f : Field)
    → field_index fs name ≡ some (i, f)
    → i < count_fields fs
unfolding field_index count_fields
field_index-lt no_fields name i f h = cc
field_index-lt (with_field g fs) name i f h = elim (Bool-cases (text_eq (name_of g) name)) [
  | inl t ↦ let (z, is_g) = field_index-head g f i (rw (t, field_index) at h) in omega arith
  | inr t ↦
      let (j, found, z) = field_index-tail (field_index fs name) f i (rw (t, field_index) at h) in
      omega (arith, field_index-lt fs name j f found)
]
