-- ===== src/Blob/FieldPayload.antt =====
-- What `serialize_document_blob` writes for a field is what `get_blob_field_payload` finds under its name.
use apx_db.Common.{
  ℕ, ◌+◌, ◌*◌, ◌^◌, ◌<◌, ◌≡◌, sym, subst, ap, ◌∙◌, true, false, ◌++◌, Option, none, some, ◌==◌,
  if◌then◌else◌, ◌⊎◌, inl, inr, Text, length, length-append, arith,
}
use apx_db.Common.Outcome.{Outcome, returned}
use apx_db.Libc.{Doubles}
use apx_db.Json.{Value}
use apx_db.Schema.{Schema, Field, fields_of}
use apx_db.Blob.Scalars.{Stores}
use apx_db.Blob.Agree.{>>=-eq-returned}
use apx_db.Blob.Size.{is_null, count_fields, header_size, document_size, compute_field_payload_size}
use apx_db.Blob.Write.{
  write_fields, write_document, padded, serialize_field_payload, serialize_document_blob,
}
use apx_db.Blob.Read.{
  FieldEntry, get_schema_field_index, get_blob_field_entry, entry_payload, field_payload,
  get_blob_field_payload,
}
use apx_db.Blob.Fetch.{of_field, write_fields-IsWritten, write_fields-length, field_index-lt}
use apx_db.Blob.Written.{IsWritten}
use apx_db.Blob.Parts.{
  blob_of, length-blob_of, get_blob_field_entry-blob_of, entry_payload-blob_of, IsSegment,
  padded-blob_of, same_text, get_blob_field_payload-segment,
}

field_payload-entry :
    (s : Schema) (blob path : Text) (i : ℕ) (f : Field) (e : FieldEntry)
    → get_schema_field_index s path ≡ some (i, f)
    → get_blob_field_entry blob i ≡ some e
    → field_payload s blob path
      ≡ (if e.null_flag == 0 then some (f, entry_payload blob e) else none)
unfolding field_payload
field_payload-entry s blob path i f e h k = rw (h, k, field_payload)

-- What a reader returns for a field: nothing if it is null, and else what `write` wrote for it.
abbrev pub Found :
    {D : Type 0}
    → (Field → Value D → ℕ → Outcome Text)
    → Field
    → Value D
    → Option (Field × Text)
    → Type 0
Found write f v r =
    ((is_null v ≡ true) × (r ≡ none))
    ⊎ ((is_null v ≡ false)
        × ((b : ℕ) × (bytes : Text) × (write f v b ≡ returned bytes)
            × (length bytes < 2 ^ 32)
            × (r ≡ some (f, bytes))))

module _ {D : Type 0} (write : Field → Value D → ℕ → Outcome Text) (s : Schema)
    (entries payloads pad path : Text) (i : ℕ) (f : Field) (v : Value D) (seg : IsSegment path)
    (len : length path < 256) (k : get_schema_field_index s path ≡ some (i, f))
    (lt : i < count_fields (fields_of s)) (long : length entries ≡ 12 * count_fields (fields_of s))
    (short : length (blob_of (count_fields (fields_of s)) entries payloads pad) < 2 ^ 32) where
  by_entry :
      (e : FieldEntry)
      → get_blob_field_entry (blob_of (count_fields (fields_of s)) entries payloads pad) i ≡ some e
      → get_blob_field_payload s (blob_of (count_fields (fields_of s)) entries payloads pad) path
        ≡ (if e.null_flag == 0
            then some
                (f, entry_payload (blob_of (count_fields (fields_of s)) entries payloads pad) e)
            else none)
  by_entry e found =
      let blob = blob_of (count_fields (fields_of s)) entries payloads pad in
      get_blob_field_payload-segment s blob path seg len
      ∙ field_payload-entry s blob path i f e k found

  get_blob_field_payload-IsWritten :
      IsWritten write i f v (header_size (fields_of s)) entries payloads
      → Found write f v (
          get_blob_field_payload s (blob_of (count_fields (fields_of s)) entries payloads pad) path)
  get_blob_field_payload-IsWritten (inl (n, w)) = inl (
    n,
    by_entry _ (
        get_blob_field_entry-blob_of (count_fields (fields_of s)) i entries payloads pad w.more 0 0
          1 lt long short w.at_index (omega arith) (omega arith)),
  )
  get_blob_field_payload-IsWritten (inr (n, (b, bytes, wr, w))) =
      let count = count_fields (fields_of s) in
      let total = length-blob_of count entries payloads pad in
      let parted : length payloads ≡ length w.front + (length bytes + length w.behind) =
        ap length w.placed
        ∙ length-append w.front (bytes ++ w.behind)
        ∙ ap (λ m. length w.front + m) (length-append bytes w.behind) in
      let entry_at =
        get_blob_field_entry-blob_of count i entries payloads pad w.more
          (header_size (fields_of s) + length w.front) (length bytes) 0 lt long short w.at_index
          (omega arith) (omega arith) in
      inr (
        n,
        (
          b,
          bytes,
          wr,
          omega arith,
          by_entry _ entry_at
              ∙ ap (λ p. some (f, p))
                  (entry_payload-blob_of count 0 entries payloads pad w.front bytes w.behind long
                    w.placed),
        ),
      )

module _ {D : Type 0} ⦃fp : Doubles D⦄ ⦃st : Stores D⦄ (fresh : ℕ → ℕ) (n : ℕ) where
  -- The parts of a blob that was written.
  record Parts (s : Schema) (document : Value D) (blob : Text) : Type 0 where
    blob_size : ℕ
    entries : Text
    payloads : Text
    pad : Text
    written :
        write_fields
          (compute_field_payload_size n)
          (serialize_field_payload fresh n)
          (fields_of s)
          document
          blob_size
          (header_size (fields_of s))
        ≡ returned (entries, payloads)
    whole : blob ≡ blob_of (count_fields (fields_of s)) entries payloads pad

  serialize_document_blob-Parts :
      (s : Schema) (document : Value D) (blob : Text)
      → serialize_document_blob fresh n s document ≡ returned blob
      → Parts s document blob
  unfolding serialize_document_blob write_document padded
  serialize_document_blob-Parts s document blob h =
      let (payload_size, e, h₁) =
        >>=-eq-returned (document_size (compute_field_payload_size n) s document) _ blob h in
      let (r, e₁, h₂) =
        >>=-eq-returned
          (write_fields (compute_field_payload_size n) (serialize_field_payload fresh n)
            (fields_of s) document (header_size (fields_of s) + payload_size)
            (header_size (fields_of s)))
          _ blob h₁ in
      let count = count_fields (fields_of s) in
      let (pad, split) =
        padded-blob_of fresh (header_size (fields_of s) + payload_size) count r.0 r.1 in
      record {
        blob_size = header_size (fields_of s) + payload_size;
        entries = r.0;
        payloads = r.1;
        pad = pad;
        written = e₁;
        whole = same_text _ blob h₂ ∙ split;
      }

  -- Where a document was serialized into a blob shorter than 2^32 bytes, `get_blob_field_payload` finds
  -- nothing under the name of a field that is null, and under that of any other the field with the bytes
  -- that `serialize_field_payload` wrote for its value. The name is shorter than 256 bytes and no path.
  pub get_blob_field_payload-serialize_document_blob :
      (s : Schema) (document : Value D) (blob path : Text) (i : ℕ) (f : Field)
      → serialize_document_blob fresh n s document ≡ returned blob
      → length blob < 2 ^ 32
      → IsSegment path
      → length path < 256
      → get_schema_field_index s path ≡ some (i, f)
      → Found
          (serialize_field_payload fresh n)
          f
          (of_field document f)
          (get_blob_field_payload s blob path)
  unfolding get_schema_field_index
  get_blob_field_payload-serialize_document_blob s document blob path i f h small seg len k =
      let parts = serialize_document_blob-Parts s document blob h in
      let size_of = compute_field_payload_size {D = D} n in
      let write = serialize_field_payload {D = D} fresh n in
      let fs = fields_of s in
      let written =
        write_fields-IsWritten size_of write fs document parts.blob_size (header_size fs) path i f
          parts.entries parts.payloads parts.written k in
      let long =
        write_fields-length size_of write fs document parts.blob_size (header_size fs) parts.entries
          parts.payloads parts.written in
      subst (λ b. Found write f (of_field document f) (get_blob_field_payload s b path))
        (sym parts.whole)
        (get_blob_field_payload-IsWritten write s parts.entries parts.payloads parts.pad path i f
          (of_field document f) seg len k (field_index-lt fs path i f k) long
          (subst (λ (b : Text). length b < 2 ^ 32) parts.whole small) written)
