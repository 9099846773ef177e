-- ===== src/Blob/Parts.antt =====
-- src/native/apxdb_collection.c: the header, the entries and the payloads of a blob, as
-- `get_blob_field_payload` finds them.
use apx_db.Common.{
  ℕ, ◌+◌, ◌-◌, ◌*◌, ◌^◌, ◌≤◌, ◌<◌, ◌≡◌, ◌≢◌, refl, ap, ◌∙◌, true, false, [], ◌∷◌, ◌++◌,
  append_assoc, append-nil, some, ltb, ◌==◌, All, Text, length, length-append, take, drop,
  take-append, drop-append, drop-append_at, drop-append_le, arith,
}
use apx_db.Common.Outcome.{returned}
use apx_db.Schema.{Schema}
use apx_db.Blob.Scalars.{le_bytes}
use apx_db.Blob.Write.{entry, blob_magic, padded, unwritten}
use apx_db.Blob.Read.{
  read_le, read_entry, FieldEntry, get_blob_field_entry, entry_payload, segments_from, segments,
  field_payload, payload_on_path, get_blob_field_payload,
}
use apx_db.Blob.Written.{read_le-le_bytes, read_entry-entry}

abbrev blob_header : ℕ → Text
blob_header count = le_bytes 4 blob_magic ++ (le_bytes 4 1 ++ le_bytes 4 count)

-- A blob: its header, the entries, the payloads, and what stands behind them.
abbrev pub blob_of : ℕ → Text → Text → Text → Text
blob_of count entries payloads pad = blob_header count ++ (entries ++ (payloads ++ pad))

pub length-blob_of :
    (count : ℕ) (entries payloads pad : Text)
    → length (blob_of count entries payloads pad)
      ≡ 12 + length entries + length payloads + length pad
unfolding le_bytes
length-blob_of count entries payloads pad =
    omega (arith, length-append entries (payloads ++ pad), length-append payloads pad)

drop-blob_header :
    (count : ℕ) (rest : Text) → drop 8 (blob_header count ++ rest) ≡ le_bytes 4 count ++ rest
unfolding le_bytes
drop-blob_header count rest = refl

length-blob_header : (count : ℕ) → length (blob_header count) ≡ 12
unfolding le_bytes
length-blob_header count = refl

-- An entry is found where the count says that it is there, and the entries are.
get_blob_field_entry-some :
    (blob : Text) (i count : ℕ) (e : FieldEntry)
    → read_le 4 (drop 8 blob) ≡ count
    → i < count
    → 12 + 12 * count ≤ length blob
    → read_entry (drop (12 + 12 * i) blob) ≡ e
    → get_blob_field_entry blob i ≡ some e
unfolding get_blob_field_entry
get_blob_field_entry-some blob i count e c lt le r = ground arith

pub get_blob_field_entry-blob_of :
    (count i : ℕ) (entries payloads pad more : Text) (offset size flag : ℕ)
    → i < count
    → length entries ≡ 12 * count
    → length (blob_of count entries payloads pad) < 2 ^ 32
    → drop (12 * i) entries ≡ entry offset size flag ++ more
    → offset < 2 ^ 32
    → size < 2 ^ 32
    → get_blob_field_entry (blob_of count entries payloads pad) i
      ≡ some (record { offset = offset; size = size; null_flag = flag })
get_blob_field_entry-blob_of count i entries payloads pad more offset size flag lt len small at o
      z =
    let body = entries ++ (payloads ++ pad) in
    let total = length-blob_of count entries payloads pad in
    let counted : read_le 4 (drop 8 (blob_header count ++ body)) ≡ count =
      rw (drop-blob_header count body) (read_le-le_bytes 4 count body (omega arith)) in
    let placed : drop (12 + 12 * i) (blob_header count ++ body)
        ≡ entry offset size flag ++ (more ++ (payloads ++ pad)) =
      drop-append_at (12 + 12 * i) (12 * i) (blob_header count) body
        (omega (arith, length-blob_header count))
      ∙ drop-append_le (12 * i) entries (payloads ++ pad) (omega arith)
      ∙ ap (λ s. s ++ (payloads ++ pad)) at
      ∙ append_assoc (entry offset size flag) more (payloads ++ pad) in
    get_blob_field_entry-some (blob_header count ++ body) i count _ counted lt (omega arith)
      (ap read_entry placed ∙ read_entry-entry offset size flag (more ++ (payloads ++ pad)) o z)

-- The bytes of a field, in the payloads.
pub entry_payload-blob_of :
    (count flag : ℕ) (entries payloads pad front bytes behind : Text)
    → length entries ≡ 12 * count
    → payloads ≡ front ++ (bytes ++ behind)
    → entry_payload
        (blob_of count entries payloads pad)
        (record { offset = 12 + 12 * count + length front; size = length bytes; null_flag = flag })
      ≡ bytes
entry_payload-blob_of count flag entries payloads pad front bytes behind len e =
    let n = 12 * count + length front in
    let behind_pad = bytes ++ (behind ++ pad) in
    let regroup : payloads ++ pad ≡ front ++ behind_pad =
      ap (λ s. s ++ pad) e
      ∙ append_assoc front (bytes ++ behind) pad
      ∙ ap (λ s. front ++ s) (append_assoc bytes behind pad) in
    let found : drop (12 + 12 * count + length front) (blob_of count entries payloads pad)
        ≡ behind_pad =
      drop-append_at (12 + 12 * count + length front) n (blob_header count)
        (entries ++ (payloads ++ pad)) (omega (arith, length-blob_header count))
      ∙ drop-append_at n (length front) entries (payloads ++ pad) (omega arith)
      ∙ ap (drop (length front)) regroup
      ∙ drop-append front behind_pad in
    ap (take (length bytes)) found ∙ take-append bytes (behind ++ pad)

-- A path of one segment.
abbrev pub IsSegment : Text → Type 0
IsSegment path = (path ≢ []) × All (λ c. c ≢ b'.') path

segments_from-segment :
    (begun : ℕ) (segment path : Text)
    → All (λ c. c ≢ b'.') path
    → segments_from (begun ∷ segment) path ≡ (begun ∷ (segment ++ path)) ∷ []
unfolding segments_from
segments_from-segment begun segment [] h = rw append-nil refl
segments_from-segment begun segment (c ∷ path) h =
    let other : (c == b'.') ≡ false = ground arith in
    rw (other, segments_from)
      (segments_from-segment begun (segment ++ c ∷ []) path h.1
        ∙ ap (λ s. (begun ∷ s) ∷ []) (append_assoc segment (c ∷ []) path))

segments-segment : (path : Text) → IsSegment path → segments path ≡ path ∷ []
unfolding segments segments_from
segments-segment [] h = absurd (h.0 refl)
segments-segment (c ∷ path) h =
    let other : (c == b'.') ≡ false = ground arith in
    rw (other, segments_from) (segments_from-segment c [] path h.1.1)

-- What is written of a blob, as `write_document` puts it together.
abbrev blob_text : ℕ → Text → Text → Text
blob_text count entries payloads =
    le_bytes 4 blob_magic ++ (le_bytes 4 1 ++ (le_bytes 4 count ++ (entries ++ payloads)))

pub padded-blob_of :
    (fresh : ℕ → ℕ) (size count : ℕ) (entries payloads : Text)
    → (pad : Text) × (padded fresh size (blob_text count entries payloads)
        ≡ blob_of count entries payloads pad)
unfolding padded
padded-blob_of fresh size count entries payloads =
    (unwritten fresh (size - length (blob_text count entries payloads)), simp append_assoc)

pub same_text : (a b : Text) → returned a ≡ returned b → b ≡ a
same_text a b h = cc

pub get_blob_field_payload-segment :
    (s : Schema) (blob path : Text)
    → IsSegment path
    → length path < 256
    → get_blob_field_payload s blob path ≡ field_payload s blob path
unfolding get_blob_field_payload payload_on_path
get_blob_field_payload-segment s blob path seg len =
    let short : ltb (length path) 256 ≡ true = ground arith in
    rw (short, segments-segment path seg, payload_on_path)
