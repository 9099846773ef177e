-- ===== src/Blob/Written.antt =====
-- src/native/apxdb_collection.c: how the entry and the bytes of a field stand in what `write_fields` writes.
use apx_db.Common.{
  ℕ, zero, suc, ◌+◌, ◌*◌, ◌/◌, ◌^◌, ◌<◌, ◌≡◌, refl, sym, ap, ◌∙◌, true, false, [], ◌++◌,
  append_assoc, ◌⊎◌, inl, inr, Text, length, length-append, drop, drop-append_at, arith,
}
use apx_db.Blob.Scalars.{le_bytes}
use apx_db.Common.Outcome.{Outcome, returned}
use apx_db.Json.{Value}
use apx_db.Schema.{Field}
use apx_db.Blob.Size.{is_null}
use apx_db.Blob.Write.{entry}
use apx_db.Blob.Read.{read_le, read_entry}

pub read_le-le_bytes : (k n : ℕ) (rest : Text) → n < 256 ^ k → read_le k (le_bytes k n ++ rest) ≡ n
unfolding read_le le_bytes
read_le-le_bytes zero n rest h = omega arith
read_le-le_bytes (suc k) n rest h = omega (arith, read_le-le_bytes k (n / 256) rest (omega arith))

pub length-entry : (offset size flag : ℕ) → length (entry offset size flag) ≡ 12
unfolding le_bytes
length-entry offset size flag = refl

drop-entry :
    (i offset size flag : ℕ) (rest : Text)
    → drop (12 * suc i) (entry offset size flag ++ rest) ≡ drop (12 * i) rest
drop-entry i offset size flag rest =
    drop-append_at (12 * suc i) (12 * i) (entry offset size flag) rest
      (omega (arith, length-entry offset size flag))

pub read_entry-entry :
    (offset size flag : ℕ) (rest : Text)
    → offset < 2 ^ 32
    → size < 2 ^ 32
    → read_entry (entry offset size flag ++ rest)
      ≡ record { offset = offset; size = size; null_flag = flag }
unfolding read_entry read_le le_bytes
read_entry-entry offset size flag rest h k = ground arith

-- What the loop over the fields has written of the field at an index: of null its entry, and of any other
-- value its entry and its bytes.
pub record NullWritten (i : ℕ) (entries : Text) : Type 0 where
  pub more : Text
  pub at_index : drop (12 * i) entries ≡ entry 0 0 1 ++ more

pub record BytesWritten (i offset : ℕ) (bytes entries payloads : Text) : Type 0 where
  pub front : Text
  pub behind : Text
  pub more : Text
  pub placed : payloads ≡ front ++ (bytes ++ behind)
  pub at_index : drop (12 * i) entries ≡ entry (offset + length front) (length bytes) 0 ++ more

abbrev pub IsWritten :
    {D : Type 0}
    → (Field → Value D → ℕ → Outcome Text)
    → ℕ
    → Field
    → Value D
    → ℕ
    → Text
    → Text
    → Type 0
IsWritten write i f v offset entries payloads =
    ((is_null v ≡ true) × NullWritten i entries)
    ⊎ ((is_null v ≡ false)
        × ((b : ℕ) × (bytes : Text) × (write f v b ≡ returned bytes)
            × BytesWritten i offset bytes entries payloads))

module _ {D : Type 0} (write : Field → Value D → ℕ → Outcome Text) where
  -- The field itself in front, null and not.
  pub null_here :
      (i : ℕ) (f : Field) (v : Value D) (offset : ℕ) (es entries payloads : Text)
      → i ≡ 0
      → is_null v ≡ true
      → entry 0 0 1 ++ es ≡ entries
      → IsWritten write i f v offset entries payloads
  null_here i f v offset es entries payloads z n e =
      rw z (inl (n, record { more = es; at_index = sym e }))

  pub bytes_here :
      (i : ℕ) (f : Field) (v : Value D) (offset b : ℕ) (bytes es ps entries payloads : Text)
      → i ≡ 0
      → is_null v ≡ false
      → write f v b ≡ returned bytes
      → entry offset (length bytes) 0 ++ es ≡ entries
      → bytes ++ ps ≡ payloads
      → IsWritten write i f v offset entries payloads
  bytes_here i f v offset b bytes es ps entries payloads z n w e e' = rw z (
      inr (
        n,
        (
          b,
          bytes,
          w,
          record {
            front = [];
            behind = ps;
            more = es;
            placed = sym e';
            at_index = sym e ∙ ap (λ k. entry k (length bytes) 0 ++ es) (omega arith);
          },
        ),
      ))

  -- One more field in front.
  pub null_first :
      (i j : ℕ) (f : Field) (v : Value D) (offset : ℕ) (es entries payloads : Text)
      → i ≡ suc j
      → entry 0 0 1 ++ es ≡ entries
      → IsWritten write j f v offset es payloads
      → IsWritten write i f v offset entries payloads
  null_first i j f v offset es entries payloads z e (inl (n, w)) =
      rw (z, ← e) (inl (n, record { more = w.more; at_index = drop-entry j 0 0 1 es ∙ w.at_index }))
  null_first i j f v offset es entries payloads z e (inr (n, (b, bytes, wr, w))) =
      rw (z, ← e)
        (inr (
          n,
          (
            b,
            bytes,
            wr,
            record {
              front = w.front;
              behind = w.behind;
              more = w.more;
              placed = w.placed;
              at_index = drop-entry j 0 0 1 es ∙ w.at_index;
            },
          ),
        ))

  pub bytes_first :
      (i j : ℕ) (f : Field) (v : Value D) (offset : ℕ) (first es ps entries payloads : Text)
      → i ≡ suc j
      → entry offset (length first) 0 ++ es ≡ entries
      → first ++ ps ≡ payloads
      → IsWritten write j f v (offset + length first) es ps
      → IsWritten write i f v offset entries payloads
  bytes_first i j f v offset first es ps entries payloads z e e' (inl (n, w)) =
      rw (z, ← e)
        (inl (
          n,
          record { more = w.more; at_index = drop-entry j offset (length first) 0 es ∙ w.at_index },
        ))
  bytes_first i j f v offset first es ps entries payloads z e e' (inr (n, (b, bytes, wr, w))) =
      rw (z, ← e, ← e')
        (inr (
          n,
          (
            b,
            bytes,
            wr,
            record {
              front = first ++ w.front;
              behind = w.behind;
              more = w.more;
              placed =
                  ap (λ s. first ++ s) w.placed
                  ∙ sym (append_assoc first w.front (bytes ++ w.behind));
              at_index =
                  drop-entry j offset (length first) 0 es
                  ∙ w.at_index
                  ∙ ap (λ k. entry k (length bytes) 0 ++ w.more)
                      (omega (arith, length-append first w.front));
            },
          ),
        ))
