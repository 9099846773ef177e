-- ===== src/Query/Range.antt =====
-- What a range over an index finds.
use apx_db.Common.{Bool, false, ◌&&◌, ◌||◌, List, [], ◌∷◌, Text}
use apx_db.Libc.{Doubles}
use apx_db.Query.Ids.{Ids, has_id}
use apx_db.Query.Member.{entry_in_range}
use apx_db.Collection.{Entry}

module _ {D : Type 0} ⦃fp : Doubles D⦄ where
  -- Some entry in the range has the id.
  unfoldable pub some_in_range : Text → D → Text → List (Entry D) → Bool
  some_in_range op threshold x [] = false
  some_in_range op threshold x (e ∷ es) =
      (entry_in_range op threshold e && has_id x e.doc_ids) || some_in_range op threshold x es
