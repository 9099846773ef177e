-- ===== src/Query/Operators.antt =====
-- src/native/apxdb_collection.c: the comparison operators of a query.
use apx_db.Common.{Bool, false, if◌then◌else◌, Text, codes, text_eq}
use apx_db.Libc.{Doubles}

unfoldable pub compare_numeric_operator : {D : Type 0} ⦃fp : Doubles D⦄ → D → Text → D → Bool
compare_numeric_operator ⦃fp⦄ doc_value op threshold =
    if text_eq op (codes "gt")
    then fp.less threshold doc_value
    else if text_eq op (codes "gte")
    then fp.less_eq threshold doc_value
    else if text_eq op (codes "lt")
    then fp.less doc_value threshold
    else if text_eq op (codes "lte")
    then fp.less_eq doc_value threshold
    else if text_eq op (codes "eq")
    then fp.equal doc_value threshold
    else false
