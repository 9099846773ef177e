-- ===== src/Collection/Transactions.antt =====
-- src/native/apxdb_collection.c: the write transaction. A handle stands for the pointer to a
-- transaction; `live` are those that were allocated and not freed, with their `active`.
use apx_db.Common.{
  ℕ, suc, Bool, true, false, ◌&&◌, List, [], ◌∷◌, Option, none, some, ◌==◌, if◌then◌else◌,
}
use apx_db.Common.Int.{ℤ, pos, negsuc}

pub record Transactions : Type 0 where
  pub live : List (ℕ × Bool)
  pub active_transaction : Option ℕ
  pub next_handle : ℕ

abbrev pub no_transactions : Transactions
no_transactions = record { live = []; active_transaction = none; next_handle = 0 }

-- The results of the functions that return `int32_t`.
abbrev pub success : ℤ
success = pos 0

abbrev pub failure : ℤ
failure = negsuc 0

-- `txn->active`, of a transaction that was not freed.
unfoldable pub is_active : ℕ → List (ℕ × Bool) → Bool
is_active h [] = false
is_active h ((g, active) ∷ live) = if g == h then active else is_active h live

unfoldable pub deactivate : ℕ → List (ℕ × Bool) → List (ℕ × Bool)
deactivate h [] = []
deactivate h ((g, active) ∷ live) = (g, if g == h then false else active) ∷ deactivate h live

unfoldable pub freed : ℕ → List (ℕ × Bool) → List (ℕ × Bool)
freed h [] = []
freed h ((g, active) ∷ live) =
    let rest = freed h live in if g == h then rest else (g, active) ∷ rest

abbrev pub is_current : ℕ → Option ℕ → Bool
is_current h none = false
is_current h (some g) = g == h

unfoldable pub has_active_write_txn : Transactions → Bool
has_active_write_txn t = elim t.active_transaction [ none ↦ false | some h ↦ is_active h t.live ]

-- `allocated` says whether `malloc` succeeds.
unfoldable pub apxdb_begin_write_txn : Bool → Transactions → Option ℕ × Transactions
apxdb_begin_write_txn allocated t =
    if has_active_write_txn t
    then (none, t)
    else if allocated
    then (
      some t.next_handle,
      record {
        live = (t.next_handle, true) ∷ t.live;
        active_transaction = some t.next_handle;
        next_handle = suc t.next_handle;
      },
    )
    else (none, t)

unfoldable pub apxdb_commit_write_txn : Option ℕ → Transactions → ℤ × Transactions
apxdb_commit_write_txn none t = (failure, t)
apxdb_commit_write_txn (some h) t =
    if is_active h t.live && is_current h t.active_transaction
    then (success, record t { live = deactivate h t.live; active_transaction = none })
    else (failure, t)

unfoldable pub apxdb_rollback_write_txn : Option ℕ → Transactions → ℤ × Transactions
apxdb_rollback_write_txn none t = (failure, t)
apxdb_rollback_write_txn (some h) t =
    if is_active h t.live && is_current h t.active_transaction
    then (success, record t { live = deactivate h t.live; active_transaction = none })
    else (failure, t)

unfoldable pub apxdb_free_transaction : Option ℕ → Transactions → Transactions
apxdb_free_transaction none t = t
apxdb_free_transaction (some h) t = record t {
  live = freed h t.live;
  active_transaction = if is_current h t.active_transaction then none else t.active_transaction;
}
