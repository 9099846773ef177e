-- ===== src/Collection/Exclusive.antt =====
-- There is at most one active write transaction.
use apx_db.Common.{
  ℕ, ◌≤◌, ◌≡◌, refl, Bool, true, false, ◌&&◌, List, [], ◌∷◌, Option, none, some, ◌==◌,
  if◌then◌else◌, arith, Bool-cases, inl, inr,
}
use apx_db.Collection.Transactions.{
  Transactions, no_transactions, is_active, deactivate, freed, is_current, has_active_write_txn,
  apxdb_begin_write_txn, apxdb_commit_write_txn, apxdb_rollback_write_txn, apxdb_free_transaction,
}

-- An active transaction is the current one, and every transaction was begun.
pub record IsExclusive (t : Transactions) : Type 0 where
  current : (h : ℕ) → is_active h t.live ≡ true → t.active_transaction ≡ some h
  pub begun : (h : ℕ) → t.next_handle ≤ h → is_active h t.live ≡ false

is_active-deactivate :
    (g h : ℕ) (live : List (ℕ × Bool))
    → is_active g (deactivate h live) ≡ (if g == h then false else is_active g live)
unfolding is_active deactivate
is_active-deactivate g h [] = ground arith
is_active-deactivate g h ((k, active) ∷ live) = ground (arith, is_active-deactivate g h live)

is_active-freed :
    (g h : ℕ) (live : List (ℕ × Bool))
    → is_active g (freed h live) ≡ (if g == h then false else is_active g live)
unfolding is_active freed
is_active-freed g h [] = ground arith
is_active-freed g h ((k, active) ∷ live) = ground (arith, is_active-freed g h live)

is_active-none :
    (t : Transactions)
    → IsExclusive t
    → has_active_write_txn t ≡ false
    → (g : ℕ) → is_active g t.live ≡ false
unfolding has_active_write_txn
is_active-none t v h g = elim (Bool-cases (is_active g t.live)) [
  | inr e ↦ e
  | inl e ↦ cc (rw (v.current g e) at h)
]

begun-IsExclusive :
    (t : Transactions)
    → IsExclusive t
    → has_active_write_txn t ≡ false
    → IsExclusive (apxdb_begin_write_txn true t).1
unfolding apxdb_begin_write_txn is_active
begun-IsExclusive t v h = rw h (record {
  current = λ g a. ground (arith, is_active-none t v h g, a);
  begun = λ g l. ground (arith, v.begun g, l);
})

begin-IsExclusive :
    (allocated : Bool) (t : Transactions)
    → IsExclusive t
    → IsExclusive (apxdb_begin_write_txn allocated t).1
unfolding apxdb_begin_write_txn
begin-IsExclusive allocated t v = elim (Bool-cases (has_active_write_txn t)) [
  | inl e ↦ rw e v
  | inr e ↦ by_allocated allocated e
]
  where
    by_allocated :
        (b : Bool) → has_active_write_txn t ≡ false → IsExclusive (apxdb_begin_write_txn b t).1
    by_allocated true e = begun-IsExclusive t v e
    by_allocated false e = rw e v

-- `commit` and `rollback` on a transaction that is active and current.
ended-IsExclusive :
    (h : ℕ) (t : Transactions)
    → IsExclusive t
    → is_current h t.active_transaction ≡ true
    → IsExclusive (record t { live = deactivate h t.live; active_transaction = none })
ended-IsExclusive h t v c = record {
  current = λ g a. ground (arith, is_active-deactivate g h t.live, v.current g, a, c);
  begun = λ g l. ground (arith, is_active-deactivate g h t.live, v.begun g, l);
}

commit-IsExclusive :
    (h : Option ℕ) (t : Transactions) → IsExclusive t → IsExclusive (apxdb_commit_write_txn h t).1
unfolding apxdb_commit_write_txn
commit-IsExclusive none t v = v
commit-IsExclusive (some h) t v =
    elim (Bool-cases (is_active h t.live && is_current h t.active_transaction)) [
      | inl e ↦ rw e (ended-IsExclusive h t v (ground (arith, e)))
      | inr e ↦ rw e v
    ]

-- A rollback returns what a commit returns, and does to the transactions what a commit does.
pub rollback-commit :
    (h : Option ℕ) (t : Transactions) → apxdb_rollback_write_txn h t ≡ apxdb_commit_write_txn h t
unfolding apxdb_rollback_write_txn apxdb_commit_write_txn
rollback-commit none t = refl
rollback-commit (some h) t = refl

free-IsExclusive :
    (h : Option ℕ) (t : Transactions) → IsExclusive t → IsExclusive (apxdb_free_transaction h t)
unfolding apxdb_free_transaction
free-IsExclusive none t v = v
free-IsExclusive (some h) t v = record {
  current = λ g a. ground (arith, a, v.current g, is_active-freed g h t.live);
  begun = λ g l. ground (arith, v.begun g l, is_active-freed g h t.live);
}

-- A call on the write transaction, with any handle.
pub data TransactionStep (t : Transactions) : Transactions → Type 0 where
  begin : (allocated : Bool) → TransactionStep t (apxdb_begin_write_txn allocated t).1
  commit : (h : Option ℕ) → TransactionStep t (apxdb_commit_write_txn h t).1
  rollback : (h : Option ℕ) → TransactionStep t (apxdb_rollback_write_txn h t).1
  free : (h : Option ℕ) → TransactionStep t (apxdb_free_transaction h t)

pub data TransactionReach : Transactions → Type 0 where
  at_start : TransactionReach no_transactions
  after : {t u : Transactions} → TransactionReach t → TransactionStep t u → TransactionReach u

TransactionStep-IsExclusive :
    {t u : Transactions} → TransactionStep t u → IsExclusive t → IsExclusive u
TransactionStep-IsExclusive {t} (begin allocated) v = begin-IsExclusive allocated t v
TransactionStep-IsExclusive {t} (commit h) v = commit-IsExclusive h t v
TransactionStep-IsExclusive {t} (rollback h) v = rw (rollback-commit h t) (commit-IsExclusive h t v)
TransactionStep-IsExclusive {t} (free h) v = free-IsExclusive h t v

TransactionReach-IsExclusive : {t : Transactions} → TransactionReach t → IsExclusive t
unfolding is_active
TransactionReach-IsExclusive at_start = record { current = λ h a. cc; begun = λ h l. refl }
TransactionReach-IsExclusive (after r s) =
    TransactionStep-IsExclusive s (TransactionReach-IsExclusive r)

-- After any calls since the start, two transactions that are active are the same, and it is the
-- current one.
pub TransactionReach-one_active :
    {t : Transactions} (g h : ℕ)
    → TransactionReach t
    → is_active g t.live ≡ true
    → is_active h t.live ≡ true
    → (g ≡ h) × (t.active_transaction ≡ some g)
TransactionReach-one_active g h r a b =
    let v = TransactionReach-IsExclusive r in
    let e = v.current g a in let e' = v.current h b in (cc, e)
