-- ===== src/Json/Depth.antt =====
-- How deep the arrays and objects of a value nest: what bounds the recursions on documents.
use apx_db.Common.{
  ℕ, suc, ◌≤◌, ◌≡◌, some, if◌then◌else◌, leb, Text, text_eq, arith, Bool-cases, inl, inr,
}
use apx_db.Json.{
  Value, Items, Members, array, object, no_items, item, no_members, member, find_member,
}

abbrev max : ℕ → ℕ → ℕ
max a b = if leb a b then b else a

pub max-left : (a b : ℕ) → a ≤ max a b
max-left a b = ground arith

pub max-right : (a b : ℕ) → b ≤ max a b
max-right a b = ground arith

some-injective : {A : Type 0} {a b : A} → some a ≡ some b → a ≡ b
some-injective h = cc

module _ {D : Type 0} where
  unfoldable mutual
    pub depth : Value D → ℕ
    depth (array vs) = suc (depth_of_items vs)
    depth (object ms) = suc (depth_of_members ms)
    depth _ = 0

    pub depth_of_items : Items D → ℕ
    depth_of_items no_items = 0
    depth_of_items (item v vs) = max (depth v) (depth_of_items vs)

    pub depth_of_members : Members D → ℕ
    depth_of_members no_members = 0
    depth_of_members (member name v ms) = max (depth v) (depth_of_members ms)

  pub depth-find_member :
      (ms : Members D) (name : Text) (v : Value D)
      → find_member ms name ≡ some v
      → depth v ≤ depth_of_members ms
  unfolding find_member depth
  depth-find_member no_members name v h = ground arith
  depth-find_member (member n w ms) name v h = elim (Bool-cases (text_eq n name)) [
    | inl e ↦
        let same : w ≡ v = some-injective (rw e at h) in
        rw (← same) (max-left (depth w) (depth_of_members ms))
    | inr e ↦
        let rest : depth v ≤ depth_of_members ms = depth-find_member ms name v (rw e at h) in
        omega (arith, rest, max-right (depth w) (depth_of_members ms))
  ]
