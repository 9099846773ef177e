-- ===== src/Schema/Registered.antt =====
-- What the registries of the fixed layouts hold after any sequence of calls.
use apx_db.Common.{
  Bool, true, false, ◌≡◌, refl, sym, ap, ◌∙◌, ◌&&◌, inl, inr, List, [], ◌∷◌, ◌++◌, map, Option,
  none, some, ◌==◌, if◌then◌else◌, Text, text_eq, text_eq→eq, arith, Bool-cases, Option-cases, All,
}
use apx_db.Schema.Layout.{
  CollectionSchema, Layout, is_valid_collection_schema, apxdb_build_collection_layout, layout_of,
}
use apx_db.Schema.Registry.{
  same_name, Registries, Room, find_layout_by_id, clashes, find_clash,
  apxdb_register_layout_for_schema, add_schema, apxdb_register_schema,
}

-- No two of the schemas have the same id, or the same name.
abbrev Unique : List CollectionSchema → Type 0
Unique [] = Unit
Unique (s ∷ ss) = (find_clash s ss ≡ none) × Unique ss

-- The schemas are valid and have different ids and names; the layouts are theirs, in their order.
pub record IsConsistent (r : Registries) : Type 0 where
  pub unique : Unique r.collection_schema_registry
  pub laid_out : r.collection_layout_registry ≡ map layout_of r.collection_schema_registry
  pub valid : All (λ s. is_valid_collection_schema s ≡ true) r.collection_schema_registry

text_eq-sym : (a b : Text) → text_eq a b ≡ text_eq b a
text_eq-sym a b = elim (Bool-cases (text_eq a b)) [
  | inl e ↦ rw (text_eq→eq a b e) refl
  | inr e ↦ elim (Bool-cases (text_eq b a)) [
    | inl e' ↦ rw (text_eq→eq b a e') refl
    | inr e' ↦ e ∙ sym e'
  ]
]

same_name-sym : (a b : Option Text) → same_name a b ≡ same_name b a
unfolding same_name
same_name-sym none none = refl
same_name-sym none (some b) = refl
same_name-sym (some a) none = refl
same_name-sym (some a) (some b) = text_eq-sym a b

clashes-sym : (a b : CollectionSchema) → clashes a b ≡ clashes b a
clashes-sym a b = ground (arith, same_name-sym a.name b.name)

find_clash-append_one :
    (x : CollectionSchema) (ss : List CollectionSchema) (s : CollectionSchema)
    → find_clash x ss ≡ none
    → clashes s x ≡ false
    → find_clash x (ss ++ s ∷ []) ≡ none
unfolding find_clash
find_clash-append_one x [] s h c = rw c refl
find_clash-append_one x (y ∷ ss) s h c = ground (arith, find_clash-append_one x ss s, h, c)

Unique-append_one :
    (ss : List CollectionSchema) (s : CollectionSchema)
    → Unique ss
    → find_clash s ss ≡ none
    → Unique (ss ++ s ∷ [])
unfolding find_clash
Unique-append_one [] s u h = (refl, tt)
Unique-append_one (x ∷ ss) s (h', u) h =
    let rest : find_clash s ss ≡ none = ground (arith, h) in
    (
      find_clash-append_one x ss s h' (ground (arith, h, clashes-sym x s)),
      Unique-append_one ss s u rest,
    )

-- A schema that clashes with none has a layout of its own.
find_layout_by_id-none :
    (ss : List CollectionSchema) (s : CollectionSchema)
    → find_clash s ss ≡ none
    → find_layout_by_id s.collection_id (map layout_of ss) ≡ none
unfolding find_clash find_layout_by_id layout_of
find_layout_by_id-none [] s h = refl
find_layout_by_id-none (x ∷ ss) s h = ground (arith, find_layout_by_id-none ss s)

-- The registries with the schema and its layout.
abbrev pub registered : CollectionSchema → Registries → Registries
registered s r = record r {
  collection_schema_registry = r.collection_schema_registry ++ s ∷ [];
  collection_layout_registry = r.collection_layout_registry ++ layout_of s ∷ [];
}

build-valid :
    (s : CollectionSchema)
    → is_valid_collection_schema s ≡ true
    → apxdb_build_collection_layout true s ≡ some (layout_of s)
unfolding is_valid_collection_schema apxdb_build_collection_layout
build-valid s h = ground (arith, h)

build-none : (s : CollectionSchema) → apxdb_build_collection_layout false s ≡ none
unfolding apxdb_build_collection_layout
build-none s = ground arith

abbrev add_result : Room → CollectionSchema → Registries → Option CollectionSchema × Registries
add_result room s r =
    if room.grow_collection_schema_registry && room.grow_layout_registry && room.layout_allocated
    then (some s, registered s r)
    else (none, r)

abbrev layout_result : Room → CollectionSchema → Registries → Option Layout × Registries
layout_result room s r =
    if room.grow_layout_registry && room.layout_allocated
    then (
      some (layout_of s),
      record r { collection_layout_registry = r.collection_layout_registry ++ layout_of s ∷ [] },
    )
    else (none, r)

register_layout-fresh :
    (room : Room) (s : CollectionSchema) (r : Registries)
    → is_valid_collection_schema s ≡ true
    → find_layout_by_id s.collection_id r.collection_layout_registry ≡ none
    → apxdb_register_layout_for_schema room s r ≡ layout_result room s r
unfolding apxdb_register_layout_for_schema
register_layout-fresh room s r h n = elim (Bool-cases room.layout_allocated) [
  | inl e ↦ rw (n, e, build-valid s h, apxdb_register_layout_for_schema) (ground arith)
  | inr e ↦ rw (n, e, build-none s, apxdb_register_layout_for_schema) (ground arith)
]

add_schema-fresh :
    (room : Room) (s : CollectionSchema) (r : Registries)
    → is_valid_collection_schema s ≡ true
    → find_layout_by_id s.collection_id r.collection_layout_registry ≡ none
    → add_schema room s r ≡ add_result room s r
unfolding add_schema
add_schema-fresh room s r h n =
    let added = record r { collection_schema_registry = r.collection_schema_registry ++ s ∷ [] } in
    rw (register_layout-fresh room s added h n) (ground arith)

map-append_one :
    (ss : List CollectionSchema) (s : CollectionSchema)
    → map layout_of (ss ++ s ∷ []) ≡ map layout_of ss ++ layout_of s ∷ []
map-append_one [] s = refl
map-append_one (x ∷ ss) s = ap (λ ls. layout_of x ∷ ls) (map-append_one ss s)

All-append_one :
    (P : CollectionSchema → Type 0) (ss : List CollectionSchema) (s : CollectionSchema)
    → All P ss
    → P s
    → All P (ss ++ s ∷ [])
All-append_one P [] s a p = (p, tt)
All-append_one P (x ∷ ss) s (q, a) p = (q, All-append_one P ss s a p)

registered-IsConsistent :
    (s : CollectionSchema) (r : Registries)
    → IsConsistent r
    → is_valid_collection_schema s ≡ true
    → find_clash s r.collection_schema_registry ≡ none
    → IsConsistent (registered s r)
registered-IsConsistent s r v h c = record {
  unique = Unique-append_one r.collection_schema_registry s v.unique c;
  laid_out = rw v.laid_out (sym (map-append_one r.collection_schema_registry s));
  valid =
      All-append_one (λ x. is_valid_collection_schema x ≡ true) r.collection_schema_registry s
        v.valid h;
}

-- All branches of `apxdb_register_schema` where the registries are consistent.
abbrev pub register_result :
    Room → CollectionSchema → Registries → Option CollectionSchema × Registries
register_result room s r =
    if is_valid_collection_schema s
    then elim (find_clash s r.collection_schema_registry) [
      | some existing ↦ ((if existing.address == s.address then some existing else none), r)
      | none ↦ add_result room s r
    ]
    else (none, r)

-- On consistent registries, `apxdb_register_schema` refuses a schema that is not valid; of one
-- whose id or name is there already it returns the registered one if it is the same, and changes
-- nothing; any other goes in with its layout, if there is memory for both, or nothing changes.
pub apxdb_register_schema-consistent :
    (room : Room) (s : CollectionSchema) (r : Registries)
    → IsConsistent r
    → apxdb_register_schema room s r ≡ register_result room s r
unfolding apxdb_register_schema
apxdb_register_schema-consistent room s r v = elim (Bool-cases (is_valid_collection_schema s)) [
  | inr e ↦ rw e refl
  | inl e ↦ elim (Option-cases (find_clash s r.collection_schema_registry)) [
    | inr (existing, c) ↦ rw (e, c) refl
    | inl c ↦
        rw (e, c)
          (add_schema-fresh room s r e
            (rw v.laid_out (find_layout_by_id-none r.collection_schema_registry s c)))
  ]
]

pub apxdb_register_schema-IsConsistent :
    (room : Room) (s : CollectionSchema) (r : Registries)
    → IsConsistent r
    → IsConsistent (apxdb_register_schema room s r).1
apxdb_register_schema-IsConsistent room s r v =
    rw (apxdb_register_schema-consistent room s r v)
      (elim (Bool-cases (is_valid_collection_schema s)) [
        | inr e ↦ rw e v
        | inl e ↦ elim (Option-cases (find_clash s r.collection_schema_registry)) [
          | inr (existing, c) ↦ rw (e, c) v
          | inl c ↦
              rw (e, c)
                (added
                  (room.grow_collection_schema_registry && room.grow_layout_registry
                    && room.layout_allocated)
                  (registered-IsConsistent s r v e c))
        ]
      ])
  where
    result : Bool → Option CollectionSchema × Registries
    result b = if b then (some s, registered s r) else (none, r)

    added : (b : Bool) → IsConsistent (registered s r) → IsConsistent (result b).1
    added true w = w
    added false w = v
