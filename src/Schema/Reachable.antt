-- ===== src/Schema/Reachable.antt =====
-- The registries after any sequence of calls, and what a lookup then gives.
use apx_db.Common.{
  ℕ, Bool, true, false, ◌≡◌, refl, sym, ◌∙◌, subst, List, [], ◌∷◌, ◌++◌, map, Option, none, some,
  ◌==◌, arith, Bool-cases, Option-cases, inl, inr, if◌then◌else◌, ◌&&◌,
}
use apx_db.Schema.{Schema}
use apx_db.Schema.Layout.{CollectionSchema, is_valid_collection_schema, layout_of}
use apx_db.Schema.Registry.{
  Registries, Room, find_layout_by_id, find_by_id, clashes, find_clash, apxdb_register_schema,
  apxdb_unregister_all_schemas, apxdb_unregister_all_layouts, apxdb_schema_register,
  apxdb_schema_unregister_all, apxdb_find_collection_schema_by_id,
  apxdb_find_collection_layout_by_id,
}
use apx_db.Schema.Registered.{
  IsConsistent, registered, register_result, apxdb_register_schema-consistent,
  apxdb_register_schema-IsConsistent,
}

-- A call that changes the registries.
pub data RegistryStep (r : Registries) : Registries → Type 0 where
  register_schema :
      (room : Room) (s : CollectionSchema) → RegistryStep r (apxdb_register_schema room s r).1
  schema_register : (room : Room) (s : Schema) → RegistryStep r (apxdb_schema_register room s r).1
  unregister_schemas : RegistryStep r (apxdb_unregister_all_schemas r)
  schema_unregister : RegistryStep r (apxdb_schema_unregister_all r)

pub data Registering (s : Registries) : Registries → Type 0 where
  here : Registering s s
  then_call : {t u : Registries} → Registering s t → RegistryStep t u → Registering s u

abbrev pub no_schemas : Registries
no_schemas = record {
  schema_registry = [];
  collection_schema_registry = [];
  collection_layout_registry = [];
}

schema_register-keeps :
    (room : Room) (s : Schema) (r : Registries)
    → ((apxdb_schema_register room s r).1.collection_schema_registry ≡ r.collection_schema_registry)
      × ((apxdb_schema_register room s r).1.collection_layout_registry
          ≡ r.collection_layout_registry)
unfolding apxdb_schema_register
schema_register-keeps room s r = ground arith

schema_register-IsConsistent :
    (room : Room) (s : Schema) (r : Registries)
    → IsConsistent r
    → IsConsistent (apxdb_schema_register room s r).1
schema_register-IsConsistent room s r v =
    let (same_schemas, same_layouts) = schema_register-keeps room s r in
    record {
      unique = rw same_schemas v.unique;
      laid_out = rw (same_layouts, same_schemas) v.laid_out;
      valid = rw same_schemas v.valid;
    }

RegistryStep-IsConsistent :
    {r r' : Registries} → RegistryStep r r' → IsConsistent r → IsConsistent r'
unfolding apxdb_unregister_all_schemas apxdb_schema_unregister_all apxdb_unregister_all_layouts
RegistryStep-IsConsistent {r} (register_schema room s) v =
    apxdb_register_schema-IsConsistent room s r v
RegistryStep-IsConsistent {r} (schema_register room s) v = schema_register-IsConsistent room s r v
RegistryStep-IsConsistent {r} unregister_schemas v = record {
  unique = tt;
  laid_out = refl;
  valid = tt;
}
RegistryStep-IsConsistent {r} schema_unregister v = record {
  unique = v.unique;
  laid_out = v.laid_out;
  valid = v.valid;
}

-- Whatever calls were made since the start, the schemas of the fixed layouts are valid and have
-- different ids and names, and the layouts are theirs, in their order.
pub Registering-IsConsistent : {r : Registries} → Registering no_schemas r → IsConsistent r
Registering-IsConsistent here = record { unique = tt; laid_out = refl; valid = tt }
Registering-IsConsistent (then_call calls s) =
    RegistryStep-IsConsistent s (Registering-IsConsistent calls)

find_by_id-clash :
    (ss : List CollectionSchema) (s : CollectionSchema)
    → find_clash s ss ≡ some s
    → find_by_id s.collection_id ss ≡ some s
unfolding find_clash find_by_id
find_by_id-clash [] s h = ground arith
find_by_id-clash (x ∷ ss) s h = elim (Bool-cases (clashes x s)) [
  | inl c ↦ found (subst (λ b. (if b then some x else find_clash s ss) ≡ some s) c h)
  | inr c ↦ ground (
    arith,
    c,
    find_by_id-clash ss s (subst (λ b. (if b then some x else find_clash s ss) ≡ some s) c h),
  )
]
  where
    found :
        some x ≡ some s
        → (if x.collection_id == s.collection_id then some x else find_by_id s.collection_id ss)
          ≡ some s
    found e = ground (arith, e)

find_by_id-fresh :
    (ss : List CollectionSchema) (s : CollectionSchema)
    → find_clash s ss ≡ none
    → find_by_id s.collection_id (ss ++ s ∷ []) ≡ some s
unfolding find_clash find_by_id
find_by_id-fresh [] s h = ground arith
find_by_id-fresh (x ∷ ss) s h = ground (arith, find_by_id-fresh ss s)

find_layout-map :
    (ss : List CollectionSchema) (id : ℕ) (s : CollectionSchema)
    → find_by_id id ss ≡ some s
    → find_layout_by_id id (map layout_of ss) ≡ some (layout_of s)
unfolding find_by_id find_layout_by_id layout_of
find_layout-map [] id s h = ground arith
find_layout-map (x ∷ ss) id s h = ground (arith, find_layout-map ss id s)

-- What a call returned is found by its id.
abbrev IsFound : CollectionSchema → Option CollectionSchema × Registries → Type 0
IsFound s (result, r) =
    result ≡ some s → find_by_id s.collection_id r.collection_schema_registry ≡ some s

register_result-IsFound :
    (room : Room) (s : CollectionSchema) (r : Registries) → IsFound s (register_result room s r)
register_result-IsFound room s r = elim (Bool-cases (is_valid_collection_schema s)) [
  | inr e ↦ rw e (λ h. ground (arith, h))
  | inl e ↦ elim (Option-cases (find_clash s r.collection_schema_registry)) [
    | inr (existing, c) ↦ rw (e, c) (kept existing c)
    | inl c ↦
        rw (e, c)
          (added
            (room.grow_collection_schema_registry && room.grow_layout_registry
              && room.layout_allocated)
            c)
  ]
]
  where
    kept :
        (existing : CollectionSchema)
        → find_clash s r.collection_schema_registry ≡ some existing
        → (if existing.address == s.address then some existing else none) ≡ some s
        → find_by_id s.collection_id r.collection_schema_registry ≡ some s
    kept existing c h = find_by_id-clash r.collection_schema_registry s (c ∙ same)
      where
        same : some existing ≡ some s
        same = ground (arith, h)

    added :
        (b : Bool)
        → find_clash s r.collection_schema_registry ≡ none
        → IsFound s (if b then (some s, registered s r) else (none, r))
    added true c = λ h. find_by_id-fresh r.collection_schema_registry s c
    added false c = λ h. ground (arith, h)

-- A schema that `apxdb_register_schema` returns as given, on registries that are consistent, is
-- then found by its id, and its layout too.
pub apxdb_register_schema-found :
    (room : Room) (s : CollectionSchema) (r : Registries)
    → IsConsistent r
    → (apxdb_register_schema room s r).0 ≡ some s
    → (apxdb_find_collection_schema_by_id s.collection_id (apxdb_register_schema room s r).1
        ≡ some s)
      × (apxdb_find_collection_layout_by_id s.collection_id (apxdb_register_schema room s r).1
          ≡ some (layout_of s))
unfolding apxdb_find_collection_schema_by_id apxdb_find_collection_layout_by_id
apxdb_register_schema-found room s r v h =
    let after = (apxdb_register_schema room s r).1 in
    let w : IsConsistent after = apxdb_register_schema-IsConsistent room s r v in
    let found : find_by_id s.collection_id after.collection_schema_registry ≡ some s =
      subst (IsFound s) (sym (apxdb_register_schema-consistent room s r v))
        (register_result-IsFound room s r) h in
    (
      found,
      rw w.laid_out (find_layout-map after.collection_schema_registry s.collection_id s found),
    )
