-- ===== src/Collection/Loading.antt =====
-- The collection that a call works on is sound, where loading a file keeps it so.
use apx_db.Common.{
  ℕ, suc, ◌≡◌, ap, subst, Bool, true, false, List, [], ◌∷◌, Option, none, some, Text, if◌then◌else◌,
  ltb, length, All, Bool-cases, Option-cases, inl, inr,
}
use apx_db.Schema.{collection_name}
use apx_db.Schema.Registry.{same_name}
use apx_db.Collection.{Collection, change_at}
use apx_db.Collection.Store.{
  Store, Files, FileStat, missing, present, unreadable, find_collection, ensure_collection_loaded,
  loaded_collection, collection_path, set_loaded, load_by_stat, put_back,
}
use apx_db.Collection.Sound.{IsSound, All-change_at}

module _ {D : Type 0} where
  -- Every collection of the store is sound.
  abbrev pub AllSound : Store D → Type 0
  AllSound s = All IsSound s.collections

  -- Loading a collection's file keeps the collection sound.
  abbrev pub LoadsSound : Files D → Type 0
  LoadsSound files =
      (path : Text) (counter : ℕ) (c : Collection D)
      → IsSound c
      → IsSound (files.load_collection_from_file path counter c).1.1

  same_collection : (r r' : ℕ × Collection D) → some r ≡ some r' → r.1 ≡ r'.1
  same_collection r r' e = ap (λ o. elim o [ none ↦ r.1 | some q ↦ q.1 ]) e

  found-IsSound :
      (b : Bool) (r r' : ℕ × Collection D)
      → IsSound r.1
      → (if b then some r else none) ≡ some r'
      → IsSound r'.1
  found-IsSound true r r' v e = subst IsSound (same_collection r r' e) v
  found-IsSound false r r' v e = cc

  pub find_collection-IsSound :
      (cs : List (Collection D)) (name : Option Text) (i : ℕ) (c : Collection D)
      → All IsSound cs
      → find_collection cs name ≡ some (i, c)
      → IsSound c
  unfolding find_collection
  find_collection-IsSound [] name i c a h = cc
  find_collection-IsSound (x ∷ cs) name i c (p, a) h =
      elim (Bool-cases (same_name (collection_name x.collection_schema) name)) [
        | inl e ↦ subst IsSound (same_collection (0, x) (i, c) (rw e at h)) p
        | inr e ↦ elim (Option-cases (find_collection cs name)) [
          | inl g ↦ cc (rw (e, g) at h)
          | inr ((j, c'), g) ↦
              let same : c' ≡ c = same_collection (suc j, c') (i, c) (rw (e, g) at h) in
              subst IsSound same (find_collection-IsSound cs name j c' a g)
        ]
      ]

  set_loaded-IsSound : (c : Collection D) → IsSound c → IsSound (set_loaded c)
  set_loaded-IsSound c v = record { distinct = v.distinct; indexed = v.indexed }

  load_by_stat-IsSound :
      (stat : FileStat) (counter : ℕ) (c : Collection D) (r : Bool × (ℕ × Collection D))
      → IsSound c
      → IsSound r.1.1
      → IsSound (load_by_stat stat counter c r).1.1
  load_by_stat-IsSound missing counter c r v w = set_loaded-IsSound c v
  load_by_stat-IsSound unreadable counter c r v w = v
  load_by_stat-IsSound present counter c (true, (counter', c')) v w = set_loaded-IsSound c' w
  load_by_stat-IsSound present counter c (false, (counter', c')) v w = w

  ensure_collection_loaded-IsSound :
      (files : Files D)
      → LoadsSound files
      → (directory : Option Text) (counter : ℕ) (c : Collection D) → IsSound c
      → IsSound (ensure_collection_loaded files directory counter c).1.1
  unfolding ensure_collection_loaded
  ensure_collection_loaded-IsSound files l directory counter c v =
      by_loaded c.loaded (by_directory directory)
    where
      loaded_from : Text → Bool × (ℕ × Collection D)
      loaded_from d =
          let path = collection_path d c in
          if ltb (length path) 1024
          then load_by_stat (files.stat path) counter c
              (files.load_collection_from_file path counter c)
          else (false, (counter, c))

      by_length :
          (d : Text) (b : Bool)
          → IsSound
              (if b
                then load_by_stat
                    (files.stat (collection_path d c))
                    counter
                    c
                    (files.load_collection_from_file (collection_path d c) counter c)
                else (false, (counter, c))).1.1
      by_length d true =
          load_by_stat-IsSound (files.stat (collection_path d c)) counter c
            (files.load_collection_from_file (collection_path d c) counter c) v
            (l (collection_path d c) counter c v)
      by_length d false = v

      from : Option Text → Bool × (ℕ × Collection D)
      from o = elim o [ none ↦ (true, (counter, set_loaded c)) | some d ↦ loaded_from d ]

      by_directory : (o : Option Text) → IsSound (from o).1.1
      by_directory none = set_loaded-IsSound c v
      by_directory (some d) = by_length d (ltb (length (collection_path d c)) 1024)

      by_loaded :
          (b : Bool)
          → IsSound (from directory).1.1
          → IsSound (if b then (true, (counter, c)) else from directory).1.1
      by_loaded true w = v
      by_loaded false w = w

  pub loaded_collection-AllSound :
      (files : Files D)
      → LoadsSound files
      → (name : Option Text) (s : Store D) → AllSound s
      → AllSound (loaded_collection files name s).1
        × ((i : ℕ) (c : Collection D)
            → (loaded_collection files name s).0 ≡ some (i, c)
            → IsSound c)
  unfolding loaded_collection
  loaded_collection-AllSound files l name s a =
      elim (Option-cases (find_collection s.collections name)) [
        | inl e ↦ rw (e, loaded_collection) (a, λ i c h. cc)
        | inr ((i, c), e) ↦
            let r = ensure_collection_loaded files s.storage_directory s.collection_counter c in
            let v : IsSound c = find_collection-IsSound s.collections name i c a e in
            let w : IsSound r.1.1 =
              ensure_collection_loaded-IsSound files l s.storage_directory s.collection_counter c
                v in
            rw (e, loaded_collection)
              (
                All-change_at IsSound i (put_back r.1.1) s.collections (λ _ _. w) a,
                λ i' c' h. found-IsSound r.0 (i, r.1.1) (i', c') w h,
              )
      ]

  -- A change of the collection that was found keeps every collection sound.
  pub change-AllSound :
      (i : ℕ) (c : Collection D) (cs : List (Collection D))
      → IsSound c
      → All IsSound cs
      → All IsSound (change_at i (put_back c) cs)
  change-AllSound i c cs v a = All-change_at IsSound i (put_back c) cs (λ _ _. v) a
