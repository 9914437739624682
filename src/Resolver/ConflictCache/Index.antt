-- ===== src/Resolver/ConflictCache/Index.antt =====
-- What `insert` of core/resolver/conflict_cache.rs makes found, and the index by package.
use toml.Prelude.{
  Bool, true, ◌&&◌, ◌||◌, ◌≡◌, refl, none, some, List, [], ◌∷◌, ◌++◌, all, all_mono, all-append,
  any, any-append, keep, find, find-holds, find-keep, is_some-find, all-contains, contains-all,
  option_eq, option_eq_iff, Eq, ◌==◌, eq_self, contains, Bool-and, pair_eq, list_eq, contains-find,
  nat_eq, unwrap_or, is_some, arith, Bool-cases, inl, inr, ap, sym, ◌∙◌,
}
use toml.Map
use toml.Map.{Map, get-update_or, contains-keys}
use toml.Set
use toml.Set.{Set, contains-insert}
use toml.Core.PackageId.{PackageId, package_id_eq, id_eq_iff}
use toml.Core.Dependency.{Dependency}
use toml.Core.Dependency.Equality.{dependency_eq, dependency_eq_iff}
use toml.Resolver.Types.{reason_eq}
use toml.Resolver.Context.{Context, is_conflicting, is_active}
use toml.Resolver.ConflictCache.{
  Conflicts, ConflictCache, same_conflicts, past, find_conflicting, conflicting, mention, insert,
}

module _ {S V : Type 0} ⦃es : Eq S⦄ ⦃ev : Eq V⦄ where
  same-active :
      (act : PackageId S V → Bool) (old con : Conflicts S V)
      → all act (Map.keys con) ≡ true
      → all (λ (id, reason). Map.get con id == some reason) old ≡ true
      → all act (Map.keys old) ≡ true
  same-active act [] con active same = refl
  same-active act ((id, reason) ∷ old) con active same =
      let found = (option_eq_iff (Map.get con id) (some reason)).0 (ground arith) in
      ground (
        arith,
        contains-all act (Map.keys con) id active (contains-keys con id ∙ ap is_some found),
        same-active act old con active (ground arith),
      )

module _ {S V : Type 0} ⦃es : Eq S⦄ ⦃ev : Eq V⦄ where
  -- one of the sets is this one
  abbrev pub contains_conflicts : List (Conflicts S V) → Conflicts S V → Bool
  contains_conflicts = contains

module _ {S V R : Type 0} ⦃es : Eq S⦄ ⦃ev : Eq V⦄ ⦃er : Eq R⦄ where
  abbrev mentioned :
      Map (PackageId S V) (Set (Dependency S R)) → PackageId S V → Dependency S R → Bool
  mentioned m p d = contains (unwrap_or (Map.get m p) []) d

  mentioned-mention :
      (dep : Dependency S R) (cs : List (PackageId S V))
      (m : Map (PackageId S V) (Set (Dependency S R))) (p : PackageId S V) (d : Dependency S R)
      → mentioned (mention dep cs m) p d ≡ (mentioned m p d || contains cs p && dep == d)
  unfolding mention
  mentioned-mention dep [] m p d = ground arith
  mentioned-mention dep (c ∷ cs) m p d = ground (
    arith,
    mentioned-mention dep cs (Map.update_or c [] (Set.insert dep) m) p d,
    get-update_or c p [] (Set.insert dep) m,
    contains-insert dep d (unwrap_or (Map.get m c) []),
    ap (Map.get m),
    id_eq_iff c p,
  )

  -- Each package of a conflict leads back to the dependency that it rules out.
  abbrev pub Indexed : ConflictCache S V R → Type 0
  Indexed cache =
      (dep : Dependency S R)
      → all (λ con. all (λ p. mentioned cache.dep_from_pid p dep) (Map.keys con)) (past cache dep)
        ≡ true

  -- `insert` keeps the index by package complete: whichever conflict is known for a dependency, each
  -- package in it leads back to that dependency.
  pub insert-Indexed :
      (cache : ConflictCache S V R) (dep : Dependency S R) (con : Conflicts S V)
      → Indexed cache
      → Indexed (insert cache dep con)
  unfolding insert
  insert-Indexed cache dep con before d =
      elim (Bool-cases (any (λ old. same_conflicts old con) (past cache dep))) [
        | inl old ↦ rw old (before d)
        | inr fresh ↦
            let m' = mention dep (Map.keys con) cache.dep_from_pid in
            let earlier =
              all_mono (λ con. all (λ p. mentioned cache.dep_from_pid p d) (Map.keys con))
                (λ con. all (λ p. mentioned m' p d) (Map.keys con)) (past cache d)
                (λ old.
                  all_mono (λ p. mentioned cache.dep_from_pid p d) (λ p. mentioned m' p d)
                    (Map.keys old)
                    (λ p h.
                      ground
                        (arith, mentioned-mention dep (Map.keys con) cache.dep_from_pid p d, h)))
                (before d) in
            elim (Bool-cases (dep == d)) [
              | inr other ↦
                  rw
                    (
                      fresh,
                      get-update_or dep d [] (λ old. old ++ con ∷ []) cache.con_from_dep,
                      other,
                    )
                    earlier
              | inl same ↦
                  let here : past cache dep ≡ past cache d =
                    ap (past cache) ((dependency_eq_iff dep d).0 same) in
                  let new_one =
                    all-contains (λ p. mentioned m' p d) (Map.keys con)
                      (λ p c. ground (
                        arith,
                        mentioned-mention dep (Map.keys con) cache.dep_from_pid p d,
                        c,
                        same,
                      )) in
                  rw
                    (
                      fresh,
                      get-update_or dep d [] (λ old. old ++ con ∷ []) cache.con_from_dep,
                      same,
                    )
                    (rw here (
                      ground (
                        arith,
                        all-append (λ con. all (λ p. mentioned m' p d) (Map.keys con))
                            (past cache d) (con ∷ []),
                        earlier,
                        new_one,
                      )))
            ]
      ]

  -- What is found is known for the dependency, passes the filter, and all its packages are active.
  pub find_conflicting_sound :
      (cache : ConflictCache S V R) (cx : Context S V R) (dep : Dependency S R)
      (filter : Conflicts S V → Bool) (con : Conflicts S V)
      → find_conflicting cache cx dep filter ≡ some con
      → (contains_conflicts (past cache dep) con ≡ true)
        × (filter con ≡ true)
        × (all (is_active cx) (Map.keys con) ≡ true)
  unfolding find_conflicting is_conflicting
  find_conflicting_sound cache cx dep filter con h =
      let found =
        sym (find-keep (λ c. all (is_active cx) (Map.keys c ++ [])) filter (past cache dep)) ∙ h in
      let both =
        find-holds (λ c. filter c && all (is_active cx) (Map.keys c ++ [])) (past cache dep)
          found in
      (
        contains-find (λ c. filter c && all (is_active cx) (Map.keys c ++ [])) (past cache dep) con
            found,
        ground (arith, both),
        ground (arith, both, all-append (is_active cx) (Map.keys con) []),
      )

  conflicting_in :
      (cx : Context S V R) (p : Conflicts S V → Bool) (xs : List (Conflicts S V))
      → ((c : Conflicts S V) → p c ≡ true → all (is_active cx) (Map.keys c) ≡ true)
      → any p xs ≡ true
      → is_some (find (λ c. is_conflicting cx none c) (keep (λ _. true) xs)) ≡ true
  unfolding is_conflicting
  conflicting_in cx p xs active h =
      rw (find-keep (λ c. all (is_active cx) (Map.keys c ++ [])) (λ _. true) xs) (
        is_some-find p (λ c. all (is_active cx) (Map.keys c ++ [])) xs
          (λ c pc. ground (arith, all-append (is_active cx) (Map.keys c) [], active c pc)) h)

  -- Once a conflict was inserted for a dependency, a conflict is found for it in every context in
  -- which all packages of the inserted one are active.
  pub insert-conflicting :
      (cache : ConflictCache S V R) (dep : Dependency S R) (con : Conflicts S V)
      (cx : Context S V R)
      → all (is_active cx) (Map.keys con) ≡ true
      → is_some (conflicting (insert cache dep con) cx dep) ≡ true
  unfolding insert conflicting find_conflicting is_conflicting
  insert-conflicting cache dep con cx active =
      elim (Bool-cases (any (λ old. same_conflicts old con) (past cache dep))) [
        | inl old ↦ rw old (
            conflicting_in cx (λ old. same_conflicts old con) (past cache dep)
              (λ c same. same-active (is_active cx) c con active (Bool-and same).1) old)
        | inr fresh ↦
            rw
              (
                fresh,
                get-update_or dep dep [] (λ old. old ++ con ∷ []) cache.con_from_dep,
                eq_self dep,
              )
              (conflicting_in cx (λ c. all (is_active cx) (Map.keys c)) (past cache dep ++ con ∷ [])
                (λ c h. h)
                (ground (
                  arith,
                  any-append (λ c. all (is_active cx) (Map.keys c)) (past cache dep) (con ∷ []),
                  active,
                )))
      ]
