-- ===== src/Resolver/Cycles/Sound.antt =====
-- `check_cycles` of core/resolver/mod.rs returns, and what it reports is a cycle.
use toml.Prelude.{
  ℕ, zero, suc, ◌≤◌, ◌<◌, Bool, true, false, not, Option, none, some, List, [], ◌∷◌, length, keep,
  length-keep, length-keep_lt, length-keep_mono, any, any-sort_by, Eq, ◌==◌, eq_self, contains,
  Result, ok, err, ◌>>=◌, Bool-cases, sort_by, ◌≡◌, refl, sym, ◌∙◌, arith, inl, inr, ◌⊎◌,
}
use toml.Map
use toml.Map.{Map, contains-keys}
use toml.Set
use toml.Set.{Set, contains-insert, contains-remove}
use toml.Graph.{iter}
use toml.Core.PackageId.{PackageId, package_id_eq}
use toml.Core.Semver.{Semver}
use toml.Core.Summary.{Summary}
use toml.Resolver.Cycles.{
  Resolve, CycleError, cyclic, Marks, collect_all, deps_not_replaced, replacement, transitive_to,
  visit_replacement, visit_each, visit_known, visit, visit_all, check_cycles,
}

module _ {S V R : Type 0} ⦃es : Eq S⦄ ⦃ev : Eq V⦄ (m : Semver V R) (resolve : Resolve S V R)
    (summaries : Map (PackageId S V) (Summary S V R)) where
  -- `y` is a dependency `d` or its replacement
  abbrev Target : PackageId S V → PackageId S V → Type 0
  Target d y = (y ≡ d) ⊎ (replacement resolve d ≡ some y)

  -- `x` needs `y` by a dependency that is not a development dependency
  pub data Link (x y : PackageId S V) : Type 0 where
    needs :
        (s : Summary S V R) (d : PackageId S V)
        → Map.get summaries x ≡ some s
        → contains (deps_not_replaced resolve x) d ≡ true
        → transitive_to m resolve summaries s d ≡ true
        → Target d y
        → Link x y

  -- one link or more
  pub data Leads (x : PackageId S V) : PackageId S V → Type 0 where
    one : {y : PackageId S V} → Link x y → Leads x y
    more : {y z : PackageId S V} → Leads x y → Link y z → Leads x z

  -- every package has a summary
  pub record Complete : Type 0 where
    pub nodes :
        (x : PackageId S V)
        → contains (iter resolve.graph) x ≡ true
        → Map.contains_key summaries x ≡ true
    pub deps :
        (x d : PackageId S V)
        → contains (deps_not_replaced resolve x) d ≡ true
        → Map.contains_key summaries d ≡ true
    pub replacements :
        (d r : PackageId S V) → replacement resolve d ≡ some r → Map.contains_key summaries r ≡ true

  abbrev Within : Set (PackageId S V) → Set (PackageId S V) → Type 0
  Within a b = (x : PackageId S V) → contains a x ≡ true → contains b x ≡ true

  abbrev Above : Set (PackageId S V) → PackageId S V → Type 0
  Above visited id = (x : PackageId S V) → contains visited x ≡ true → Leads x id

  -- what a visit gives
  data Visited (visited checked : Set (PackageId S V))
      : Result (CycleError S V) (Marks S V) → Type 0 where
    left :
        {v c : Set (PackageId S V)}
        → Within v visited
        → Within checked c
        → Visited visited checked (ok (v, c))
    found :
        {id : PackageId S V} {p : Option (List (PackageId S V))}
        → Leads id id
        → Visited visited checked (err (cyclic id p))

  Visited-bind :
      {visited checked visited' checked' : Set (PackageId S V)}
      {r : Result (CycleError S V) (Marks S V)}
      (next : Marks S V → Result (CycleError S V) (Marks S V))
      → Visited visited checked r
      → ((v c : Set (PackageId S V))
          → Within v visited
          → Within checked c
          → Visited visited' checked' (next (v, c)))
      → Visited visited' checked' (r >>= next)
  Visited-bind next (left {v} {c} a b) goes_on = goes_on v c a b
  Visited-bind next (found cycle) goes_on = found cycle

  Visited-weaken :
      {visited checked v c : Set (PackageId S V)} {r : Result (CycleError S V) (Marks S V)}
      → Within v visited
      → Within checked c
      → Visited v c r
      → Visited visited checked r
  Visited-weaken a b (left a' b') = left (λ x h. a x (a' x h)) (λ x h. b' x (b x h))
  Visited-weaken a b (found cycle) = found cycle

  -- how many packages are not checked yet
  abbrev unchecked : Set (PackageId S V) → ℕ
  unchecked checked = length (keep (λ k. not (contains checked k)) (Map.keys summaries))

  unchecked-Within : (a b : Set (PackageId S V)) → Within a b → unchecked b ≤ unchecked a
  unchecked-Within a b w =
      length-keep_mono (λ k. not (contains a k)) (λ k. not (contains b k)) (Map.keys summaries)
        (λ k h. ground (arith, h, w k))

  unchecked-insert :
      (id : PackageId S V) (checked : Set (PackageId S V))
      → contains checked id ≡ false
      → Map.contains_key summaries id ≡ true
      → unchecked (Set.insert id checked) < unchecked checked
  unchecked-insert id checked fresh there =
      length-keep_lt (λ k. not (contains checked k)) (λ k. not (contains (Set.insert id checked) k))
        (Map.keys summaries) id (λ k h. ground (arith, h, contains-insert id k checked))
        (ground (arith, there, contains-keys summaries id)) (ground (arith, fresh))
        (ground (arith, contains-insert id id checked, eq_self id))

  -- what `visit` promises with this fuel
  abbrev Visits :
      (PackageId S V
        → Set (PackageId S V)
        → Set (PackageId S V)
        → Result (CycleError S V) (Marks S V))
      → ℕ
      → Type 0
  Visits go fuel =
      (id : PackageId S V) (visited checked : Set (PackageId S V))
      → unchecked checked < fuel
      → Map.contains_key summaries id ≡ true
      → Above visited id
      → Visited visited checked (go id visited checked)

  module _ (whole : Complete)
      (go : PackageId S V
        → Set (PackageId S V)
        → Set (PackageId S V)
        → Result (CycleError S V) (Marks S V))
      (fuel : ℕ) (visits : Visits go fuel) where
    visit_replacement-Visited :
        (d : PackageId S V) (o : Option (PackageId S V)) (visited checked : Set (PackageId S V))
        → replacement resolve d ≡ o
        → unchecked checked < fuel
        → ((y : PackageId S V) → Target d y → Above visited y)
        → Visited visited checked (visit_replacement go o (visited, checked))
    visit_replacement-Visited d none visited checked same enough above = left (λ x h. h) (λ x h. h)
    visit_replacement-Visited d (some r) visited checked same enough above =
        visits r visited checked enough (whole.replacements d r same) (above r (inr same))

    -- a dependency and then its replacement
    visit_both-Visited :
        (d : PackageId S V) (visited checked : Set (PackageId S V))
        → Map.contains_key summaries d ≡ true
        → unchecked checked < fuel
        → ((y : PackageId S V) → Target d y → Above visited y)
        → Visited visited checked
            (go d visited checked >>= visit_replacement go (replacement resolve d))
    visit_both-Visited d visited checked there enough above =
        Visited-bind (visit_replacement go (replacement resolve d))
          (visits d visited checked enough there (above d (inl refl)))
          (λ v c a b. Visited-weaken a b (
            visit_replacement-Visited d (replacement resolve d) v c refl
              (omega (arith, enough, unchecked-Within checked c b))
              (λ y aim x h. above y aim x (a x h))))

    reach :
        (x : PackageId S V) (s : Summary S V R) (d : PackageId S V)
        → Map.get summaries x ≡ some s
        → contains (deps_not_replaced resolve x) d ≡ true
        → transitive_to m resolve summaries s d ≡ true
        → (t : PackageId S V) → Target d t
        → (y : PackageId S V) → (y ≡ x) ⊎ Leads y x
        → Leads y t
    reach x s d same here on t aim y (inl equal) = rw equal (one (needs s d same here on aim))
    reach x s d same here on t aim y (inr leads) = more leads (needs s d same here on aim)

    visit_each-Visited :
        (x : PackageId S V) (s : Summary S V R) (deps : List (PackageId S V))
        (visited checked : Set (PackageId S V))
        → Map.get summaries x ≡ some s
        → Within deps (deps_not_replaced resolve x)
        → unchecked checked < fuel
        → ((y : PackageId S V) → contains visited y ≡ true → (y ≡ x) ⊎ Leads y x)
        → Visited visited checked (visit_each m resolve summaries go s deps visited checked)
    unfolding visit_each
    visit_each-Visited x s [] visited checked same inside enough over = left (λ y h. h) (λ y h. h)
    visit_each-Visited x s (d ∷ deps) visited checked same inside enough over =
        let rest : Within deps (deps_not_replaced resolve x) =
          λ y h. inside y (ground (arith, h)) in
        let here : contains (deps_not_replaced resolve x) d ≡ true =
          inside d (ground (arith, eq_self d)) in
        elim (Bool-cases (transitive_to m resolve summaries s d)) [
          | inl on ↦ rw on (
              Visited-bind _
                (visit_both-Visited d visited checked (whole.deps x d here) enough
                  (λ t aim y h. reach x s d same here on t aim y (over y h)))
                (λ v c a b. Visited-weaken a b (
                  visit_each-Visited x s deps v c same rest
                    (omega (arith, enough, unchecked-Within checked c b)) (λ y h. over y (a y h)))))
          | inr off ↦ rw off (
              Visited-bind _
                (visit_both-Visited d [] checked (whole.deps x d here) enough
                  (λ t aim y h. absurd (ground (arith, h))))
                (λ v c a b.
                  Visited-weaken (λ y h. h) b
                    (visit_each-Visited x s deps visited c same rest
                      (omega (arith, enough, unchecked-Within checked c b)) over)))
        ]

    visit_known-Visited :
        (id : PackageId S V) (o : Option (Summary S V R)) (visited checked : Set (PackageId S V))
        → Map.get summaries id ≡ o
        → Map.contains_key summaries id ≡ true
        → unchecked (Set.insert id checked) < fuel
        → Above visited id
        → Visited visited checked (
            visit_known m resolve summaries go id o (Set.insert id visited) (Set.insert id checked))
    visit_known-Visited id none visited checked same there enough above =
        absurd (ground (arith, rw same at there))
    visit_known-Visited id (some s) visited checked same there enough above =
        Visited-bind _
          (visit_each-Visited id s (deps_not_replaced resolve id) (Set.insert id visited)
            (Set.insert id checked) same (λ y h. h) enough
            (λ y h. elim (Bool-cases (id == y)) [
              | inl equal ↦ inl (sym ((package_id_eq.eq_iff id y).0 equal))
              | inr other ↦ inr (above y (ground (arith, h, other, contains-insert id y visited)))
            ]))
          (λ v c a b.
            left
              (λ y h. ground (arith, h, a y, contains-remove id y v, contains-insert id y visited))
              (λ y h. b y (ground (arith, h, contains-insert id y checked))))

  visit-Visits : Complete → (fuel : ℕ) → Visits (visit m resolve summaries fuel) fuel
  unfolding visit
  visit-Visits whole zero id visited checked enough there above = absurd (omega (arith, enough))
  visit-Visits whole (suc fuel) id visited checked enough there above =
      elim (Bool-cases (contains visited id)) [
        | inl again ↦ rw again (found (above id again))
        | inr new ↦ elim (Bool-cases (contains checked id)) [
          | inl old ↦
              rw (new, old)
                (left
                  (λ x h. ground (
                    arith,
                    h,
                    contains-remove id x (Set.insert id visited),
                    contains-insert id x visited,
                  ))
                  (λ x h. h))
          | inr fresh ↦
              rw (new, fresh)
                (visit_known-Visited whole (visit m resolve summaries fuel) fuel
                  (visit-Visits whole fuel) id (Map.get summaries id) visited checked refl there
                  (omega (arith, enough, unchecked-insert id checked fresh there)) above)
        ]
      ]

  -- The check ends, well or with a package that leads to itself.
  pub data Verdict : Result (CycleError S V) (Set (PackageId S V)) → Type 0 where
    passed : {c : Set (PackageId S V)} → Verdict (ok c)
    cycle :
        {id : PackageId S V} {p : Option (List (PackageId S V))}
        → Leads id id
        → Verdict (err (cyclic id p))

  Verdict-bind :
      {visited checked : Set (PackageId S V)} {r : Result (CycleError S V) (Marks S V)}
      (next : Marks S V → Result (CycleError S V) (Set (PackageId S V)))
      → Visited visited checked r
      → ((v c : Set (PackageId S V)) → Within checked c → Verdict (next (v, c)))
      → Verdict (r >>= next)
  Verdict-bind next (left {v} {c} a b) goes_on = goes_on v c b
  Verdict-bind next (found leads) goes_on = cycle leads

  visit_all-Verdict :
      (fuel : ℕ) (pkgs : List (PackageId S V)) (checked : Set (PackageId S V))
      → Complete
      → ((x : PackageId S V) → contains pkgs x ≡ true → Map.contains_key summaries x ≡ true)
      → unchecked checked < fuel
      → Verdict (visit_all m resolve summaries fuel pkgs checked)
  unfolding visit_all
  visit_all-Verdict fuel [] checked whole there enough = passed
  visit_all-Verdict fuel (pkg ∷ pkgs) checked whole there enough =
      let rest : (x : PackageId S V)
          → contains pkgs x ≡ true
          → Map.contains_key summaries x ≡ true =
        λ x h. there x (ground (arith, h)) in
      elim (Bool-cases (contains checked pkg)) [
        | inl old ↦ rw old (visit_all-Verdict fuel pkgs checked whole rest enough)
        | inr fresh ↦ rw fresh (
            Verdict-bind _
              (visit-Visits whole fuel pkg [] checked enough
                (there pkg (ground (arith, eq_self pkg))) (λ x h. absurd (ground (arith, h))))
              (λ v c b.
                visit_all-Verdict fuel pkgs c whole rest
                  (omega (arith, enough, unchecked-Within checked c b))))
      ]

contains-any : {K : Type 0} ⦃e : Eq K⦄ (xs : List K) (x : K) → contains xs x ≡ any (λ y. y == x) xs
contains-any [] x = refl
contains-any (y ∷ ys) x = ground (arith, contains-any ys x)

-- `check_cycles` returns: it ends, and no lookup of a summary fails, if every package of the graph,
-- every replacement among them, has one. What it reports is a cycle: the package leads to itself by
-- links, each of which is a dependency other than a development dependency or the replacement of
-- one.
pub check_cycles-Verdict :
    {S V R K : Type 0} ⦃es : Eq S⦄ ⦃ev : Eq V⦄ (m : Semver V R)
    (le : PackageId S V → PackageId S V → Bool) (resolve : Resolve S V R)
    (activations : Map K (List (Summary S V R)))
    → Complete m resolve (collect_all activations [])
    → Verdict m resolve (collect_all activations []) (check_cycles m le resolve activations)
unfolding check_cycles
check_cycles-Verdict m le resolve activations whole =
    let summaries = collect_all activations [] in
    visit_all-Verdict m resolve summaries (suc (length (Map.keys summaries)))
      (sort_by le (iter resolve.graph)) [] whole
      (λ x h. whole.nodes x (
        contains-any (iter resolve.graph) x
        ∙ sym (any-sort_by le (λ y. y == x) (iter resolve.graph))
        ∙ sym (contains-any (sort_by le (iter resolve.graph)) x)
        ∙ h))
      (omega (arith, length-keep (λ k. true) (Map.keys summaries)))
