-- ===== src/Resolver/Requirements/Progress.antt =====
-- What one step of `build_requirements` in core/resolver/context.rs keeps and adds.
use toml.Prelude.{
  ℕ, ◌<◌, ◌≤◌, Text, Bool, true, false, not, ◌||◌, ◌≡◌, refl, some, List, [], ◌∷◌, ◌++◌, all,
  all_mono, keep, length, length-keep_mono, length-keep_lt, ◌==◌, eq_self, list_eq, list_eq_iff,
  nat_eq, contains, contains-append, arith, Bool-cases, inl, inr, unwrap_or, ap, subst, ◌∙◌,
}
use toml.Map
use toml.Map.{Map, get-update_or, contains-keys}
use toml.Set.{contains-insert}
use toml.Core.Feature.{FeatureValue, feature, krate, krate_feature}
use toml.Core.Summary.{FeatureMap}
use toml.Resolver.Requirements.{
  Requirements, require_crate_feature, require_dependency, see, turn_on,
}
use toml.Resolver.Requirements.Updates.{
  turned_on, satisfied, turned_on-update_or, satisfied-update_or,
}

module _ (features : FeatureMap) where
  -- A feature is there, and no dependency has the name of one.
  abbrev pub usable : FeatureValue → Bool
  usable (feature g) = g == [] || Map.contains_key features g
  usable (krate d) = not (Map.contains_key features d)
  usable (krate_feature d k) = true

  abbrev pub Inv : Requirements → Type 0
  Inv r =
      (d : Text)
      → contains r.visited d ≡ true
      → (contains r.used d ≡ true)
        × (Map.contains_key features d ≡ false → turned_on (Map.get r.deps d) ≡ true)

  -- the names that are visited have their values satisfied at the end
  pub record Progress (r r' : Requirements) : Type 0 where
    pub visits : (g : Text) → contains r.visited g ≡ true → contains r'.visited g ≡ true
    pub turns : (v : FeatureValue) → satisfied r v ≡ true → satisfied r' v ≡ true
    pub closes :
        (g : Text) (vs : List FeatureValue)
        → contains r'.visited g ≡ true
        → contains r.visited g ≡ false
        → Map.get features g ≡ some vs
        → all (satisfied r') vs ≡ true

  -- the state after a step from `r`, of which `Q` holds too
  abbrev pub Done : Requirements → (Requirements → Type 0) → Requirements → Type 0
  Done r Q r' = Inv r' × Progress r r' × Q r'

  pub Progress-refl : (r : Requirements) → Progress r r
  Progress-refl r = record {
    visits = λ g h. h;
    turns = λ v h. h;
    closes = λ g vs h h' there. absurd (ground arith);
  }

  pub Progress-trans : {r r' r'' : Requirements} → Progress r r' → Progress r' r'' → Progress r r''
  Progress-trans {r} {r'} {r''} p q = record {
    visits = λ g h. q.visits g (p.visits g h);
    turns = λ v h. q.turns v (p.turns v h);
    closes = λ g vs h h' there. elim (Bool-cases (contains r'.visited g)) [
      | inl early ↦
          all_mono (satisfied r') (satisfied r'') vs q.turns (p.closes g vs early h' there)
      | inr late ↦ q.closes g vs h late there
    ];
  }

  pub require_crate_feature-Done :
      (r : Requirements) (d k : Text)
      → Inv r
      → Done r (λ r'. satisfied r' (krate_feature d k) ≡ true) (require_crate_feature d k r)
  unfolding require_crate_feature
  require_crate_feature-Done r d k inv = (
    λ g h.
        let (used, on) = inv g h in
        (
          ground (arith, contains-insert d g r.used, used),
          λ no_feature.
              turned_on-update_or d g (λ (on, fs). (on, fs ++ k ∷ [])) r.deps (λ on fs h. h)
                (on no_feature),
        ),
    record {
      visits = λ g h. h;
      turns =
          satisfied-update_or r (require_crate_feature d k r) d (λ (on, fs). (on, fs ++ k ∷ []))
            (λ on fs h. h) (λ on fs j h. ground (arith, contains-append fs (k ∷ []) j, h))
            (λ g h. h) refl;
      closes = λ g vs h h' there. absurd (ground arith);
    },
    rw (get-update_or d d (false, []) (λ (on, fs). (on, fs ++ k ∷ [])) r.deps, eq_self d)
        (ground (
          arith,
          contains-append (unwrap_or (Map.get r.deps d) (false, [])).1 (k ∷ []) k,
          eq_self k,
        )),
  )

  pub require_dependency-Done :
      (r : Requirements) (d : Text)
      → Inv r
      → Map.contains_key features d ≡ false
      → Done r (λ r'. satisfied r' (krate d) ≡ true) (require_dependency d r)
  unfolding require_dependency
  require_dependency-Done r d inv no_feature = elim (Bool-cases (contains r.visited d)) [
    | inl old ↦ rw old (inv, Progress-refl r, (inv d old).1 no_feature)
    | inr new ↦ rw new (
      λ g h. elim (Bool-cases (d == g)) [
        | inl same ↦ (
          ground (arith, contains-insert d g r.used, same),
          λ _.
              subst (λ t. turned_on (Map.get (turn_on d (see d r)).deps t) ≡ true)
                ((list_eq_iff d g).0 same) on,
        )
        | inr other ↦
            let (used, turned) = inv g (rw other at h) in
            (
              ground (arith, contains-insert d g r.used, used),
              λ no_feature.
                  turned_on-update_or d g (λ (on, fs). (true, fs)) r.deps (λ on fs h. refl)
                    (turned no_feature),
            )
      ],
      record {
        visits = λ g h. ground (arith, h);
        turns =
            satisfied-update_or r (turn_on d (see d r)) d (λ (on, fs). (true, fs)) (λ on fs h. refl)
              (λ on fs k h. h) (λ g h. ground (arith, h)) refl;
        closes = λ g vs h h' there. ground (arith, closed_lem g vs h h' there);
      },
      on,
    )
  ]
    where
      on : turned_on (Map.get (turn_on d (see d r)).deps d) ≡ true
      on = rw (get-update_or d d (false, []) (λ (on, fs). (true, fs)) r.deps, eq_self d) refl

      closed_lem :
          (g : Text) (vs : List FeatureValue)
          → (d == g || contains r.visited g) ≡ true
          → contains r.visited g ≡ false
          → Map.get features g ≡ some vs
          → false ≡ true
      closed_lem g vs h h' there = ground (arith, ap (Map.get features), list_eq_iff d g)

  -- A feature is entered: it is seen, and nothing else has changed.
  pub see-Inv :
      (r : Requirements) (f : Text) → Inv r → Map.contains_key features f ≡ true → Inv (see f r)
  see-Inv r f inv key g h = elim (Bool-cases (f == g)) [
    | inl same ↦ (
      ground (arith, contains-insert f g r.used, same),
      λ no_feature.
          absurd (ground (arith, ap (Map.contains_key features) ((list_eq_iff f g).0 same))),
    )
    | inr other ↦
        let (used, turned) = inv g (rw other at h) in
        (ground (arith, contains-insert f g r.used, used), turned)
  ]

  pub satisfied-see :
      (r : Requirements) (f : Text) (v : FeatureValue)
      → satisfied r v ≡ true
      → satisfied (see f r) v ≡ true
  satisfied-see r f (feature g) h = ground (arith, h)
  satisfied-see r f (krate n) h = h
  satisfied-see r f (krate_feature n k) h = h

  -- how many features have not been entered
  abbrev pub unvisited : Requirements → ℕ
  unvisited r = length (keep (λ g. not (contains r.visited g)) (Map.keys features))

  pub unvisited-Progress : {r r' : Requirements} → Progress r r' → unvisited r' ≤ unvisited r
  unvisited-Progress {r} {r'} p =
      length-keep_mono (λ g. not (contains r.visited g)) (λ g. not (contains r'.visited g))
        (Map.keys features) (λ g h. ground (arith, p.visits g))

  pub unvisited-see :
      (r : Requirements) (f : Text)
      → Map.contains_key features f ≡ true
      → contains r.visited f ≡ false
      → unvisited (see f r) < unvisited r
  unvisited-see r f key new =
      length-keep_lt (λ g. not (contains r.visited g)) (λ g. not (f == g || contains r.visited g))
        (Map.keys features) f (λ g h. ground arith) (contains-keys features f ∙ key)
        (ground (arith, new)) (ground (arith, eq_self f))

  -- A feature that is entered and has its values satisfied.
  pub enter-Progress :
      (r r' : Requirements) (f : Text) (vs : List FeatureValue)
      → Map.get features f ≡ some vs
      → Progress (see f r) r'
      → all (satisfied r') vs ≡ true
      → Progress r r'
  enter-Progress r r' f vs there p sat = record {
    visits = λ g h. p.visits g (ground (arith, h));
    turns = λ v h. p.turns v (satisfied-see r f v h);
    closes = λ g ws h h' there'. elim (Bool-cases (f == g)) [
      | inl same ↦
          let vs_ws : vs ≡ ws =
            ground (arith, there, there', ap (Map.get features) ((list_eq_iff f g).0 same)) in
          subst (λ t. all (satisfied r') t ≡ true) vs_ws sat
      | inr other ↦ p.closes g ws h (ground (arith, other, h')) there'
    ];
  }
