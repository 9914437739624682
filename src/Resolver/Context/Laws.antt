-- ===== src/Resolver/Context/Laws.antt =====
-- What the operations of `Context` in core/resolver/context.rs do to what is active.
use toml.Prelude.{
  Text, Bool, true, false, ◌||◌, ◌≡◌, refl, Option, none, some, List, [], ◌∷◌, ◌++◌, all, any,
  all-append, all_mono, any-append, Eq, ◌==◌, eq_self, list_eq, list_eq_iff, nat_eq, pair_eq,
  pair_eq_iff, option_eq, unwrap_or, ok, arith, Bool-cases, inl, inr, ◌⊎◌, ap, sym, subst,
  bind-eq-ok, ok-injective,
}
use toml.Map
use toml.Map.{Map, get-update_or, get-insert, contains-keys}
use toml.Core.PackageId.{PackageId, package_id_eq, id_eq_iff}
use toml.Core.Summary.{Summary}
use toml.Resolver.Types.{Method}
use toml.Resolver.Context.{Context, flag_activated, is_active, slot, activated, claim_links, enter}

module _ {S V : Type 0} ⦃es : Eq S⦄ ⦃ev : Eq V⦄ where
  -- the package, whose `links` may be given, holds that value
  abbrev pub held_by : Map Text (PackageId S V) → Option Text → PackageId S V → Bool
  held_by links none id = true
  held_by links (some l) id = Map.get links l == some id

  held_by-insert :
      (links : Map Text (PackageId S V)) (l : Text) (id : PackageId S V) (o : Option Text)
      (x : PackageId S V)
      → Map.contains_key links l ≡ false
      → held_by links o x ≡ true
      → held_by (Map.insert l id links) o x ≡ true
  held_by-insert links l id none x free before = refl
  held_by-insert links l id (some k) x free before = elim (Bool-cases (l == k)) [
    | inl same ↦
        let missing : Map.contains_key links k ≡ false =
          subst (λ t. Map.contains_key links t ≡ false) ((list_eq_iff l k).0 same) free in
        absurd (ground (arith, missing, before))
    | inr other ↦ rw (get-insert l k id links, other) before
  ]

  held_by-claim :
      (id : PackageId S V) (l : Option Text) (links links' : Map Text (PackageId S V))
      → claim_links id l links ≡ ok links'
      → (held_by links' l id ≡ true)
        × ((o : Option Text) (x : PackageId S V)
            → held_by links o x ≡ true
            → held_by links' o x ≡ true)
  held_by-claim id none links links' h =
      (refl, λ o x before. subst (λ t. held_by t o x ≡ true) (ok-injective h) before)
  held_by-claim id (some l) links links' h = elim (Bool-cases (Map.contains_key links l)) [
    | inl taken ↦ absurd (ground (arith, taken, h))
    | inr free ↦
        let same : Map.insert l id links ≡ links' = ok-injective (rw free at h) in
        (
          rw (sym same, get-insert l l id links, eq_self l) (eq_self id),
          λ o x before. rw (sym same) (held_by-insert links l id o x free before),
        )
  ]

module _ {S V R : Type 0} ⦃es : Eq S⦄ ⦃ev : Eq V⦄ where
  -- A summary that was there leaves the context alone, and one that was not enters it.
  pub flag_activated-cases :
      (ctx : Context S V R) (s : Summary S V R) (method : Method) (ctx' : Context S V R)
      (seen : Bool)
      → flag_activated ctx s method ≡ ok (ctx', seen)
      → ((activated ctx s ≡ true) × (ctx ≡ ctx'))
        ⊎ ((activated ctx s ≡ false)
            × (links : Map Text (PackageId S V)) × (claim_links s.package_id s.links ctx.links_of
                ≡ ok links)
            × (enter ctx s links ≡ ctx'))
  unfolding flag_activated
  flag_activated-cases ctx s method ctx' seen h = elim (Bool-cases (activated ctx s)) [
    | inl old ↦ inl (old, ap (λ (c, _). c) (ok-injective (rw old at h)))
    | inr fresh ↦
        let (links, claimed, last) =
          bind-eq-ok (claim_links s.package_id s.links ctx.links_of)
            (λ links. ok (enter ctx s links, false)) (rw fresh at h) in
        inr (fresh, links, claimed, ap (λ (c, _). c) (ok-injective last))
  ]

  any_snoc :
      (p : Summary S V R → Bool) (xs : List (Summary S V R)) (x : Summary S V R)
      → any p (xs ++ x ∷ []) ≡ (any p xs || p x)
  any_snoc p xs x = ground (arith, any-append p xs (x ∷ []))

  pub is_active-enter :
      (ctx : Context S V R) (s : Summary S V R) (links : Map Text (PackageId S V))
      (id : PackageId S V)
      → is_active (enter ctx s links) id ≡ (is_active ctx id || s.package_id == id)
  unfolding is_active
  is_active-enter ctx s links id = elim (Bool-cases (slot s.package_id == slot id)) [
    | inl same ↦
        let slots = (pair_eq_iff (slot s.package_id) (slot id)).0 same in
        let at_slot : Map.get ctx.activations (slot s.package_id)
            ≡ Map.get ctx.activations (slot id) =
          ap (Map.get ctx.activations) slots in
        rw
          (
            get-update_or (slot s.package_id) (slot id) [] (λ prev. prev ++ s ∷ []) ctx.activations,
            same,
            at_slot,
          )
          (any_snoc (λ x. x.package_id == id) (unwrap_or (Map.get ctx.activations (slot id)) []) s)
    | inr other ↦
        rw
          (
            get-update_or (slot s.package_id) (slot id) [] (λ prev. prev ++ s ∷ []) ctx.activations,
            other,
          )
          (ground (arith, other))
  ]

  pub is_active-again :
      (ctx : Context S V R) (s : Summary S V R)
      → activated ctx s ≡ true
      → (id : PackageId S V) → is_active ctx id ≡ (is_active ctx id || s.package_id == id)
  unfolding is_active
  is_active-again ctx s old id = elim (Bool-cases (s.package_id == id)) [
    | inr other ↦ ground (arith, other)
    | inl same ↦
        let here : is_active ctx id ≡ true =
          subst (λ t. is_active ctx t ≡ true) ((id_eq_iff s.package_id id).0 same) old in
        ground (arith, here)
  ]

  -- When `flag_activated` returns, the package is active, and every other package is active or not
  -- as it was before.
  pub flag_activated-is_active :
      (ctx : Context S V R) (s : Summary S V R) (method : Method) (ctx' : Context S V R)
      (seen : Bool)
      → flag_activated ctx s method ≡ ok (ctx', seen)
      → (id : PackageId S V) → is_active ctx' id ≡ (is_active ctx id || s.package_id == id)
  flag_activated-is_active ctx s method ctx' seen h id =
      elim (flag_activated-cases ctx s method ctx' seen h) [
        | inl (old, same) ↦ rw (sym same) (is_active-again ctx s old id)
        | inr (fresh, links, claimed, same) ↦ rw (sym same) (is_active-enter ctx s links id)
      ]

  abbrev held : Map Text (PackageId S V) → Summary S V R → Bool
  held links x = held_by links x.links x.package_id

  -- Every active summary with a `links` value is the package that holds the value.
  abbrev pub LinksHeld : Context S V R → Type 0
  LinksHeld ctx =
      (k : Text × S) → all (held ctx.links_of) (unwrap_or (Map.get ctx.activations k) []) ≡ true

  -- `flag_activated` keeps it: no two active packages have the same `links` value.
  pub flag_activated-LinksHeld :
      (ctx : Context S V R) (s : Summary S V R) (method : Method) (ctx' : Context S V R)
      (seen : Bool)
      → LinksHeld ctx
      → flag_activated ctx s method ≡ ok (ctx', seen)
      → LinksHeld ctx'
  flag_activated-LinksHeld ctx s method ctx' seen before h =
      elim (flag_activated-cases ctx s method ctx' seen h) [
        | inl (old, same) ↦ subst LinksHeld same before
        | inr (fresh, links, claimed, same) ↦ subst LinksHeld same (held_enter links claimed)
      ]
    where
      held_enter :
          (links : Map Text (PackageId S V))
          → claim_links s.package_id s.links ctx.links_of ≡ ok links
          → LinksHeld (enter ctx s links)
      held_enter links claimed k =
          let (mine, others) = held_by-claim s.package_id s.links ctx.links_of links claimed in
          let earlier =
            all_mono (held ctx.links_of) (held links) (unwrap_or (Map.get ctx.activations k) [])
              (λ x. others x.links x.package_id) (before k) in
          elim (Bool-cases (slot s.package_id == k)) [
            | inr other ↦
                rw
                  (
                    get-update_or (slot s.package_id) k [] (λ prev. prev ++ s ∷ []) ctx.activations,
                    other,
                  )
                  earlier
            | inl same ↦
                let at_slot : Map.get ctx.activations (slot s.package_id)
                    ≡ Map.get ctx.activations k =
                  ap (Map.get ctx.activations) ((pair_eq_iff (slot s.package_id) k).0 same) in
                rw
                  (
                    get-update_or (slot s.package_id) k [] (λ prev. prev ++ s ∷ []) ctx.activations,
                    same,
                    at_slot,
                  )
                  (ground (
                    arith,
                    all-append (held links) (unwrap_or (Map.get ctx.activations k) []) (s ∷ []),
                    earlier,
                    mine,
                  ))
          ]
