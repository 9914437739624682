-- ===== src/Resolver/Search/Effects.antt =====
-- How the operations of core/resolver/context.rs that `activate` calls extend a context.
use toml.Prelude.{
  Text, Bool, true, false, Option, none, some, List, [], ◌∷◌, ◌++◌, all, any, all-append, unwrap_or,
  Eq, ◌==◌, list_eq, nat_eq, pair_eq, pair_eq_iff, eq_self, ok, bind-eq-ok, ok-injective, ◌≡◌, refl,
  sym, ap, ◌∙◌, subst, arith, Bool-cases, inl, inr,
}
use toml.Map
use toml.Map.{Map, get-update_or}
use toml.Core.PackageId.{PackageId, package_id_eq}
use toml.Core.Dependency.{Dependency}
use toml.Core.Summary.{Summary}
use toml.Resolver.Types.{Method, GraphNode, add}
use toml.Resolver.Context.{Context, flag_activated, is_active, slot, activated, claim_links, enter}
use toml.Resolver.Context.Laws.{flag_activated-cases, flag_activated-is_active, is_active-enter}
use toml.Resolver.Context.Features.{resolve_features}
use toml.Resolver.Context.Selection.{resolve_features-keeps}
use toml.Resolver.Search.{push_link, push_replacement}

module _ {S V R : Type 0} ⦃es : Eq S⦄ ⦃ev : Eq V⦄ where
  -- the package has a replacement
  abbrev pub is_replaced : Context S V R → PackageId S V → Bool
  is_replaced cx id = any (λ (k, _). k == id) cx.resolve_replacements

  -- the active summaries under a key
  abbrev pub stored : Context S V R → Text × S → List (Summary S V R)
  stored cx k = unwrap_or (Map.get cx.activations k) []

  -- What was there is there still.
  pub record Extends (cx cx' : Context S V R) : Type 0 where
    pub active : (id : PackageId S V) → is_active cx id ≡ true → is_active cx' id ≡ true
    pub recorded :
        (p : GraphNode S V R → Bool)
        → any p cx.resolve_graph ≡ true
        → any p cx'.resolve_graph ≡ true
    pub replaced : (id : PackageId S V) → is_replaced cx id ≡ true → is_replaced cx' id ≡ true

  pub Extends-refl : (cx : Context S V R) → Extends cx cx
  Extends-refl cx = record { active = λ id h. h; recorded = λ p h. h; replaced = λ id h. h }

  pub Extends-trans :
      {cx cx' cx'' : Context S V R} → Extends cx cx' → Extends cx' cx'' → Extends cx cx''
  Extends-trans f g = record {
    active = λ id h. g.active id (f.active id h);
    recorded = λ p h. g.recorded p (f.recorded p h);
    replaced = λ id h. g.replaced id (f.replaced id h);
  }

  -- the key of an activation alone decides what is active
  pub is_active-same :
      (cx cx' : Context S V R) (id : PackageId S V)
      → cx'.activations ≡ cx.activations
      → is_active cx' id ≡ is_active cx id
  unfolding is_active
  is_active-same cx cx' id same = rw same refl

  pub push_link-Extends :
      (cx : Context S V R) (parent : Option (Summary S V R × Dependency S R)) (s : Summary S V R)
      → Extends cx (push_link cx parent s)
  push_link-Extends cx none s = Extends-refl cx
  push_link-Extends cx (some (parent, dep)) s = record {
    active = λ id h. is_active-same cx (push_link cx (some (parent, dep)) s) id refl ∙ h;
    recorded = λ p h. ground (arith, h);
    replaced = λ id h. h;
  }

  pub push_replacement-Extends :
      (cx : Context S V R) (s replace : Summary S V R) → Extends cx (push_replacement cx s replace)
  push_replacement-Extends cx s replace = record {
    active = λ id h. is_active-same cx (push_replacement cx s replace) id refl ∙ h;
    recorded = λ p h. h;
    replaced = λ id h. ground (arith, h);
  }

  pub resolve_features-Extends :
      (cx cx' : Context S V R) (parent : Option (Summary S V R)) (s : Summary S V R)
      (method : Method) (ret : List (Dependency S R × List Text))
      → resolve_features cx parent s method ≡ ok (cx', ret)
      → Extends cx cx'
  resolve_features-Extends cx cx' parent s method ret h =
      let (activations', graph', replacements') =
        resolve_features-keeps cx parent s method cx' ret h in
      record {
        active = λ id a. is_active-same cx cx' id activations' ∙ a;
        recorded = λ p r. rw graph' r;
        replaced = λ id r. rw replacements' r;
      }

  -- a context that `flag_activated` enters the summary into, or leaves alone
  pub flag_activated-Extends :
      (cx cx' : Context S V R) (s : Summary S V R) (method : Method) (seen : Bool)
      → flag_activated cx s method ≡ ok (cx', seen)
      → Extends cx cx'
  flag_activated-Extends cx cx' s method seen h =
      elim (flag_activated-cases cx s method cx' seen h) [
        | inl (old, same) ↦ subst (Extends cx) same (Extends-refl cx)
        | inr (fresh, links, claimed, same) ↦ subst (Extends cx) same (record {
          active = λ id a. ground (arith, is_active-enter cx s links id, a);
          recorded = λ p r. ground (arith, r);
          replaced = λ id r. r;
        })
      ]

  -- a test of the nodes that the new node passes
  pub flag_activated-nodes :
      (cx cx' : Context S V R) (s : Summary S V R) (method : Method) (seen : Bool)
      (p : GraphNode S V R → Bool)
      → flag_activated cx s method ≡ ok (cx', seen)
      → p (add s.package_id) ≡ true
      → all p cx.resolve_graph ≡ true
      → all p cx'.resolve_graph ≡ true
  flag_activated-nodes cx cx' s method seen p h new before =
      elim (flag_activated-cases cx s method cx' seen h) [
        | inl (old, same) ↦ subst (λ t. all p t.resolve_graph ≡ true) same before
        | inr (fresh, links, claimed, same) ↦
            subst (λ t. all p t.resolve_graph ≡ true) same (ground (arith, new, before))
      ]

  -- A test of the active summaries, which the summary passes where it was not active. There the
  -- answer is `false`.
  pub flag_activated-stored :
      (cx cx' : Context S V R) (s : Summary S V R) (method : Method) (seen : Bool)
      (p : Summary S V R → Bool) (k : Text × S)
      → flag_activated cx s method ≡ ok (cx', seen)
      → (seen ≡ false → p s ≡ true)
      → all p (stored cx k) ≡ true
      → all p (stored cx' k) ≡ true
  unfolding flag_activated
  flag_activated-stored cx cx' s method seen p k h new before = elim (Bool-cases (activated cx s)) [
    | inl old ↦
        let same : cx ≡ cx' = ap (λ (c, _). c) (ok-injective (rw (flag_activated, old) at h)) in
        subst (λ t. all p (stored t k) ≡ true) same before
    | inr fresh ↦
        let (links, claimed, last) =
          bind-eq-ok (claim_links s.package_id s.links cx.links_of)
            (λ links. ok (enter cx s links, false)) (rw (flag_activated, fresh) at h) in
        let same = ok-injective last in
        let passes = new (sym (ap (λ (_, b). b) same)) in
        subst (λ t. all p (stored t k) ≡ true) (ap (λ (c, _). c) same) (stored_enter links passes)
  ]
    where
      stored_enter :
          (links : Map Text (PackageId S V))
          → p s ≡ true
          → all p (stored (enter cx s links) k) ≡ true
      stored_enter links passes = elim (Bool-cases (slot s.package_id == k)) [
        | inr other ↦
            rw
              (
                get-update_or (slot s.package_id) k [] (λ prev. prev ++ s ∷ []) cx.activations,
                other,
              )
              before
        | inl same ↦
            let at_slot : Map.get cx.activations (slot s.package_id) ≡ Map.get cx.activations k =
              ap (Map.get cx.activations) ((pair_eq_iff (slot s.package_id) k).0 same) in
            rw
              (
                get-update_or (slot s.package_id) k [] (λ prev. prev ++ s ∷ []) cx.activations,
                same,
                at_slot,
              )
              (ground (arith, all-append p (stored cx k) (s ∷ []), before, passes))
      ]

  pub flag_activated-now :
      (cx cx' : Context S V R) (s : Summary S V R) (method : Method) (seen : Bool)
      → flag_activated cx s method ≡ ok (cx', seen)
      → is_active cx' s.package_id ≡ true
  flag_activated-now cx cx' s method seen h =
      ground
        (arith, flag_activated-is_active cx s method cx' seen h s.package_id, eq_self s.package_id)
