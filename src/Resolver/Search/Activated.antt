-- ===== src/Resolver/Search/Activated.antt =====
-- What a successful `activate` of core/resolver/mod.rs has done.
use toml.Prelude.{
  Text, Bool, true, false, ◌&&◌, if◌then◌else◌, Option, none, some, List, Eq, Result, ok, err,
  panic, out_of_fuel, ◌>>=◌, bind-eq-ok, ok-injective, sort_by, ◌≡◌, refl, sym, ap, ◌∙◌,
}
use toml.Core.Dependency.{Dependency}
use toml.Core.Summary.{Summary}
use toml.Resolver.Types.{Method, fatal, conflict, ActivateResult}
use toml.Resolver.Queue.{Candidate, DepInfo, DepsFrame, push}
use toml.Resolver.Registry.{World, QueryError, RegistryQueryer}
use toml.Resolver.Context.{Context, ContextError, flag_activated}
use toml.Resolver.Context.Features.{resolve_features}
use toml.Resolver.Search.{
  of_context, of_query, fewer, summary_of, push_link, push_replacement, frame_of, query_each,
  build_deps, choose, expand, activate,
}

module _ {S V R : Type 0} where
  -- the frame, if there is one, pushed to the heap with the given mark
  abbrev pub push_marked :
      Bool → Option (DepsFrame S V R) → List (DepsFrame S V R) → List (DepsFrame S V R)
  push_marked mark none frames = frames
  push_marked mark (some f) frames = push frames (record f { just_for_error_messages = mark })

pub unless-some :
    {A : Type 0} (b : Bool) (x y : A)
    → (if b then none else some x) ≡ some y
    → (b ≡ false) × (x ≡ y)
unless-some true x y h = absurd cc
unless-some false x y h = (refl, cc)

module _ {S V R U E A : Type 0} where
  pub of_context-ok :
      (r : ActivateResult S V (ContextError S V) A) {a : A}
      → of_context {R = R} {U = U} {E = E} r ≡ ok a
      → r ≡ ok a
  of_context-ok (ok a) h = ap (λ t. ok t) (ok-injective h)
  of_context-ok (err (fatal e)) h = absurd cc
  of_context-ok (err (conflict id reason)) h = absurd cc
  of_context-ok panic h = absurd cc
  of_context-ok out_of_fuel h = absurd cc

  pub of_query-ok : (r : Result (QueryError S V R U E) A) {a : A} → of_query r ≡ ok a → r ≡ ok a
  of_query-ok (ok a) h = ap (λ t. ok t) (ok-injective h)
  of_query-ok (err e) h = absurd cc
  of_query-ok panic h = absurd cc
  of_query-ok out_of_fuel h = absurd cc

module _ {S V R U E : Type 0} ⦃es : Eq S⦄ ⦃ev : Eq V⦄ ⦃er : Eq R⦄ ⦃eu : Eq U⦄
    (world : World S V R U E) where
  -- the package whose dependencies were built, with these and its frame
  abbrev pub Built :
      RegistryQueryer S V R U
      → Context S V R
      → Option (Summary S V R)
      → Summary S V R
      → Method
      → RegistryQueryer S V R U
      → Context S V R
      → DepsFrame S V R
      → Type 0
  Built q cx parent s method q' cx' frame =
      (deps : List (Dependency S R × List Text)) × (infos : List (DepInfo S V R))
      × (resolve_features cx parent s method ≡ ok (cx', deps))
      × (query_each world q deps ≡ ok (q', infos))
      × (frame ≡ frame_of s (sort_by fewer infos))

  build_deps-Built :
      (q q' : RegistryQueryer S V R U) (cx cx' : Context S V R) (parent : Option (Summary S V R))
      (s : Summary S V R) (method : Method) (infos : List (DepInfo S V R))
      → build_deps world q cx parent s method ≡ ok (q', cx', infos)
      → Built q cx parent s method q' cx' (frame_of s infos)
  unfolding build_deps
  build_deps-Built q q' cx cx' parent s method infos h =
      let (a, resolved, rest) =
        bind-eq-ok (of_context (resolve_features cx parent s method))
          (λ (cx1, deps).
            of_query (query_each world q deps) >>= λ (q1, infos). ok (q1, cx1, sort_by fewer infos))
          h in
      let (b, queried, last) =
        bind-eq-ok (of_query (query_each world q a.1))
          (λ (q1, infos). ok (q1, a.0, sort_by fewer infos)) rest in
      let same = ok-injective last in
      let same_q : b.0 ≡ q' = ap (λ (x, _, _). x) same in
      let same_cx : a.0 ≡ cx' = ap (λ (_, x, _). x) same in
      let same_infos : sort_by fewer b.1 ≡ infos = ap (λ (_, _, x). x) same in
      (
        a.1,
        b.1,
        of_context-ok (resolve_features cx parent s method) resolved
            ∙ ap (λ t. ok (t, a.1)) same_cx,
        of_query-ok (query_each world q a.1) queried ∙ ap (λ t. ok (t, b.1)) same_q,
        ap (frame_of s) (sym same_infos),
      )

  -- nothing was left to do, or the dependencies of the package were built
  abbrev pub Expanded :
      RegistryQueryer S V R U
      → Context S V R
      → Option (Summary S V R)
      → Option (Summary S V R)
      → Method
      → RegistryQueryer S V R U
      → Context S V R
      → Option (DepsFrame S V R)
      → Type 0
  Expanded q cx parent none method q' cx' frame = (q ≡ q') × (cx ≡ cx') × (frame ≡ none)
  Expanded q cx parent (some s) method q' cx' frame =
      (f : DepsFrame S V R) × (frame ≡ some f) × Built q cx parent s method q' cx' f

  expand-Expanded :
      (q q' : RegistryQueryer S V R U) (cx cx' : Context S V R)
      (parent chosen : Option (Summary S V R)) (method : Method) (frame : Option (DepsFrame S V R))
      → expand world q cx parent chosen method ≡ ok (q', cx', frame)
      → Expanded q cx parent chosen method q' cx' frame
  expand-Expanded q q' cx cx' parent none method frame h =
      let same = ok-injective h in
      (ap (λ (x, _, _). x) same, ap (λ (_, x, _). x) same, ap (λ (_, _, x). x) (sym same))
  expand-Expanded q q' cx cx' parent (some s) method frame h =
      let (a, built, last) =
        bind-eq-ok (build_deps world q cx parent s method)
          (λ (q1, cx1, deps). ok (q1, cx1, some (frame_of s deps))) h in
      let same = ok-injective last in
      let same_q : a.0 ≡ q' = ap (λ (x, _, _). x) same in
      let same_cx : a.1 ≡ cx' = ap (λ (_, x, _). x) same in
      (
        frame_of s a.2,
        ap (λ (_, _, x). x) (sym same),
        build_deps-Built q q' cx cx' parent s method a.2
            (built ∙ ap (λ t. ok (t, a.1, a.2)) same_q ∙ ap (λ t. ok (q', t, a.2)) same_cx),
      )

  -- the steps of `activate`
  abbrev pub Activates :
      RegistryQueryer S V R U
      → Context S V R
      → Option (Summary S V R × Dependency S R)
      → Candidate S V R
      → Method
      → RegistryQueryer S V R U
      → Context S V R
      → Option (DepsFrame S V R)
      → Type 0
  Activates q cx parent c method q' cx' frame =
      (cx1 : Context S V R) × (activated : Bool) × (cx2 : Context S V R) × (chosen : Option
        (Summary S V R))
      × (flag_activated (push_link cx parent c.summary) c.summary method ≡ ok (cx1, activated))
      × (choose world cx1 c.summary c.replace activated method ≡ ok (cx2, chosen))
      × Expanded q cx2 (summary_of parent) chosen method q' cx' frame

  pub activate-Activates :
      (q q' : RegistryQueryer S V R U) (cx cx' : Context S V R)
      (parent : Option (Summary S V R × Dependency S R)) (c : Candidate S V R) (method : Method)
      (frame : Option (DepsFrame S V R))
      → activate world q cx parent c method ≡ ok (q', cx', frame)
      → Activates q cx parent c method q' cx' frame
  unfolding activate
  activate-Activates q q' cx cx' parent c method frame h =
      let (a, flagged, rest) =
        bind-eq-ok (of_context (flag_activated (push_link cx parent c.summary) c.summary method))
          (λ (cx1, activated).
            choose world cx1 c.summary c.replace activated method >>= λ (cx2, chosen).
            expand world q cx2 (summary_of parent) chosen method)
          h in
      let (b, chose, last) =
        bind-eq-ok (choose world a.0 c.summary c.replace a.1 method)
          (λ (cx2, chosen). expand world q cx2 (summary_of parent) chosen method) rest in
      (
        a.0,
        a.1,
        b.0,
        b.1,
        of_context-ok (flag_activated (push_link cx parent c.summary) c.summary method) flagged,
        chose,
        expand-Expanded q q' b.0 cx' (summary_of parent) b.1 method frame last,
      )

module _ {S V R U E : Type 0} ⦃es : Eq S⦄ ⦃ev : Eq V⦄ ⦃er : Eq R⦄ ⦃eu : Eq U⦄
    (world : World S V R U E) where
  -- what the match on the replacement comes to
  abbrev pub Chosen :
      Context S V R
      → Summary S V R
      → Option (Summary S V R)
      → Bool
      → Method
      → Context S V R
      → Option (Summary S V R)
      → Type 0
  Chosen cx s none seen method cx' chosen = (cx ≡ cx') × (chosen ≡ (if seen then none else some s))
  Chosen cx s (some r) seen method cx' chosen =
      (again : Bool) × (flag_activated (push_replacement cx s r) r method ≡ ok (cx', again))
      × (chosen ≡ (if again && seen then none else some r))

  pub choose-Chosen :
      (cx cx' : Context S V R) (s : Summary S V R) (replace : Option (Summary S V R)) (seen : Bool)
      (method : Method) (chosen : Option (Summary S V R))
      → choose world cx s replace seen method ≡ ok (cx', chosen)
      → Chosen cx s replace seen method cx' chosen
  choose-Chosen cx cx' s none seen method chosen h =
      let same = ok-injective h in (ap (λ (x, _). x) same, ap (λ (_, y). y) (sym same))
  choose-Chosen cx cx' s (some r) seen method chosen h =
      let (a, flagged, last) =
        bind-eq-ok (of_context (flag_activated (push_replacement cx s r) r method))
          (λ (cx1, again). ok (cx1, if again && seen then none else some r)) h in
      let same = ok-injective last in
      let same_cx : a.0 ≡ cx' = ap (λ (x, _). x) same in
      (
        a.1,
        of_context-ok (flag_activated (push_replacement cx s r) r method) flagged
            ∙ ap (λ t. ok (t, a.1)) same_cx,
        ap (λ (_, y). y) (sym same),
      )
