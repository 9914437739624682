-- ===== src/Resolver/Search/Loop.antt =====
-- `activate_deps_loop` of core/resolver/mod.rs: one round of its loops as a step between states.
use toml.Prelude.{
  Bool, false, not, ◌&&◌, ◌||◌, Option, none, some, List, [], ◌∷◌, is_some, Eq, list_eq, nat_eq,
  Result, Never, ok, err, panic, out_of_fuel, ◌>>=◌, ◌≡◌, if◌then◌else◌,
}
use toml.Map
use toml.Map.{Map}
use toml.Core.PackageId.{PackageId, package_id_eq}
use toml.Core.Dependency.Equality.{dependency_eq}
use toml.Core.Summary.{Summary}
use toml.Resolver.Types.{Method, ActivateError, fatal, conflict}
use toml.Resolver.Queue
use toml.Resolver.Queue.{Candidate, DepInfo, DepsFrame, pop_most_constrained, Popped, rest_of, iter}
use toml.Resolver.Registry.{World, RegistryQueryer}
use toml.Resolver.Context
use toml.Resolver.Context.{Context}
use toml.Resolver.Candidates
use toml.Resolver.Candidates.{Release, RemainingCandidates, next_candidate}
use toml.Resolver.ConflictCache
use toml.Resolver.ConflictCache.{
  Conflicts, ConflictCache, conflicting, find_conflicting, dependencies_conflicting_with,
}
use toml.Resolver.Search.{SearchError, BacktrackFrame, Found, activate, find_candidate}
use toml.Resolver.Search.State.{
  Search, Attempt, State, outer, inner, done, Failure, stopped, unresolved, method_of,
  backtrack_frame, saved, restored_search, restored_attempt,
}
use toml.Resolver.Search.Judge.{judge}

module _ {S V R U E : Type 0} ⦃es : Eq S⦄ ⦃ev : Eq V⦄ ⦃er : Eq R⦄ ⦃eu : Eq U⦄
    (world : World S V R U E) (release : V → Release) where
  -- `activate_for_error_message`
  abbrev pub last_resort : Search S V R U → Attempt S V R → Bool → Bool → Conflicts S V → Bool
  last_resort s t has_another past_conflicting conflicts =
      past_conflicting
      && (not has_another
          && (t.for_error_messages
              || not (
                  is_some
                    (find_candidate release t.parent t.backtracked conflicts s.backtrack_stack).0)))

  -- What follows `judge`. A context that is not saved in a frame is read for messages alone, once
  -- its candidate was not taken, so that the one from before stands for it.
  abbrev pub conclude_frame :
      Search S V R U
      → Attempt S V R
      → Bool
      → RegistryQueryer S V R U
      → Context S V R
      → DepsFrame S V R
      → Bool × Conflicts S V
      → State S V R U
  conclude_frame s t has_another registry cx frame (past_conflicting, conflicts) =
      let clear = last_resort s t has_another past_conflicting conflicts in
      let stack = if clear then [] else s.backtrack_stack in
      let frame' = record frame { just_for_error_messages = past_conflicting } in
      if not past_conflicting || clear
      then outer (record s {
        cx = cx;
        registry = registry;
        remaining_deps = Queue.push s.remaining_deps frame';
        backtrack_stack = saved has_another (backtrack_frame s t) stack;
      })
      else inner (record s { registry = registry; backtrack_stack = stack })
          (record t { conflicting_activations = conflicts })

  -- The match on the result of `activate`.
  abbrev pub activated :
      Search S V R U
      → Attempt S V R
      → PackageId S V
      → Bool
      → Result
          (ActivateError S V (SearchError S V R U E))
          (RegistryQueryer S V R U × Context S V R × Option (DepsFrame S V R))
      → Result (Failure S V R U E) (State S V R U)
  activated s t pid has_another (ok (registry, cx, some frame)) =
      judge s.past cx pid s.remaining_deps t.for_error_messages t.conflicting_activations frame
      >>= λ judged. ok (conclude_frame s t has_another registry cx frame judged)
  activated s t pid has_another (ok (registry, cx, none)) = ok (
      outer (record s {
        cx = cx;
        registry = registry;
        backtrack_stack = saved has_another (backtrack_frame s t) s.backtrack_stack;
      }))
  activated s t pid has_another (err (fatal e)) = err (stopped e)
  activated s t pid has_another (err (conflict id reason)) = ok (
      inner s
        (record t { conflicting_activations = Map.insert id reason t.conflicting_activations }))
  activated s t pid has_another panic = panic
  activated s t pid has_another out_of_fuel = out_of_fuel

  -- The body of the inner loop once there is a candidate.
  abbrev pub try_candidate :
      Search S V R U
      → Attempt S V R
      → Candidate S V R
      → Bool
      → Result (Failure S V R U E) (State S V R U)
  try_candidate s t candidate has_another =
      if t.for_error_messages && (not t.backtracked && has_another)
      then ok (inner s t)
      else activated s t candidate.summary.package_id has_another
          (activate world s.registry s.cx (some (t.parent, t.dep)) candidate (method_of t))

  abbrev pub go_back :
      Search S V R U
      → Attempt S V R
      → Found S V R × List (BacktrackFrame S V R)
      → Result (Failure S V R U E) (State S V R U)
  go_back s t (none, stack) = err (unresolved t.parent t.dep t.conflicting_activations)
  go_back s t (some (candidate, has_another, f), stack) =
      try_candidate (restored_search s f stack) (restored_attempt t f) candidate has_another

  -- No candidate is left: what is known of the dependency is recorded.
  abbrev pub poisoned : Search S V R U → Attempt S V R → Search S V R U
  poisoned s t =
      if not t.for_error_messages && not t.backtracked
      then record s { past = ConflictCache.insert s.past t.dep t.conflicting_activations }
      else s

  abbrev pub attempt :
      Search S V R U
      → Attempt S V R
      → Option (Candidate S V R × Bool)
      → Result (Failure S V R U E) (State S V R U)
  attempt s t (some (candidate, has_another)) = try_candidate s t candidate has_another
  attempt s t none =
      go_back (poisoned s t) t
        (find_candidate release t.parent t.backtracked t.conflicting_activations s.backtrack_stack)

  -- the attempt after `remaining_candidates.next`
  abbrev pub advanced : Attempt S V R → RemainingCandidates S V R → Conflicts S V → Attempt S V R
  advanced t candidates conflicts = record t {
    remaining_candidates = candidates;
    conflicting_activations = conflicts;
  }

  unfoldable pub inner_step :
      Search S V R U → Attempt S V R → Result (Failure S V R U E) (State S V R U)
  unfolding next_candidate activate judge find_candidate ConflictCache.insert Map.insert
  inner_step s t =
      let (next, candidates, conflicts) =
        next_candidate release s.cx t.dep t.remaining_candidates t.conflicting_activations in
      attempt s (advanced t candidates conflicts) next

  -- The head of the outer loop.
  abbrev pub entered : Search S V R U → Popped S V R → State S V R U
  entered s (none, rest) = done s.cx
  entered s (some (just_here, parent, (cur, info)), rest) =
      inner (record s { remaining_deps = rest })
        (record {
          cur = cur;
          parent = parent;
          dep = info.dep;
          features = info.features;
          for_error_messages = just_here && is_some (conflicting s.past s.cx info.dep);
          remaining_candidates = Candidates.new info.candidates;
          conflicting_activations = [];
          backtracked = false;
        })

  abbrev pub surely : {A F : Type 0} → Result Never A → Result F A
  surely (ok a) = ok a
  surely (err e) = elim e [ ]
  surely panic = panic
  surely out_of_fuel = out_of_fuel

  unfoldable pub step : State S V R U → Result (Failure S V R U E) (State S V R U)
  unfolding inner_step pop_most_constrained conflicting
  step (outer s) =
      surely (pop_most_constrained s.remaining_deps) >>= λ popped. ok (entered s popped)
  step (inner s t) = inner_step s t
  step (done cx) = ok (done cx)

  -- the initial activations; a conflict is the panic "bad error from activate"
  abbrev pub started :
      Search S V R U
      → Result
          (ActivateError S V (SearchError S V R U E))
          (RegistryQueryer S V R U × Context S V R × Option (DepsFrame S V R))
      → Result (Failure S V R U E) (Search S V R U)
  started s (ok (registry, cx, some frame)) = ok (record s {
    cx = cx;
    registry = registry;
    remaining_deps = Queue.push s.remaining_deps frame;
  })
  started s (ok (registry, cx, none)) = ok (record s { cx = cx; registry = registry })
  started s (err (fatal e)) = err (stopped e)
  started s (err (conflict id reason)) = panic
  started s panic = panic
  started s out_of_fuel = out_of_fuel

  unfoldable pub activate_initial :
      List (Summary S V R × Method) → Search S V R U → Result (Failure S V R U E) (Search S V R U)
  unfolding activate
  activate_initial [] s = ok s
  activate_initial ((summary, method) ∷ summaries) s =
      started s
        (activate world s.registry s.cx none (record { summary = summary; replace = none }) method)
      >>= activate_initial summaries

  abbrev pub empty_search : RegistryQueryer S V R U → Context S V R → Search S V R U
  empty_search registry cx = record {
    cx = cx;
    registry = registry;
    remaining_deps = [];
    backtrack_stack = [];
    past = ConflictCache.new;
  }

  -- the states that the search for the given packages comes to
  pub data Reachable (registry : RegistryQueryer S V R U)
      (summaries : List (Summary S V R × Method)) : State S V R U → Type 0 where
    start :
        {s : Search S V R U}
        → activate_initial summaries (empty_search registry Context.new) ≡ ok s
        → Reachable registry summaries (outer s)
    next :
        {s s' : State S V R U}
        → Reachable registry summaries s
        → step s ≡ ok s'
        → Reachable registry summaries s'
