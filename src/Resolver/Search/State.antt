-- ===== src/Resolver/Search/State.antt =====
-- The variables of `activate_deps_loop` of core/resolver/mod.rs, and how a backtrack frame saves and
-- resets them.
use toml.Prelude.{ℕ, Text, Bool, true, false, List, ◌∷◌, list_eq, nat_eq, if◌then◌else◌}
use toml.Core.PackageId.{package_id_eq}
use toml.Core.Dependency.{Dependency}
use toml.Core.Dependency.Equality.{dependency_eq}
use toml.Core.Summary.{Summary}
use toml.Resolver.Types.{Method, required}
use toml.Resolver.Queue.{DepsFrame}
use toml.Resolver.Registry.{RegistryQueryer}
use toml.Resolver.Context.{Context}
use toml.Resolver.Candidates.{RemainingCandidates}
use toml.Resolver.ConflictCache.{Conflicts, ConflictCache}
use toml.Resolver.Search.{SearchError, BacktrackFrame}

-- the variables of the outer loop
pub record Search (S V R U : Type 0) : Type 0 where
  pub cx : Context S V R
  pub registry : RegistryQueryer S V R U
  pub remaining_deps : List (DepsFrame S V R)
  pub backtrack_stack : List (BacktrackFrame S V R)
  pub past : ConflictCache S V R

-- those of the inner loop
pub record Attempt (S V R : Type 0) : Type 0 where
  pub cur : ℕ
  pub parent : Summary S V R
  pub dep : Dependency S R
  pub features : List Text
  pub for_error_messages : Bool
  pub remaining_candidates : RemainingCandidates S V R
  pub conflicting_activations : Conflicts S V
  pub backtracked : Bool

-- at the head of the outer loop, at that of the inner loop, and after the outer loop
pub data State (S V R U : Type 0) : Type 0 where
  outer : Search S V R U → State S V R U
  inner : Search S V R U → Attempt S V R → State S V R U
  done : Context S V R → State S V R U

-- what ends the search: a fatal error, or a dependency that has no candidate left
pub data Failure (S V R U E : Type 0) : Type 0 where
  stopped : SearchError S V R U E → Failure S V R U E
  unresolved : Summary S V R → Dependency S R → Conflicts S V → Failure S V R U E

module _ {S V R : Type 0} where
  abbrev pub method_of : Attempt S V R → Method
  method_of t = required (record {
    dev_deps = false;
    features = t.features;
    all_features = false;
    uses_default_features = t.dep.default_features;
  })

  -- `backtrack_stack.extend(backtrack)`
  abbrev pub saved :
      Bool → BacktrackFrame S V R → List (BacktrackFrame S V R) → List (BacktrackFrame S V R)
  saved has_another f stack = if has_another then f ∷ stack else stack

  abbrev pub restored_attempt : Attempt S V R → BacktrackFrame S V R → Attempt S V R
  restored_attempt t f = record {
    cur = f.cur;
    parent = f.parent;
    dep = f.dep;
    features = f.features;
    for_error_messages = t.for_error_messages;
    remaining_candidates = f.remaining_candidates;
    conflicting_activations = f.conflicting_activations;
    backtracked = true;
  }

module _ {S V R U : Type 0} where
  -- the frame to come back to, where there is another candidate
  abbrev pub backtrack_frame : Search S V R U → Attempt S V R → BacktrackFrame S V R
  backtrack_frame s t = record {
    cur = t.cur;
    context = s.cx;
    remaining_deps = s.remaining_deps;
    remaining_candidates = t.remaining_candidates;
    parent = t.parent;
    dep = t.dep;
    features = t.features;
    conflicting_activations = t.conflicting_activations;
  }

  -- The variables as a backtrack frame resets them.
  abbrev pub restored_search :
      Search S V R U → BacktrackFrame S V R → List (BacktrackFrame S V R) → Search S V R U
  restored_search s f stack = record s {
    cx = f.context;
    remaining_deps = f.remaining_deps;
    backtrack_stack = stack;
  }
