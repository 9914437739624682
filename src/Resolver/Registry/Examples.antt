-- ===== src/Resolver/Registry/Examples.antt =====
-- `RegistryQueryer` of core/resolver/types.rs at a package with three versions.
use toml.Prelude.{
  ℕ, codes, Bool, true, false, none, List, [], ◌∷◌, all, keep, length, nat_eq, leb, ok, ◌≡◌, refl,
  arith,
}
use toml.Core.Dependency.{Dependency, normal}
use toml.Core.Summary.{Summary}
use toml.Resolver.Queue.{Candidate}
use toml.Resolver.Registry
use toml.Resolver.Registry.{World, RegistryQueryer, plain, answer}
use toml.Resolver.Registry.Overrides.{settled}
use toml.Resolver.Registry.Answers.{VersionOrder, Ordered, answer-sorted}

leb-VersionOrder : VersionOrder leb
leb-VersionOrder = record {
  total = λ v w. ground arith;
  trans = λ u v w uv vw. ground (arith, uv, vw);
}

abbrev version : ℕ → Summary ℕ ℕ ℕ
version v = record {
  package_id = record { name = codes "log"; version = v; source_id = 0 };
  dependencies = [];
  features = [];
  checksum = none;
  links = none;
  namespaced_features = false;
}

abbrev world : World ℕ ℕ ℕ ℕ ℕ
world = record {
  lookup = λ dep. ok (version 2 ∷ version 1 ∷ version 4 ∷ version 3 ∷ []);
  version_le = leb;
  url_of = λ s. s;
}

abbrev on_log : Dependency ℕ ℕ
on_log = record {
  name = codes "log";
  source_id = 0;
  registry_id = none;
  req = 0;
  specified_req = false;
  kind = normal;
  only_match_name = false;
  explicit_name_in_toml = none;
  optional = false;
  default_features = true;
  features = [];
  platform = none;
}

-- The second version is in the lock file.
abbrev locked : Bool → RegistryQueryer ℕ ℕ ℕ ℕ
locked minimal = Registry.new [] ((version 2).package_id ∷ []) minimal

abbrev sorted_log : List (Candidate ℕ ℕ ℕ)
sorted_log = plain (version 2) ∷ plain (version 4) ∷ plain (version 3) ∷ plain (version 1) ∷ []

log_answer : answer world (locked false) on_log ≡ ok sorted_log
unfolding answer
log_answer = refl

log_answer_minimal :
    answer world (locked true) on_log
    ≡ ok (plain (version 2) ∷ plain (version 1) ∷ plain (version 3) ∷ plain (version 4) ∷ [])
unfolding answer
log_answer_minimal = refl

answer-sorted_example :
    Ordered leb (locked false) sorted_log
    × (all (settled world (locked false)) sorted_log ≡ true)
    × (ss : List (Summary ℕ ℕ ℕ)) × (world.lookup on_log ≡ ok ss)
    × ((p : Summary ℕ ℕ ℕ → Bool)
        → length (keep (λ (c : Candidate ℕ ℕ ℕ). p c.summary) sorted_log) ≡ length (keep p ss))
answer-sorted_example =
    answer-sorted world (locked false) on_log sorted_log leb-VersionOrder log_answer
