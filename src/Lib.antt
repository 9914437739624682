-- ===== src/Lib.antt =====
-- Cargo, the package manager of Rust: models of its own algorithms, and proofs about them.
--
-- Parts, and how they stand to one another. A manifest becomes a summary: a package's identity, its
-- dependencies and its features. The resolver activates summaries in a context, expanding the
-- requested features into requirements on the dependencies, and returns a graph. The graph becomes
-- units of work that the dependency queue hands out in an order that respects the dependencies.
-- Platform-specific dependencies carry a `cfg(..)` expression. The profiles say with which settings
-- each unit is compiled.
--
-- Prelude and its children are shared: names of the libraries, Boolean tests, lists, equality as an
-- instance, outcomes of runs. A string is the list of its code points, `Text`. An interned string
-- (src/cargo/core/interning.rs) is its text, since two of them are the same pointer exactly when
-- the texts are equal. A sort is one that is stable, so that what compares equal keeps its order;
-- where the program's need not, this fixes an order that it leaves open. `CargoResult` is `Result`,
-- whose constructor `panic` is a failed `assert!`, `unwrap` or `expect`; `out_of_fuel` has no
-- counterpart in the program.
--
-- Map and Set are the standard library's `HashMap`, `BTreeMap` and `HashSet`: association lists and
-- lists. Their order stands for the order of iteration, which the program leaves open: a theorem on
-- such a list is for any list, and a run, as `Run` and `Reachable` have it, iterates in the order that
-- the operations of the model leave.
--
-- Graph models src/cargo/util/graph.rs (`Graph::new`, `add`, `link`, `contains`, `edge`, `edges`,
-- `iter`, `path_to_top`). The search of `path_to_top` takes one unit of fuel a round, and one more
-- than the number of nodes is given, since each round meets a new node.
--
-- Cfg models src/cargo/util/cfg.rs: Lexer is `Tokenizer`, Parser is `Parser` and the two `FromStr`,
-- Display the three `Display`, Key `matches_key`. The tokens are read from the text on demand, so
-- the parser's state is the text that is left. The fuel of `expr_from_str` is twice the length of
-- the text and two, which suffices for every text. Messages are constructors of `CfgError`.
--
-- DependencyQueue models src/cargo/util/dependency_queue.rs. `queue_finished` takes fuel for the
-- recursion of `depth`; fuel above the longest chain of packages suffices. Depths are `usize` in
-- the program and are assumed to fit in 64 bits. A run of the queue is a derivation in `Run`.
--
-- Core models parts of src/cargo/core. PackageId, Dependency (with Platform) and Summary (with
-- Feature) are the files of those names; a version and a source id are taken up to the equality the
-- program tests them by. Semver is an interface to the `semver` crate, which the program calls: its
-- operations are arguments, and `IsSemver` states what is used of them. Checks of `Summary::new`
-- return a constructor of `SummaryError` in place of a message. A function that changes a summary
-- or a dependency in place returns the changed one, since each is copied before it is changed.
--
-- Resolver models src/cargo/core/resolver: Types is types.rs, Requirements is `build_requirements`
-- and `Requirements` of context.rs, Context is `Context` there, and Context.Features its
-- `resolve_features`. `require_feature` recurses once for a feature that was not visited, so that
-- fuel of one more than the number of features suffices, which is proved. An error of a `Context`
-- method comes without a context: it ends the resolution, or the caller takes a saved one.
--
-- Resolver.Queue is `RcVecIter`, `DepsFrame` and `RemainingDeps` of types.rs. A round of
-- `pop_most_constrained` takes a frame out of the heap, so that fuel of one more than the number of
-- frames suffices.
--
-- Resolver.ConflictCache is conflict_cache.rs, and Core.Dependency.Equality the derived equality of
-- dependencies, which are its keys.
--
-- Resolver.Candidates is `RemainingCandidates` and `compatible` of core/resolver/mod.rs. The
-- numbers of a version are read by an argument, `release`.
--
-- Core.PackageIdSpec is core/package_id_spec.rs (`matches`, `query`, `from_package_id`, equality).
--
-- Resolver.Registry is `RegistryQueryer` of types.rs. The registry itself is an argument, a `World`
-- whose answers stay the same during a resolution, as the program's cache assumes. The replacements
-- of `[replace]` are a list of package id specs, and a replacement that the program refuses is an
-- error.
--
-- Resolver.Search is the search of core/resolver/mod.rs and `build_deps` of context.rs: `activate`,
-- `find_candidate` and, in Search.State and Search.Judge, the parts of the body of the loop. A
-- round of `activate_deps_loop` is `step` of Search.Loop, and the states of a resolution are
-- `Reachable`. A failed activation without a saved frame goes on with the context before it, which
-- is read for messages only. Progress output and texts of errors are left out. That the search ends
-- is not claimed; what is said holds in every state it reaches, and at its end.
--
-- Resolver.Cycles is `check_cycles` of core/resolver/mod.rs, with the fields of `Resolve` that it
-- reads. `visit` takes fuel for its recursion, and one more than the number of summaries is given,
-- since each level checks one more package.
--
-- LevDistance models src/cargo/util/lev_distance.rs. The column is a list that is walked along with
-- the characters; its length is in bytes, `len_utf8` of each character.
--
-- Profiles models src/cargo/core/profiles.rs, with the settings of src/cargo/util/toml/mod.rs
-- (`TomlProfile`, `TomlProfiles`, `ProfilePackageSpec` and their `validate`) in Profiles.Toml and
-- `CompileMode` of src/cargo/core/compiler/build_config.rs in Profiles.Maker. Two methods with the
-- name `get_profile` are `get_profile` and, of a maker, `make_profile`; the `validate_packages` of
-- a maker is `validate_maker`. The feature gate is a Boolean argument. What the program prints or
-- pushes as a warning is a list in the result.
--
-- Not modelled: of core/resolver, the check for duplicates, the resolved graph and
-- the lock file; parsing and printing of package id specs; sources, workspaces, manifests, and the
-- compilation itself; and what is only input and output: files, processes, network, the command
-- line. Of the modelled files, serialization and hashing are left out.
pub mod Prelude
pub mod Map
pub mod Set
pub mod Graph
pub mod Cfg
pub mod DependencyQueue
pub mod Core
pub mod Resolver
pub mod LevDistance
pub mod Profiles
