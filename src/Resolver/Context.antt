-- ===== src/Resolver/Context.antt =====
-- `Context` of core/resolver/context.rs: what a resolution has activated so far. Its construction
-- lists are lists whose first element was pushed last.
pub mod Features
pub mod Laws
pub mod Graphs
pub mod Replacements
pub mod Selection
use toml.Prelude.{
  Text, codes, Bool, true, false, not, ◌||◌, ◌&&◌, Option, none, some, List, [], ◌∷◌, ◌++◌, map,
  all, any, keep, Eq, ◌==◌, list_eq, nat_eq, pair_eq, contains, is_some, unwrap_or, Result, ok, err,
  panic, out_of_fuel, ◌>>=◌, if◌then◌else◌,
}
use toml.Map
use toml.Map.{Map}
use toml.Set
use toml.Set.{Set}
use toml.Graph
use toml.Graph.{Graph}
use toml.Core.PackageId.{PackageId, package_id_eq}
use toml.Core.Dependency.{Dependency, name_in_toml, is_transitive}
use toml.Core.Summary.{Summary}
use toml.Resolver.Types.{
  Method, Required, everything, required, ConflictReason, missing_features, ActivateError, fatal,
  conflict, ActivateResult, GraphNode, add, link,
}
use toml.Resolver.Requirements.{Requirements, RequirementsError, build_requirements}

-- the fatal errors, and the warning
pub data ContextError (S V : Type 0) : Type 0 where
  links_twice : Text → ContextError S V
  bad_requirements : RequirementsError → ContextError S V
  slash_in_feature : Text → ContextError S V
  no_such_features : PackageId S V → List Text → ContextError S V

pub data Warning (S V : Type 0) : Type 0 where
  required_as_feature : PackageId S V → Text → Warning S V

pub record Context (S V R : Type 0) : Type 0 where
  pub activations : Map (Text × S) (List (Summary S V R))
  pub resolve_features : Map (PackageId S V) (Set Text)
  pub links_of : Map Text (PackageId S V)
  pub resolve_graph : List (GraphNode S V R)
  pub resolve_replacements : List (PackageId S V × PackageId S V)
  pub warnings : List (Warning S V)

abbrev pub new : {S V R : Type 0} → Context S V R
new = record {
  activations = [];
  resolve_features = [];
  links_of = [];
  resolve_graph = [];
  resolve_replacements = [];
  warnings = [];
}

module _ {S V : Type 0} where
  -- the key of a package among the activations
  abbrev pub slot : PackageId S V → Text × S
  slot id = (id.name, id.source_id)

  abbrev pub option_list : Option (PackageId S V) → List (PackageId S V)
  option_list none = []
  option_list (some p) = p ∷ []

abbrev pub covered : Option (Set Text) → List Text → Bool → Bool → Bool
covered (some prev) features use_default has_default =
    all (contains prev) features
    && (not use_default || contains prev (codes "default") || not has_default)
covered none features use_default has_default =
    features == [] && (not use_default || not has_default)

module _ {S V : Type 0} ⦃es : Eq S⦄ ⦃ev : Eq V⦄ where
  -- `ensure!(self.links.insert(..).is_none())`, where the summary has `links`
  abbrev pub claim_links :
      PackageId S V
      → Option Text
      → Map Text (PackageId S V)
      → ActivateResult S V (ContextError S V) (Map Text (PackageId S V))
  claim_links id none links = ok links
  claim_links id (some l) links =
      if Map.contains_key links l then err (fatal (links_twice l)) else ok (Map.insert l id links)

  -- the method `resolve_replacements`, from the list of that name
  unfoldable pub replacements :
      List (PackageId S V × PackageId S V)
      → Map (PackageId S V) (PackageId S V)
      → Map (PackageId S V) (PackageId S V)
  unfolding Map.insert
  replacements [] acc = acc
  replacements ((k, v) ∷ rest) acc = replacements rest (Map.insert k v acc)

module _ {S V R : Type 0} ⦃es : Eq S⦄ ⦃ev : Eq V⦄ where
  abbrev pub same_summary : Summary S V R → Summary S V R → Bool
  same_summary a b = a.package_id == b.package_id

  abbrev pub activated : Context S V R → Summary S V R → Bool
  activated ctx summary =
      any (λ c. same_summary c summary)
        (unwrap_or (Map.get ctx.activations (slot summary.package_id)) [])

  -- whether the features of the method are there already
  abbrev pub already : Context S V R → Summary S V R → Method → Bool
  already ctx summary everything = false
  already ctx summary (required m) =
      if m.all_features
      then false
      else covered (Map.get ctx.resolve_features summary.package_id) m.features
          m.uses_default_features (Map.contains_key summary.features (codes "default"))

  -- the context with a summary that was not there
  abbrev pub enter : Context S V R → Summary S V R → Map Text (PackageId S V) → Context S V R
  enter ctx summary links = record ctx {
    activations =
        Map.update_or (slot summary.package_id) [] (λ prev. prev ++ summary ∷ []) ctx.activations;
    links_of = links;
    resolve_graph = add summary.package_id ∷ ctx.resolve_graph;
  }

  -- A failure ends the resolution, so that no state is returned with it.
  unfoldable pub flag_activated :
      Context S V R
      → Summary S V R
      → Method
      → ActivateResult S V (ContextError S V) (Context S V R × Bool)
  unfolding Map.get Map.insert Map.update_or
  flag_activated ctx summary method =
      if not (activated ctx summary)
      then (claim_links summary.package_id summary.links ctx.links_of >>= λ links.
          ok (enter ctx summary links, false))
      else ok (ctx, already ctx summary method)

  unfoldable pub prev_active : Context S V R → Dependency S R → List (Summary S V R)
  unfolding Map.get
  prev_active ctx dep = unwrap_or (Map.get ctx.activations (dep.name, dep.source_id)) []

  unfoldable pub is_active : Context S V R → PackageId S V → Bool
  unfolding Map.get
  is_active ctx id =
      any (λ s. s.package_id == id) (unwrap_or (Map.get ctx.activations (slot id)) [])

  unfoldable pub is_conflicting :
      Context S V R → Option (PackageId S V) → Map (PackageId S V) ConflictReason → Bool
  unfolding is_active
  is_conflicting ctx parent conflicting_activations =
      all (is_active ctx) (Map.keys conflicting_activations ++ option_list parent)

  unfoldable pub graph_loop :
      List (GraphNode S V R)
      → Graph (PackageId S V) (List (Dependency S R))
      → Graph (PackageId S V) (List (Dependency S R))
  unfolding Graph.add Graph.link
  graph_loop [] g = g
  graph_loop (add p ∷ rest) g = graph_loop rest (Graph.add g p)
  graph_loop (link a b dep ∷ rest) g =
      graph_loop rest (Graph.link [] g a b (λ deps. deps ++ dep ∷ []))

  unfoldable pub graph : Context S V R → Graph (PackageId S V) (List (Dependency S R))
  unfolding graph_loop Graph.new
  graph ctx = graph_loop ctx.resolve_graph Graph.new
