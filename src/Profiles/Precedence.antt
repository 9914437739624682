-- ===== src/Profiles/Precedence.antt =====
-- Which of the settings of core/profiles.rs count for a package.
use toml.Prelude.{
  ◌≤◌, Bool, true, false, not, Option, none, some, List, [], ◌∷◌, ◌++◌, length, append_assoc,
  append-nil, Bool-cases, inl, inr, Eq, ok, if◌then◌else◌, ◌≡◌, refl, sym, ap, ◌∙◌, arith,
}
use toml.Core.PackageId.{PackageId}
use toml.Profiles.{Profile, UnitFor, or_old, lto_of, debuginfo_of, merge_profile}
use toml.Profiles.Toml.{
  Settings, TomlProfile, profile, Overrides, no_overrides, overrides, Entries, BuildOverride,
  no_build_override, build_override, settings, overrides_of,
}
use toml.Profiles.Maker.{
  ProfileMaker, matching, all_of, merge_given, merge_single, merge_build_override, merge_toml,
  merge_spec, merge_overrides, merge_toml?, make_profile,
}

abbrev pub or_else : {A : Type 0} → Option A → Option A → Option A
or_else none o = o
or_else (some a) o = some a

-- the first that is given
abbrev pub first_given : {A : Type 0} → (Settings → Option A) → List Settings → Option A
first_given field [] = none
first_given field (s ∷ ss) = or_else (field s) (first_given field ss)

-- Each field is the first that is given among the settings, or else the default.
abbrev pub resolved : Profile → List Settings → Profile
resolved p ss = record p {
  opt_level = or_old (λ o. o) (first_given (λ s. s.opt_level) ss) p.opt_level;
  lto = or_old lto_of (first_given (λ s. s.lto) ss) p.lto;
  codegen_units = or_old (λ n. some n) (first_given (λ s. s.codegen_units) ss) p.codegen_units;
  debuginfo = or_old debuginfo_of (first_given (λ s. s.debug) ss) p.debuginfo;
  debug_assertions = or_old (λ b. b) (first_given (λ s. s.debug_assertions) ss) p.debug_assertions;
  rpath = or_old (λ b. b) (first_given (λ s. s.rpath) ss) p.rpath;
  panic = or_old (λ n. some n) (first_given (λ s. s.panic) ss) p.panic;
  overflow_checks = or_old (λ b. b) (first_given (λ s. s.overflow_checks) ss) p.overflow_checks;
  incremental = or_old (λ b. b) (first_given (λ s. s.incremental) ss) p.incremental;
}

or_old-or_else :
    {A B : Type 0} (f : A → B) (o next : Option A) (old : B)
    → or_old f o (or_old f next old) ≡ or_old f (or_else o next) old
or_old-or_else f none next old = refl
or_old-or_else f (some a) next old = refl

-- Settings that are merged later count first.
merge_profile-resolved :
    (p : Profile) (s : Settings) (ss : List Settings)
    → merge_profile (resolved p ss) s ≡ resolved p (s ∷ ss)
unfolding merge_profile
merge_profile-resolved p s ss =
    rw
      (
        or_old-or_else (λ o. o) s.opt_level (first_given (λ s. s.opt_level) ss) p.opt_level,
        or_old-or_else lto_of s.lto (first_given (λ s. s.lto) ss) p.lto,
        or_old-or_else (λ n. some n) s.codegen_units (first_given (λ s. s.codegen_units) ss)
            p.codegen_units,
        or_old-or_else debuginfo_of s.debug (first_given (λ s. s.debug) ss) p.debuginfo,
        or_old-or_else (λ b. b) s.debug_assertions (first_given (λ s. s.debug_assertions) ss)
            p.debug_assertions,
        or_old-or_else (λ b. b) s.rpath (first_given (λ s. s.rpath) ss) p.rpath,
        or_old-or_else (λ n. some n) s.panic (first_given (λ s. s.panic) ss) p.panic,
        or_old-or_else (λ b. b) s.overflow_checks (first_given (λ s. s.overflow_checks) ss)
            p.overflow_checks,
        or_old-or_else (λ b. b) s.incremental (first_given (λ s. s.incremental) ss) p.incremental,
      )
      refl

abbrev pub list_of : Option Settings → List Settings
list_of none = []
list_of (some s) = s ∷ []

module _ {V U : Type 0} where
  abbrev pub build_layer : UnitFor → BuildOverride V U → List Settings
  build_layer unit_for no_build_override = []
  build_layer unit_for (build_override toml) =
      if unit_for.custom_build then settings toml ∷ [] else []

  merge_build-resolved :
      (unit_for : UnitFor) (p : Profile) (b : BuildOverride V U) (ss : List Settings)
      → merge_build_override unit_for (resolved p ss) b ≡ resolved p (build_layer unit_for b ++ ss)
  merge_build-resolved unit_for p no_build_override ss = refl
  merge_build-resolved unit_for p (build_override toml) ss =
      elim (Bool-cases unit_for.custom_build) [
        | inl custom ↦ rw custom (merge_profile-resolved p (settings toml) ss)
        | inr other ↦ rw other refl
      ]

merge_all-resolved :
    (is_member : Bool) (p : Profile) (o : Option Settings) (ss : List Settings)
    → (if not is_member then merge_given (resolved p ss) o else resolved p ss)
      ≡ resolved p ((if is_member then [] else list_of o) ++ ss)
merge_all-resolved true p o ss = refl
merge_all-resolved false p none ss = refl
merge_all-resolved false p (some s) ss = merge_profile-resolved p s ss

module _ {S V U : Type 0} ⦃ev : Eq V⦄ ⦃eu : Eq U⦄ (url_of : S → U) where
  abbrev pub spec_layer : Option (PackageId S V) → Entries V U → List Settings
  spec_layer none es = []
  spec_layer (some id) es = matching url_of id es

  abbrev pub override_layers : Option (PackageId S V) → Bool → Overrides V U → List Settings
  override_layers pkg_id is_member no_overrides = []
  override_layers pkg_id is_member (overrides es) =
      spec_layer pkg_id es ++ (if is_member then [] else list_of (all_of es))

  -- The layers of one file, the strongest first: the override that names the package, the override
  -- of all packages that are not members, the override of build scripts, and the profile itself.
  abbrev pub toml_layers : Option (PackageId S V) → Bool → UnitFor → TomlProfile V U → List Settings
  toml_layers pkg_id is_member unit_for (profile s o b) =
      override_layers pkg_id is_member o ++ (build_layer unit_for b ++ s ∷ [])

  abbrev pub file_layers :
      Option (PackageId S V) → Bool → UnitFor → Option (TomlProfile V U) → List Settings
  file_layers pkg_id is_member unit_for none = []
  file_layers pkg_id is_member unit_for (some toml) = toml_layers pkg_id is_member unit_for toml

  -- the configuration is stronger than the manifest
  unfoldable pub layers : ProfileMaker V U → Option (PackageId S V) → Bool → UnitFor → List Settings
  unfolding matching
  layers maker pkg_id is_member unit_for =
      file_layers pkg_id is_member unit_for maker.config
      ++ file_layers pkg_id is_member unit_for maker.toml

  -- At most one override names the package.
  abbrev pub Single : Option (PackageId S V) → Overrides V U → Type 0
  Single none o = Unit {0}
  Single (some id) no_overrides = Unit {0}
  Single (some id) (overrides es) = length (matching url_of id es) ≤ 1

  abbrev pub FileSingle : Option (PackageId S V) → Option (TomlProfile V U) → Type 0
  FileSingle pkg_id none = Unit {0}
  FileSingle pkg_id (some toml) = Single pkg_id (overrides_of toml)

merge_single-resolved :
    (p : Profile) (found ss : List Settings)
    → length found ≤ 1
    → merge_single (resolved p ss) found ≡ ok (resolved p (found ++ ss))
merge_single-resolved p [] ss few = refl
merge_single-resolved p (s ∷ []) ss few = ap (λ q. ok q) (merge_profile-resolved p s ss)
merge_single-resolved p (s ∷ other ∷ rest) ss few = absurd (omega (arith, few))

module _ {S V U : Type 0} ⦃ev : Eq V⦄ ⦃eu : Eq U⦄ (url_of : S → U) where
  merge_spec-resolved :
      (pkg_id : Option (PackageId S V)) (p : Profile) (es : Entries V U) (ss : List Settings)
      → Single url_of pkg_id (overrides es)
      → merge_spec url_of pkg_id (resolved p ss) es
        ≡ ok (resolved p (spec_layer url_of pkg_id es ++ ss))
  merge_spec-resolved none p es ss single = refl
  merge_spec-resolved (some id) p es ss single =
      merge_single-resolved p (matching url_of id es) ss single

  merge_overrides-resolved :
      (pkg_id : Option (PackageId S V)) (is_member : Bool) (p : Profile) (o : Overrides V U)
      (ss : List Settings)
      → Single url_of pkg_id o
      → merge_overrides url_of pkg_id is_member (resolved p ss) o
        ≡ ok (resolved p (override_layers url_of pkg_id is_member o ++ ss))
  merge_overrides-resolved pkg_id is_member p no_overrides ss single = refl
  merge_overrides-resolved pkg_id is_member p (overrides es) ss single =
      let everyone = if is_member then [] else list_of (all_of es) in
      rw (merge_all-resolved is_member p (all_of es) ss) (
        rw (append_assoc (spec_layer url_of pkg_id es) everyone ss)
          (merge_spec-resolved pkg_id p es (everyone ++ ss) single))

  merge_toml-resolved :
      (pkg_id : Option (PackageId S V)) (is_member : Bool) (unit_for : UnitFor) (p : Profile)
      (toml : TomlProfile V U) (ss : List Settings)
      → Single url_of pkg_id (overrides_of toml)
      → merge_toml url_of pkg_id is_member unit_for (resolved p ss) toml
        ≡ ok (resolved p (toml_layers url_of pkg_id is_member unit_for toml ++ ss))
  unfolding merge_toml
  merge_toml-resolved pkg_id is_member unit_for p (profile s o b) ss single =
      let named = override_layers url_of pkg_id is_member o in
      let build = build_layer unit_for b in
      let assoc : (named ++ (build ++ s ∷ [])) ++ ss ≡ named ++ (build ++ s ∷ ss) =
        append_assoc named (build ++ s ∷ []) ss
        ∙ ap (λ l. named ++ l) (append_assoc build (s ∷ []) ss) in
      rw (merge_profile-resolved p s ss, merge_build-resolved unit_for p b (s ∷ ss))
        (merge_overrides-resolved pkg_id is_member p o (build ++ s ∷ ss) single
          ∙ ap (λ l. ok (resolved p l)) (sym assoc))

  merge_toml?-resolved :
      (pkg_id : Option (PackageId S V)) (is_member : Bool) (unit_for : UnitFor) (p : Profile)
      (toml : Option (TomlProfile V U)) (ss : List Settings)
      → FileSingle url_of pkg_id toml
      → merge_toml? url_of pkg_id is_member unit_for toml (resolved p ss)
        ≡ ok (resolved p (file_layers url_of pkg_id is_member unit_for toml ++ ss))
  merge_toml?-resolved pkg_id is_member unit_for p none ss single = refl
  merge_toml?-resolved pkg_id is_member unit_for p (some toml) ss single =
      merge_toml-resolved pkg_id is_member unit_for p toml ss single

  -- Each field is that of the strongest layer that gives it.
  pub make_profile-resolved :
      (maker : ProfileMaker V U) (pkg_id : Option (PackageId S V)) (is_member : Bool)
      (unit_for : UnitFor)
      → FileSingle url_of pkg_id maker.toml
      → FileSingle url_of pkg_id maker.config
      → make_profile url_of maker pkg_id is_member unit_for
        ≡ ok (resolved maker.default (layers url_of maker pkg_id is_member unit_for))
  unfolding make_profile layers
  make_profile-resolved maker pkg_id is_member unit_for in_toml in_config =
      let below = file_layers url_of pkg_id is_member unit_for maker.toml in
      let first : merge_toml? url_of pkg_id is_member unit_for maker.toml maker.default
          ≡ ok (resolved maker.default below) =
        rw (sym (append-nil below))
          (merge_toml?-resolved pkg_id is_member unit_for maker.default maker.toml [] in_toml) in
      rw first
        (merge_toml?-resolved pkg_id is_member unit_for maker.default maker.config below in_config)
