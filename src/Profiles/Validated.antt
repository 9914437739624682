-- ===== src/Profiles/Validated.antt =====
-- What the validation in `Profiles::new` makes sure of: the `validate` of util/toml/mod.rs.
use toml.Prelude.{
  Text, codes, Bool, true, false, Option, none, some, List, Result, ok, err, panic, out_of_fuel,
  bind-eq-ok, is_some, if◌then◌else◌, ◌≡◌, refl, ap, subst, ok-injective, arith,
}
use toml.Core.PackageId.{package_id_eq}
use toml.Profiles.Toml.{
  Settings, TomlProfile, profile, Overrides, no_overrides, overrides, Entries, nil, entry,
  BuildOverride, no_build_override, build_override, settings, has_overrides, TomlError, TomlWarning,
  TomlProfiles, require_feature, validate_override, validate_entries, check_overrides,
  check_build_override, validate, validate?, validate_profiles, ConfigProfiles, validate_config,
  chain_err,
}
use toml.Profiles.Maker.{
  CompileMode, ProfileMaker, Profiles, maker_of, of_profiles, validate_given, profiles_of,
  new_profiles,
}
use toml.Profiles.Single.{maker_of-cases}

-- settings that give none of the three
abbrev pub Silent : Settings → Type 0
Silent s = (s.panic ≡ none) × (s.lto ≡ none) × (s.rpath ≡ none)

not_some : {A : Type 0} (o : Option A) → is_some o ≡ false → o ≡ none
not_some none h = refl
not_some (some a) h = absurd (ground (arith, h))

-- what an error guards
refuse-ok :
    {E A : Type 0} (b : Bool) (e : E) (r : Result E A) {a : A}
    → (if b then err e else r) ≡ ok a
    → (b ≡ false) × (r ≡ ok a)
refuse-ok true e r same = cc
refuse-ok false e r same = (refl, same)

chain_err-ok :
    {A : Type 0} (name : Text) (r : Result TomlError A) {a : A} → chain_err name r ≡ ok a → r ≡ ok a
chain_err-ok name (ok a) same = same
chain_err-ok name (err e) same = cc
chain_err-ok name panic same = cc
chain_err-ok name out_of_fuel same = cc

module _ {V U : Type 0} where
  validate_override-Silent :
      (p : TomlProfile V U) {u : Unit {0}} → validate_override p ≡ ok u → Silent (settings p)
  unfolding validate_override
  validate_override-Silent (profile s o b) same =
      let (flat, same) = refuse-ok (has_overrides o b) _ _ same in
      let (p, same) = refuse-ok (is_some s.panic) _ _ same in
      let (l, same) = refuse-ok (is_some s.lto) _ _ same in
      let (r, same) = refuse-ok (is_some s.rpath) _ _ same in
      (not_some s.panic p, not_some s.lto l, not_some s.rpath r)

  abbrev pub SilentEntries : Entries V U → Type 0
  SilentEntries nil = Unit {0}
  SilentEntries (entry k p es) = Silent (settings p) × SilentEntries es

  validate_entries-Silent :
      (es : Entries V U) {u : Unit {0}} → validate_entries es ≡ ok u → SilentEntries es
  unfolding validate_entries
  validate_entries-Silent nil same = tt
  validate_entries-Silent (entry k p es) same =
      let (u, here, rest) = bind-eq-ok (validate_override p) (λ _. validate_entries es) same in
      (validate_override-Silent p here, validate_entries-Silent es rest)

  abbrev pub SilentOverrides : Overrides V U → Type 0
  SilentOverrides no_overrides = Unit {0}
  SilentOverrides (overrides es) = SilentEntries es

  abbrev pub SilentBuild : BuildOverride V U → Type 0
  SilentBuild no_build_override = Unit {0}
  SilentBuild (build_override p) = Silent (settings p)

  abbrev Plain : TomlProfile V U → Type 0
  Plain (profile s o b) = SilentOverrides o × SilentBuild b

  abbrev pub Plain? : Option (TomlProfile V U) → Type 0
  Plain? none = Unit {0}
  Plain? (some p) = Plain p

  check_build_override-Silent :
      (gate : Bool) (b : BuildOverride V U) {u : Unit {0}}
      → check_build_override gate b ≡ ok u
      → SilentBuild b
  check_build_override-Silent gate no_build_override same = tt
  check_build_override-Silent gate (build_override p) same =
      let (u, here, rest) = bind-eq-ok (require_feature gate) _ same in
      validate_override-Silent p rest

  check_overrides-Silent :
      (gate : Bool) (o : Overrides V U) {u : Unit {0}}
      → check_overrides gate o ≡ ok u
      → SilentOverrides o
  check_overrides-Silent gate no_overrides same = tt
  check_overrides-Silent gate (overrides es) same =
      let (u, here, rest) = bind-eq-ok (require_feature gate) _ same in
      validate_entries-Silent es rest

  validate-Plain :
      (gate : Bool) (p : Option (TomlProfile V U)) (name : Text) (ws : List TomlWarning)
      {after : List TomlWarning}
      → validate? gate p name ws ≡ ok after
      → Plain? p
  unfolding validate
  validate-Plain gate none name ws same = tt
  validate-Plain gate (some (profile s o b)) name ws same =
      let (u, build, rest) = bind-eq-ok (check_build_override gate b) _ same in
      let (v, named, end) = bind-eq-ok (check_overrides gate o) _ rest in
      (check_overrides-Silent gate o named, check_build_override-Silent gate b build)

  abbrev PlainProfiles : TomlProfiles V U → Type 0
  PlainProfiles p = Plain? p.test × Plain? p.doc × Plain? p.bench × Plain? p.dev × Plain? p.release

  validate_profiles-Plain :
      (gate : Bool) (p : TomlProfiles V U) (ws : List TomlWarning) {after : List TomlWarning}
      → validate_profiles gate p ws ≡ ok after
      → PlainProfiles p
  unfolding validate_profiles
  validate_profiles-Plain gate p ws same =
      let (w4, rest, release) = bind-eq-ok _ (validate? gate p.release (codes "release")) same in
      let (w3, rest, dev) = bind-eq-ok _ (validate? gate p.dev (codes "dev")) rest in
      let (w2, rest, bench) = bind-eq-ok _ (validate? gate p.bench (codes "bench")) rest in
      let (w1, test, doc) = bind-eq-ok _ (validate? gate p.doc (codes "doc")) rest in
      (
        validate-Plain gate p.test (codes "test") ws test,
        validate-Plain gate p.doc (codes "doc") w1 doc,
        validate-Plain gate p.bench (codes "bench") w2 bench,
        validate-Plain gate p.dev (codes "dev") w3 dev,
        validate-Plain gate p.release (codes "release") w4 release,
      )

  abbrev pub PlainMaker : ProfileMaker V U → Type 0
  PlainMaker maker = Plain? maker.toml × Plain? maker.config

  validate_config-Plain :
      (gate : Bool) (p : ConfigProfiles V U) (ws : List TomlWarning) {after : List TomlWarning}
      → validate_config gate p ws ≡ ok after
      → Plain? p.dev × Plain? p.release
  unfolding validate_config
  validate_config-Plain gate p ws same =
      let (w, dev, release) =
        bind-eq-ok (chain_err (codes "dev") (validate? gate p.dev (codes "dev") ws)) _ same in
      (
        validate-Plain gate p.dev (codes "dev") ws
            (chain_err-ok (codes "dev") (validate? gate p.dev (codes "dev") ws) dev),
        validate-Plain gate p.release (codes "release") w
            (chain_err-ok (codes "release") (validate? gate p.release (codes "release") w) release),
      )

  validate_given-Plain :
      (gate : Bool) (p : Option (TomlProfiles V U)) (ws : List TomlWarning)
      {after : List TomlWarning}
      → validate_given gate p ws ≡ ok after
      → (Plain? (of_profiles p (λ p. p.test)))
        × (Plain? (of_profiles p (λ p. p.doc)))
        × (Plain? (of_profiles p (λ p. p.bench)))
        × (Plain? (of_profiles p (λ p. p.dev)))
        × (Plain? (of_profiles p (λ p. p.release)))
  validate_given-Plain gate none ws same = (tt, tt, tt, tt, tt)
  validate_given-Plain gate (some p) ws same = validate_profiles-Plain gate p ws same

  pub new_profiles-Plain :
      (manifest : Option (TomlProfiles V U)) (config : ConfigProfiles V U) (gate : Bool)
      (ws : List TomlWarning) (profiles : Profiles V U) (after : List TomlWarning)
      (mode : CompileMode) (release : Bool)
      → new_profiles manifest config gate ws ≡ ok (profiles, after)
      → PlainMaker (maker_of profiles mode release)
  unfolding new_profiles
  new_profiles-Plain manifest config gate ws profiles after mode release same =
      let (w, first, rest) = bind-eq-ok (validate_given gate manifest ws) _ same in
      let (w', second, end) = bind-eq-ok (validate_config gate config w) _ rest in
      let (t, d, b, v, r) = validate_given-Plain gate manifest ws first in
      let (v', r') = validate_config-Plain gate config w second in
      subst (λ ps. PlainMaker (maker_of ps mode release)) (ap (λ q. q.0) (ok-injective end))
        (maker_of-cases PlainMaker (profiles_of manifest config) mode release (v, v') (r, r')
          (t, tt) (b, tt) (d, tt))
