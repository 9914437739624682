-- ===== src/Cfg/Key.antt =====
-- `CfgExpr::matches_key` of util/cfg.rs, for the keys `cfg(..)` of a `target` table.
use toml.Prelude.{
  ℕ, ◌-◌, Text, codes, ◌≡◌, refl, Bool, true, false, ◌&&◌, Option, none, some, List, [], ◌∷◌, ◌++◌,
  ◌↔◌, inl, inr, arith, ◌==◌, list_eq, nat_eq, option_eq, eqb, length, length-append, last?,
  last?-snoc, slice, take, drop, sym, ap, ◌∙◌, suc, option_eq_iff, take-last, take-length_append,
  if◌then◌else◌, Result, ok, err, panic, out_of_fuel, Option-cases, Bool-cases,
}
use toml.Cfg.{Cfg, CfgExpr, matches}
use toml.Cfg.Lexer.{CfgError}
use toml.Cfg.Parser.{expr_from_str}
use toml.Cfg.Display.{display}
use toml.Cfg.WellFormed.{well_formed}
use toml.Cfg.RoundTrip.{expr_from_str-display}

-- str::starts_with
abbrev pub starts_with : Text → Text → Bool
starts_with s [] = true
starts_with [] (p ∷ ps) = false
starts_with (c ∷ s) (p ∷ ps) = eqb c p && starts_with s ps

-- str::ends_with, at one character
abbrev pub ends_with : Text → ℕ → Bool
ends_with s c = last? s == some c

-- what stands between `cfg(` and `)`
unfoldable pub cfg_inner : Text → Option Text
cfg_inner key =
    if starts_with key (codes "cfg(") && ends_with key b')'
    then some (slice key 4 (length key - 1))
    else none

abbrev parsed_matches : Result CfgError CfgExpr → List Cfg → Bool
parsed_matches (ok ce) target_cfg = matches ce target_cfg
parsed_matches _ target_cfg = false

abbrev inner_matches : Option Text → List Cfg → Bool
inner_matches none target_cfg = false
inner_matches (some cfg) target_cfg = parsed_matches (expr_from_str cfg) target_cfg

unfoldable pub matches_key : Text → List Cfg → Bool
unfolding cfg_inner expr_from_str matches
matches_key key target_cfg = inner_matches (cfg_inner key) target_cfg

pub starts_with→eq : (s p : Text) → starts_with s p ≡ true → s ≡ p ++ drop (length p) s
starts_with→eq s [] h = refl
starts_with→eq [] (p ∷ ps) h = cc
starts_with→eq (c ∷ s) (p ∷ ps) h = ground (arith, starts_with→eq s ps)

inner_of_opened : (t s : Text) → cfg_inner (codes "cfg(" ++ t) ≡ some s → t ≡ s ++ codes ")"
unfolding cfg_inner
inner_of_opened [] s h = cc
inner_of_opened (c ∷ t) s h = elim (Bool-cases (last? (c ∷ t) == some b')')) [
  | inl closed ↦
      let n : suc (suc (suc (suc (suc (length t))))) - 1 - 4 ≡ suc (length t) - 1 = omega arith in
      let is_s : take (suc (length t) - 1) (c ∷ t) ≡ s = cc (rw (closed, n) at h) in
      sym (take-last (c ∷ t) b')' ((option_eq_iff _ _).0 closed)) ∙ rw is_s
  | inr open_end ↦ cc (rw open_end at h)
]

inner_of_closed : (s : Text) → cfg_inner (codes "cfg(" ++ (s ++ codes ")")) ≡ some s
unfolding cfg_inner
inner_of_closed s =
    let n : suc (suc (suc (suc (length (s ++ codes ")"))))) - 1 - 4 ≡ length s =
      omega (arith, length-append s (codes ")")) in
    rw (last?-snoc (codes "cfg(" ++ s) b')', n) (rw (take-length_append s (codes ")")))

cfg_inner-starts : (key s : Text) → cfg_inner key ≡ some s → starts_with key (codes "cfg(") ≡ true
unfolding cfg_inner
cfg_inner-starts key s h = elim (Bool-cases (starts_with key (codes "cfg("))) [
  | inl e ↦ e
  | inr e ↦ cc (rw e at h)
]

-- The text between the parentheses is found exactly where the key is `cfg(`, that text and `)`.
pub cfg_inner_iff :
    (key s : Text) → (cfg_inner key ≡ some s) ↔ (key ≡ codes "cfg(" ++ (s ++ codes ")"))
cfg_inner_iff key s = (found, λ e. rw e (inner_of_closed s))
  where
    found : cfg_inner key ≡ some s → key ≡ codes "cfg(" ++ (s ++ codes ")")
    found h =
        let opened = starts_with→eq key (codes "cfg(") (cfg_inner-starts key s h) in
        opened ∙ ap (λ t. codes "cfg(" ++ t) (inner_of_opened (drop 4 key) s (rw opened at h))

-- A target table's key `cfg(..)` around a displayed expression applies exactly when the expression
-- matches the configuration.
pub matches_key-display :
    (e : CfgExpr) (target_cfg : List Cfg)
    → well_formed e ≡ true
    → matches_key (codes "cfg(" ++ (display e ++ codes ")")) target_cfg ≡ matches e target_cfg
unfolding matches_key
matches_key-display e target_cfg h = rw (inner_of_closed (display e), expr_from_str-display e h)

parsed_matches-eq_true :
    (r : Result CfgError CfgExpr) (target_cfg : List Cfg)
    → parsed_matches r target_cfg ≡ true
    → (e : CfgExpr) × (r ≡ ok e) × (matches e target_cfg ≡ true)
parsed_matches-eq_true (ok e) target_cfg h = (e, refl, h)
parsed_matches-eq_true (err x) target_cfg h = cc
parsed_matches-eq_true panic target_cfg h = cc
parsed_matches-eq_true out_of_fuel target_cfg h = cc

-- `matches_key` holds of a key exactly when the key is `cfg(`, a text that reads as an expression
-- which matches, and `)`.
pub matches_key_iff :
    (key : Text) (target_cfg : List Cfg)
    → (matches_key key target_cfg ≡ true) ↔ (
        (s : Text) × (e : CfgExpr) × (key ≡ codes "cfg(" ++ (s ++ codes ")"))
        × (expr_from_str s ≡ ok e)
        × (matches e target_cfg ≡ true))
unfolding matches_key
matches_key_iff key target_cfg = (to, from)
  where
    to :
        matches_key key target_cfg ≡ true
        → (s : Text) × (e : CfgExpr) × (key ≡ codes "cfg(" ++ (s ++ codes ")"))
          × (expr_from_str s ≡ ok e)
          × (matches e target_cfg ≡ true)
    to h = elim (Option-cases (cfg_inner key)) [
      | inl none_there ↦ cc (rw none_there at h)
      | inr (s, there) ↦
          let (e, parsed, yes_it_does) =
            parsed_matches-eq_true (expr_from_str s) target_cfg (rw there at h) in
          (s, e, (cfg_inner_iff key s).0 there, parsed, yes_it_does)
    ]

    from :
        ((s : Text) × (e : CfgExpr) × (key ≡ codes "cfg(" ++ (s ++ codes ")"))
          × (expr_from_str s ≡ ok e)
          × (matches e target_cfg ≡ true))
        → matches_key key target_cfg ≡ true
    from (s, e, shape, parsed, holds) = rw ((cfg_inner_iff key s).1 shape, parsed) holds
