-- ===== src/Cfg/Tokens.antt =====
--
use toml.Prelude.{
  ℕ, zero, suc, ◌+◌, ◌*◌, ◌≤◌, ◌<◌, max, Text, codes, ◌≡◌, refl, Bool, true, false, not, ◌&&◌, ◌||◌,
  Option, none, some, List, [], ◌∷◌, ◌++◌, inl, inr, append_assoc, append-nil, arith, length,
  length-append, eqb, is_some, list_eq, nat_eq, if◌then◌else◌, ok, Bool-cases, Option-cases, ◌∙◌,
  Bool-and, ap,
}
use toml.Prelude
use toml.Cfg.{Cfg, name, key_pair}
use toml.Cfg.Lexer.{equals, ident, is_ident_rest, scan_string, scan_ident, next}
use toml.Cfg.Parser.{try, cfg_name, cfg, op_of}
use toml.Cfg.Display.{display_cfg}
use toml.Cfg.WellFormed.{is_ident, is_plain, is_key, well_formed_cfg}

-- no identifier goes on into this text
abbrev breaks : Text → Bool
breaks [] = true
breaks (c ∷ r) = not (is_ident_rest c)

-- what follows an expression: the end, a comma or a closing parenthesis
abbrev pub boundary : Text → Bool
boundary [] = true
boundary (c ∷ r) = eqb c b',' || eqb c b')'

boundary-breaks : (r : Text) → boundary r ≡ true → breaks r ≡ true
unfolding is_ident_rest
boundary-breaks [] h = refl
boundary-breaks (c ∷ r) h = ground arith

scan_ident-append :
    (w r : Text)
    → Prelude.all is_ident_rest w ≡ true
    → breaks r ≡ true
    → scan_ident (w ++ r) ≡ (w, r)
unfolding scan_ident
scan_ident-append [] [] h b = refl
scan_ident-append [] (c ∷ r) h b = ground arith
scan_ident-append (c ∷ w) r h b = ground (arith, scan_ident-append w r)

next-ident :
    (w r : Text) → is_ident w ≡ true → breaks r ≡ true → next (w ++ r) ≡ some (inr (ident w), r)
unfolding next is_ident
next-ident [] r h b = cc
next-ident (c ∷ w) r h b = ground (arith, scan_ident-append w r)

scan_string-append : (v r : Text) → is_plain v ≡ true → scan_string (v ++ 0x22 ∷ r) ≡ some (v, r)
unfolding scan_string is_plain
scan_string-append [] r h = refl
scan_string-append (c ∷ v) r h = ground (arith, scan_string-append v r)

-- no `=` follows the expression
try-equals : (r : Text) → boundary r ≡ true → try equals r ≡ none
unfolding try
try-equals [] h = refl
try-equals (c ∷ r) h = ground arith

pair-display :
    (k v r : Text)
    → is_plain v ≡ true
    → cfg_name k (codes " = \"" ++ (v ++ 0x22 ∷ r)) ≡ ok (key_pair k v, r)
unfolding try next
pair-display k v r h = rw (scan_string-append v r h)

quoted-append :
    (k v r : Text) → display_cfg (key_pair k v) ++ r ≡ k ++ (codes " = \"" ++ (v ++ 0x22 ∷ r))
unfolding display_cfg
quoted-append k v r = simp append_assoc

-- The key of a value that `Display` wrote is read back, and is none of the operators.
abbrev key_of : Cfg → Text
key_of (name k) = k
key_of (key_pair k v) = k

abbrev behind_key : Cfg → Text → Text
behind_key (name k) r = r
behind_key (key_pair k v) r = codes " = \"" ++ (v ++ 0x22 ∷ r)

pub next-display_cfg :
    (c : Cfg) (r : Text)
    → well_formed_cfg c ≡ true
    → boundary r ≡ true
    → next (display_cfg c ++ r) ≡ some (inr (ident (key_of c)), behind_key c r)
unfolding display_cfg well_formed_cfg is_key is_ident_rest
next-display_cfg (name k) r h b = next-ident k r (ground (arith, h)) (boundary-breaks r b)
next-display_cfg (key_pair k v) r h b =
    rw (quoted-append k v r) (next-ident k (behind_key (key_pair k v) r) (ground (arith, h)) refl)

pub cfg-display :
    (c : Cfg) (r : Text)
    → well_formed_cfg c ≡ true
    → boundary r ≡ true
    → cfg (display_cfg c ++ r) ≡ ok (c, r)
unfolding cfg well_formed_cfg
cfg-display (name k) r h b = rw (next-display_cfg (name k) r h b, try-equals r b)
cfg-display (key_pair k v) r h b =
    rw (next-display_cfg (key_pair k v) r h b) (pair-display k v r (ground (arith, h)))

pub op_of-key : (c : Cfg) → well_formed_cfg c ≡ true → op_of (key_of c) ≡ none
unfolding well_formed_cfg is_key
op_of-key (name k) h = elim (Option-cases (op_of k)) [
  | inl e ↦ e
  | inr (o, e) ↦ absurd (ground (arith, e))
]
op_of-key (key_pair k v) h = elim (Option-cases (op_of k)) [
  | inl e ↦ e
  | inr (o, e) ↦ absurd (ground (arith, e))
]
