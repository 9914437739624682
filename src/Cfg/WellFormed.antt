-- ===== src/Cfg/WellFormed.antt =====
-- util/cfg.rs: which expressions the grammar of `Parser::expr` can write, and what `Tokenizer::next`
-- hands over.
use toml.Prelude.{
  ℕ, ◌+◌, ◌*◌, ◌≤◌, ◌<◌, Text, ◌≡◌, refl, Bool, true, false, ◌&&◌, Option, none, some, List, [],
  ◌∷◌, ◌++◌, ◌⊎◌, inl, inr, arith, length, eqb, is_some, Bool-cases, Option-cases, list_eq, nat_eq,
  if◌then◌else◌,
}
use mathlib.Core.Bool
use toml.Prelude
use toml.Cfg.{Cfg, CfgExpr, CfgExprs, name, key_pair, value, nil, cons}
use toml.Cfg.Lexer.{
  Token, ident, string, CfgError, Lexed, is_ident_start, is_ident_rest, scan_string, scan_ident,
  string_token, ident_token, next,
}
use toml.Cfg.Parser.{op_of}

unfoldable pub is_ident : Text → Bool
unfolding is_ident_start is_ident_rest
is_ident [] = false
is_ident (c ∷ w) = is_ident_start c && Prelude.all is_ident_rest w

-- no quote inside
unfoldable pub is_plain : Text → Bool
is_plain v = Prelude.all (λ c. Bool.not (eqb c 0x22)) v

-- an identifier at the head of a value is none of the operators
unfoldable pub is_key : Text → Bool
unfolding is_ident op_of
is_key k = is_ident k && Bool.not (is_some (op_of k))

-- `q` is what is asked of the identifier.
abbrev pub cfg_ok : (Text → Bool) → Cfg → Bool
cfg_ok q (name k) = q k
cfg_ok q (key_pair k v) = q k && is_plain v

unfoldable pub well_formed_cfg : Cfg → Bool
unfolding is_key is_plain
well_formed_cfg c = cfg_ok is_key c

unfoldable mutual
  unfolding well_formed_cfg

  pub well_formed : CfgExpr → Bool
  well_formed (CfgExpr.not e) = well_formed e
  well_formed (CfgExpr.all es) = all_well_formed es
  well_formed (CfgExpr.any es) = all_well_formed es
  well_formed (value c) = well_formed_cfg c

  pub all_well_formed : CfgExprs → Bool
  all_well_formed nil = true
  all_well_formed (cons e es) = well_formed e && all_well_formed es

abbrev pub token_ok : Token → Bool
token_ok (ident w) = is_ident w
token_ok (string v) = is_plain v
token_ok _ = true

-- A token read from `s` is one of the grammar, and the text behind it is shorter.
pub data Lexes (s : Text) : Lexed → Type 0 where
  at_end : Lexes s none
  bad : {e : CfgError} {r : Text} → length r < length s → Lexes s (some (inl e, r))
  token :
      {t : Token} {r : Text} → token_ok t ≡ true → length r < length s → Lexes s (some (inr t, r))

scan_ident_lem :
    (s : Text)
    → (Prelude.all is_ident_rest (scan_ident s).0 ≡ true) × (length (scan_ident s).1 ≤ length s)
unfolding scan_ident
scan_ident_lem [] = (refl, omega arith)
scan_ident_lem (c ∷ s) = ground (arith, scan_ident_lem s)

scan_string_lem :
    (s v r : Text) → scan_string s ≡ some (v, r) → (is_plain v ≡ true) × (length r < length s)
unfolding scan_string is_plain
scan_string_lem [] v r h = cc
scan_string_lem (c ∷ s) v r h = elim (Bool-cases (eqb c 0x22)) [
  | inl quote ↦ ground arith
  | inr plain ↦ elim (Option-cases (scan_string s)) [
    | inl missing ↦ absurd (ground arith)
    | inr ((v', r'), found) ↦ ground (arith, scan_string_lem s v' r' found)
  ]
]

Lexes-skip : (s : Text) (c : ℕ) {l : Lexed} → Lexes s l → Lexes (c ∷ s) l
Lexes-skip s c at_end = at_end
Lexes-skip s c (bad h) = bad (omega arith)
Lexes-skip s c (token k h) = token k (omega arith)

Lexes-if :
    {s : Text} (b : Bool) {x y : Lexed}
    → (b ≡ true → Lexes s x)
    → Lexes s y
    → Lexes s (if b then x else y)
Lexes-if true hx hy = hx refl
Lexes-if false hx hy = hy

Lexes-string :
    (s : Text) (c : ℕ) (o : Option (Text × Text))
    → ((v r : Text) → o ≡ some (v, r) → (is_plain v ≡ true) × (length r < length s))
    → Lexes (c ∷ s) (string_token o)
Lexes-string s c none h = bad (omega arith)
Lexes-string s c (some (v, r)) h = let (plain, short) = h v r refl in token plain (omega arith)

Lexes-ident :
    (s : Text) (c : ℕ) → is_ident_start c ≡ true → Lexes (c ∷ s) (ident_token c (scan_ident s))
unfolding is_ident
Lexes-ident s c start =
    token (ground (arith, start, scan_ident_lem s)) (omega (arith, scan_ident_lem s))

pub next-Lexes : (s : Text) → Lexes s (next s)
unfolding next
next-Lexes [] = at_end
next-Lexes (c ∷ s) =
    Lexes-if (eqb c b' ') (λ _. Lexes-skip s c (next-Lexes s))
      (Lexes-if (eqb c b'(') (λ _. token refl (omega arith))
        (Lexes-if (eqb c b')') (λ _. token refl (omega arith))
          (Lexes-if (eqb c b',') (λ _. token refl (omega arith))
            (Lexes-if (eqb c b'=') (λ _. token refl (omega arith))
              (Lexes-if (eqb c 0x22) (λ _. Lexes-string s c (scan_string s) (scan_string_lem s))
                (Lexes-if (is_ident_start c) (Lexes-ident s c) (bad (omega arith))))))))
