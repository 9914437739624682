-- ===== src/Cfg/Sound.antt =====
-- The parser of util/cfg.rs returns on every text, and what it accepts is well formed.
use toml.Prelude.{
  ℕ, zero, suc, ◌+◌, ◌*◌, ◌≤◌, ◌<◌, Text, ◌≡◌, ◌≢◌, refl, Bool, true, Option, none, some, inl, inr,
  arith, length, is_some, list_eq, nat_eq, Result, ok, panic, out_of_fuel, Yields, given, refused,
  Yields-bind, Yields-map, Yields-if, Yields-ok, Yields-out_of_fuel, Yields-panic,
}
use toml.Cfg.{CfgExpr, CfgExprs}
use toml.Cfg.Lexer.{
  Token, left_paren, right_paren, comma, equals, ident, string, token_beq, CfgError, Lexed, next,
}
use toml.Cfg.Parser.{
  try_token, try, eat_token, eat, pair_token, cfg_pair, cfg_name, cfg_token, cfg, Op, all, any, not,
  op_of, expr, args, value_at, expr_op, expr_token, args_more, args_round, expr_from_str,
}
use toml.Cfg.WellFormed.{
  is_ident, is_key, cfg_ok, well_formed, all_well_formed, Lexes, at_end, bad, token, next-Lexes,
}

-- a result of the grammar, and less text left than there was
abbrev Parsed {ℓ} : {A : Type ℓ} → (A → Bool) → Text → A × Text → Type 0
Parsed p s (a, r) = (p a ≡ true) × (length r < length s)

try-shorter : (t : Token) (s r : Text) → try t s ≡ some r → length r < length s
unfolding try
try-shorter t s r h = go (next s) (next-Lexes s) h
  where
    go : (l : Lexed) → Lexes s l → try_token t l ≡ some r → length r < length s
    go none at_end h = cc
    go (some (inl e, r')) (bad lt) h = cc
    go (some (inr k, r')) (token w lt) h = ground arith

eat-Yields : (t : Token) (s : Text) → Yields (λ r. length r < length s) (eat t s)
unfolding eat
eat-Yields t s = go (next s) (next-Lexes s)
  where
    go : (l : Lexed) → Lexes s l → Yields (λ r. length r < length s) (eat_token t l)
    go none at_end = refused
    go (some (inl e, r')) (bad lt) = refused
    go (some (inr k, r')) (token w lt) = Yields-if (token_beq t k) (λ _. given lt) refused

-- `s` is the text behind the identifier
cfg_name-Yields :
    (q : Text → Bool) (k s : Text)
    → q k ≡ true
    → Yields (λ (c, r). (cfg_ok q c ≡ true) × (length r ≤ length s)) (cfg_name k s)
unfolding try
cfg_name-Yields q k s h = at_equals (try equals s) refl
  where
    pair :
        (s' : Text) (l : Lexed)
        → length s' < length s
        → Lexes s' l
        → Yields (λ (c, r). (cfg_ok q c ≡ true) × (length r ≤ length s)) (pair_token k l)
    pair s' none lt at_end = refused
    pair s' (some (inl e, r)) lt (bad b) = refused
    pair s' (some (inr (string v), r)) lt (token w b) = given (ground (arith, h, w), omega arith)
    pair s' (some (inr t, r)) lt (token w b) = refused

    at_equals :
        (o : Option Text)
        → try equals s ≡ o
        → Yields (λ (c, r). (cfg_ok q c ≡ true) × (length r ≤ length s)) (cfg_pair k s o)
    at_equals none e = given (h, omega arith)
    at_equals (some s') e = pair s' (next s') (try-shorter equals s s' e) (next-Lexes s')

cfg-Yields :
    (s : Text) → Yields (λ (c, r). (cfg_ok is_ident c ≡ true) × (length r < length s)) (cfg s)
unfolding cfg
cfg-Yields s = at_head (next s) (next-Lexes s)
  where
    at_head :
        (l : Lexed)
        → Lexes s l
        → Yields (λ (c, r). (cfg_ok is_ident c ≡ true) × (length r < length s)) (cfg_token l)
    at_head none at_end = refused
    at_head (some (inl e, r)) (bad b) = refused
    at_head (some (inr (ident k), r)) (token w b) =
        Yields-map (cfg_name-Yields is_ident k r w) (λ _ p. (p.0, omega arith))
    at_head (some (inr t, r)) (token w b) = refused

module _ (expr : Text → Result CfgError (CfgExpr × Text))
    (args : Text → Result CfgError (CfgExprs × Text)) (f : ℕ)
    (expr_ih : (s : Text) → 2 * length s + 2 ≤ f → Yields (Parsed well_formed s) (expr s))
    (args_ih : (s : Text) → 2 * length s + 3 ≤ f → Yields (Parsed all_well_formed s) (args s)) where
  -- a value whose identifier is no operator
  value_at-Yields :
      (s k r : Text)
      → next s ≡ some (inr (ident k), r)
      → is_key k ≡ true
      → length r < length s
      → Yields (Parsed well_formed s) (value_at expr args s)
  unfolding value_at cfg well_formed
  value_at-Yields s k r e h lt =
      rw e (Yields-bind (cfg_name-Yields is_key k r h) λ (c, r') p. given (p.0, omega arith))

  value_at-Yields_error :
      (s r : Text) (t : Token)
      → next s ≡ some (inr t, r)
      → ((k : Text) → t ≢ ident k)
      → Yields (Parsed well_formed s) (value_at expr args s)
  unfolding value_at cfg
  value_at-Yields_error s r left_paren e h = rw e refused
  value_at-Yields_error s r (ident k) e h = absurd (h k refl)
  value_at-Yields_error s r _ e h = rw e refused

  expr_op-Yields :
      (s k r : Text) (o : Option Op)
      → op_of k ≡ o
      → next s ≡ some (inr (ident k), r)
      → is_ident k ≡ true
      → length r < length s
      → 2 * length s + 2 ≤ suc f
      → Yields (Parsed well_formed s) (expr_op expr args s r o)
  unfolding is_key well_formed
  expr_op-Yields s k r none o e w lt h = value_at-Yields s k r e (ground (arith, o, w)) lt
  expr_op-Yields s k r (some all) o e w lt h =
      Yields-bind (eat-Yields left_paren r)
        λ s₁ p. Yields-bind (args_ih s₁ (omega arith)) λ (es, s₂) q. given (q.0, omega arith)
  expr_op-Yields s k r (some any) o e w lt h =
      Yields-bind (eat-Yields left_paren r)
        λ s₁ p. Yields-bind (args_ih s₁ (omega arith)) λ (es, s₂) q. given (q.0, omega arith)
  expr_op-Yields s k r (some not) o e w lt h = Yields-bind (eat-Yields left_paren r) λ s₁ p.
      Yields-bind (expr_ih s₁ (omega arith))
        λ (e', s₂) q. Yields-bind (eat-Yields right_paren s₂) λ s₃ p'. given (q.0, omega arith)

  expr_token-Yields :
      (s : Text) (l : Lexed)
      → next s ≡ l
      → Lexes s l
      → 2 * length s + 2 ≤ suc f
      → Yields (Parsed well_formed s) (expr_token expr args s l)
  expr_token-Yields s none e at_end h = refused
  expr_token-Yields s (some (inl x, r)) e (bad lt) h = refused
  expr_token-Yields s (some (inr (ident k), r)) e (token w lt) h =
      expr_op-Yields s k r (op_of k) refl e w lt h
  expr_token-Yields s (some (inr left_paren, r)) e (token w lt) h =
      value_at-Yields_error s r left_paren e (λ k. cc)
  expr_token-Yields s (some (inr right_paren, r)) e (token w lt) h =
      value_at-Yields_error s r right_paren e (λ k. cc)
  expr_token-Yields s (some (inr comma, r)) e (token w lt) h =
      value_at-Yields_error s r comma e (λ k. cc)
  expr_token-Yields s (some (inr equals, r)) e (token w lt) h =
      value_at-Yields_error s r equals e (λ k. cc)
  expr_token-Yields s (some (inr (string v), r)) e (token w lt) h =
      value_at-Yields_error s r (string v) e (λ k. cc)

  args_more-Yields :
      (s : Text) (e : CfgExpr) (o : Option Text)
      → try comma s ≡ o
      → well_formed e ≡ true
      → 2 * length s + 2 ≤ f
      → Yields
          (λ (es, r). (all_well_formed es ≡ true) × (length r < length s))
          (args_more expr args e s o)
  unfolding well_formed
  args_more-Yields s e (some s₁) t w h =
      Yields-bind (args_ih s₁ (omega (arith, try-shorter comma s s₁ t)))
        λ (es, s₂) q. given (ground (arith, w, q.0), omega (arith, try-shorter comma s s₁ t))
  args_more-Yields s e none t w h =
      Yields-bind (eat-Yields right_paren s) λ s₁ p. given (ground (arith, w), p)

  args_round-Yields :
      (s : Text) (o : Option Text)
      → try right_paren s ≡ o
      → 2 * length s + 3 ≤ suc f
      → Yields (Parsed all_well_formed s) (args_round expr args s o)
  unfolding well_formed
  args_round-Yields s (some s₁) t h = given (refl, try-shorter right_paren s s₁ t)
  args_round-Yields s none t h = Yields-bind (expr_ih s (omega arith)) λ (e, s₁) p.
      Yields-map (args_more-Yields s₁ e (try comma s₁) refl p.0 (omega arith))
        λ (es, r) q. (q.0, omega arith)

mutual
  unfolding expr

  expr-Yields : (f : ℕ) (s : Text) → 2 * length s + 2 ≤ f → Yields (Parsed well_formed s) (expr f s)
  expr-Yields zero s h = absurd (omega arith)
  expr-Yields (suc f) s h =
      expr_token-Yields (expr f) (args f) f (expr-Yields f) (args-Yields f) s (next s) refl
        (next-Lexes s) h

  args-Yields :
      (f : ℕ) (s : Text) → 2 * length s + 3 ≤ f → Yields (Parsed all_well_formed s) (args f s)
  args-Yields zero s h = absurd (omega arith)
  args-Yields (suc f) s h =
      args_round-Yields (expr f) (args f) f (expr-Yields f) (args-Yields f) s (try right_paren s)
        refl h

-- On every text `CfgExpr::from_str` returns an expression or an error, within the fuel, and the
-- expression is well formed: its identifiers follow the lexical rules and are none of the operators,
-- and its strings hold no quote.
pub expr_from_str-Yields : (s : Text) → Yields (λ e. well_formed e ≡ true) (expr_from_str s)
unfolding expr_from_str
expr_from_str-Yields s =
    Yields-bind (expr-Yields (2 * length s + 2) s (omega arith))
      λ (e, r) p. Yields-if (is_some (next r)) (λ _. refused) (given p.0)

-- the parser does not run out of fuel
expr_from_str_returns : (s : Text) → (expr_from_str s ≢ out_of_fuel) × (expr_from_str s ≢ panic)
expr_from_str_returns s =
    (Yields-out_of_fuel (expr_from_str-Yields s), Yields-panic (expr_from_str-Yields s))

pub expr_from_str-well_formed :
    (s : Text) (e : CfgExpr) → expr_from_str s ≡ ok e → well_formed e ≡ true
expr_from_str-well_formed s e = Yields-ok (expr_from_str-Yields s)
