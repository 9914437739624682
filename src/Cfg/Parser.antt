-- ===== src/Cfg/Parser.antt =====
-- The parser of util/cfg.rs. The tokens are read on demand, so its state is the text that is left,
-- and a peek is `next` with the text kept. Each call of `expr` and each round of its loop costs a
-- unit of fuel.
use toml.Prelude.{
  ℕ, zero, suc, ◌+◌, ◌*◌, Text, codes, Option, none, some, ◌==◌, length, is_some, if◌then◌else◌,
  Result, ok, err, out_of_fuel, ◌>>=◌, inl, inr, list_eq, nat_eq,
}
use toml.Cfg.{Cfg, CfgExpr, CfgExprs, name, key_pair, value, nil, cons}
use toml.Cfg.Lexer.{
  Token, left_paren, right_paren, comma, equals, ident, string, token_beq, classify, CfgError,
  expected, malformed_cfg, more_than_one_expr, Lexed, next,
}

abbrev pub Parser : Type 0 → Type 0
Parser A = Text → Result CfgError (A × Text)

abbrev pub try_token : Token → Lexed → Option Text
try_token token (some (inr t, s)) = if token_beq token t then some s else none
try_token token _ = none

-- `Parser::try`: the text behind the token, if it is next
unfoldable pub try : Token → Text → Option Text
unfolding next
try token s = try_token token (next s)

abbrev pub eat_token : Token → Lexed → Result CfgError Text
eat_token token none = err (expected (classify token) none)
eat_token token (some (inr t, s)) =
    if token_beq token t then ok s else err (expected (classify token) (some (classify t)))
eat_token token (some (inl e, s)) = err e

unfoldable pub eat : Token → Text → Result CfgError Text
unfolding next
eat token s = eat_token token (next s)

-- behind the `=` of a pair
abbrev pub pair_token : Text → Lexed → Result CfgError (Cfg × Text)
pair_token key none = err (expected "a string" none)
pair_token key (some (inr (string v), s)) = ok (key_pair key v, s)
pair_token key (some (inr t, s)) = err (expected "a string" (some (classify t)))
pair_token key (some (inl e, s)) = err e

abbrev pub cfg_pair : Text → Text → Option Text → Result CfgError (Cfg × Text)
cfg_pair key s none = ok (name key, s)
cfg_pair key s (some s') = pair_token key (next s')

abbrev pub cfg_name : Text → Text → Result CfgError (Cfg × Text)
cfg_name key s = cfg_pair key s (try equals s)

abbrev pub cfg_token : Lexed → Result CfgError (Cfg × Text)
cfg_token none = err (expected "identifier" none)
cfg_token (some (inr (ident key), s)) = cfg_name key s
cfg_token (some (inr t, s)) = err (expected "identifier" (some (classify t)))
cfg_token (some (inl e, s)) = err e

-- `Parser::cfg`
unfoldable pub cfg : Parser Cfg
unfolding try next
cfg s = cfg_token (next s)

abbrev pub op_all : Text
op_all = codes "all"

abbrev pub op_any : Text
op_any = codes "any"

abbrev pub op_not : Text
op_not = codes "not"

-- what `expr` takes as the operator that it peeks at
pub data Op : Type 0 where
  all any not : Op

unfoldable pub op_of : Text → Option Op
op_of w =
    if w == op_all
    then some all
    else if w == op_any
    then some any
    else if w == op_not
    then some not
    else none

module _ (expr : Parser CfgExpr) (args : Parser CfgExprs) where
  unfoldable pub value_at : Parser CfgExpr
  unfolding cfg
  value_at s = cfg s >>= λ (c, s₁). ok (value c, s₁)

  -- behind the identifier of an operator, or at the text of a value
  abbrev pub expr_op : Text → Text → Option Op → Result CfgError (CfgExpr × Text)
  expr_op s rest (some all) =
      eat left_paren rest >>= λ s₁. args s₁ >>= λ (es, s₂). ok (CfgExpr.all es, s₂)
  expr_op s rest (some any) =
      eat left_paren rest >>= λ s₁. args s₁ >>= λ (es, s₂). ok (CfgExpr.any es, s₂)
  expr_op s rest (some not) = eat left_paren rest >>= λ s₁.
      expr s₁ >>= λ (e, s₂). eat right_paren s₂ >>= λ s₃. ok (CfgExpr.not e, s₃)
  expr_op s rest none = value_at s

  -- the match on the peeked token
  abbrev pub expr_token : Text → Lexed → Result CfgError (CfgExpr × Text)
  expr_token s none = err (expected "start of a cfg expression" none)
  expr_token s (some (inr (ident w), rest)) = expr_op s rest (op_of w)
  expr_token s (some (inr t, rest)) = value_at s
  expr_token s (some (inl e, rest)) = err e

  -- behind an element of the list
  abbrev pub args_more : CfgExpr → Text → Option Text → Result CfgError (CfgExprs × Text)
  args_more e s (some s₁) = args s₁ >>= λ (es, s₂). ok (cons e es, s₂)
  args_more e s none = eat right_paren s >>= λ s₁. ok (cons e nil, s₁)

  -- the condition of the `while` loop
  abbrev pub args_round : Text → Option Text → Result CfgError (CfgExprs × Text)
  args_round s (some s₁) = ok (nil, s₁)
  args_round s none = expr s >>= λ (e, s₁). args_more e s₁ (try comma s₁)

-- `Parser::expr`; `args` is its `while` loop, behind the left parenthesis
unfoldable mutual
  unfolding next try eat op_of value_at

  pub expr : ℕ → Parser CfgExpr
  expr zero s = out_of_fuel
  expr (suc f) s = expr_token (expr f) (args f) s (next s)

  pub args : ℕ → Parser CfgExprs
  args zero s = out_of_fuel
  args (suc f) s = args_round (expr f) (args f) s (try right_paren s)

-- `FromStr for Cfg`
unfoldable pub cfg_from_str : Text → Result CfgError Cfg
unfolding cfg
cfg_from_str s = cfg s >>= λ (c, rest). if is_some (next rest) then err malformed_cfg else ok c

-- `FromStr for CfgExpr`
unfoldable pub expr_from_str : Text → Result CfgError CfgExpr
unfolding expr
expr_from_str s = expr (2 * length s + 2) s >>= λ (e, rest).
    if is_some (next rest) then err more_than_one_expr else ok e
