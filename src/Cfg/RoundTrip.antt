-- ===== src/Cfg/RoundTrip.antt =====
-- util/cfg.rs: what `Display` writes, `from_str` reads back.
use toml.Prelude.{
  ℕ, zero, suc, ◌+◌, ◌*◌, ◌≤◌, max, Text, codes, ◌≡◌, refl, true, false, Option, none, some, [],
  ◌∷◌, ◌++◌, inl, inr, append_assoc, append-nil, arith, length, length-append, list_eq, nat_eq, ok,
  ◌∙◌, Bool-and, ap,
}
use toml.Cfg.{CfgExpr, CfgExprs, value, nil, cons}
use toml.Cfg.Lexer.{right_paren, comma, ident, Lexed, next}
use toml.Cfg.Parser.{
  try, eat, cfg, op_of, value_at, expr, args, Parser, Op, expr_op, expr_token, args_more,
  args_round, expr_from_str,
}
use toml.Cfg.Display.{display, comma_sep}
use toml.Cfg.WellFormed.{well_formed, all_well_formed}
use toml.Cfg.Sound.{expr_from_str-well_formed}
use toml.Cfg.Tokens.{boundary, next-display_cfg, cfg-display, op_of-key}

-- The fuel that reading an expression back takes.
unfoldable mutual
  need : CfgExpr → ℕ
  need (CfgExpr.not e) = suc (need e)
  need (CfgExpr.all es) = suc (need_args es)
  need (CfgExpr.any es) = suc (need_args es)
  need (value c) = 1

  need_args : CfgExprs → ℕ
  need_args nil = 1
  need_args (cons e es) = suc (max (need e) (need_args es))

mutual
  unfolding need display

  need-le : (e : CfgExpr) → need e ≤ 2 * length (display e) + 1
  need-le (CfgExpr.not e) = omega (arith, need-le e, length-append (display e) (codes ")"))
  need-le (CfgExpr.all es) =
      omega (arith, need_args-le es, length-append (comma_sep true es) (codes ")"))
  need-le (CfgExpr.any es) =
      omega (arith, need_args-le es, length-append (comma_sep true es) (codes ")"))
  need-le (value c) = omega arith

  need_args-le : (es : CfgExprs) → need_args es ≤ 2 * length (comma_sep true es) + 2
  need_args-le nil = omega arith
  need_args-le (cons e es) =
      omega (arith, need-le e, need_more-le es, length-append (display e) (comma_sep false es))

  need_more-le : (es : CfgExprs) → need_args es ≤ 2 * length (comma_sep false es) + 1
  need_more-le nil = omega arith
  need_more-le (cons e es) =
      omega (arith, need-le e, need_more-le es, length-append (display e) (comma_sep false es))

-- An element of a list is read up to a boundary.
boundary-more : (es : CfgExprs) (r : Text) → boundary (comma_sep false es ++ codes ")" ++ r) ≡ true
unfolding display
boundary-more nil r = refl
boundary-more (cons e es) r = refl

try-right_paren-display :
    (e : CfgExpr) (r : Text)
    → well_formed e ≡ true
    → boundary r ≡ true
    → try right_paren (display e ++ r) ≡ none
unfolding try display well_formed
try-right_paren-display (CfgExpr.not e) r h b = refl
try-right_paren-display (CfgExpr.all es) r h b = refl
try-right_paren-display (CfgExpr.any es) r h b = refl
try-right_paren-display (value c) r h b = rw (next-display_cfg c r h b)

-- A space before a token changes nothing.
module _ (E : Parser CfgExpr) (A : Parser CfgExprs) (s : Text) where
  expr_op-space : (r : Text) (o : Option Op) → expr_op E A (b' ' ∷ s) r o ≡ expr_op E A s r o
  unfolding value_at cfg next
  expr_op-space r none = refl
  expr_op-space r (some Op.all) = refl
  expr_op-space r (some _) = refl

  expr_token-space : (l : Lexed) → expr_token E A (b' ' ∷ s) l ≡ expr_token E A s l
  unfolding value_at cfg next
  expr_token-space none = refl
  expr_token-space (some (inl e, r)) = refl
  expr_token-space (some (inr (ident w), r)) = expr_op-space r (op_of w)
  expr_token-space (some (inr t, r)) = refl

expr-space : (f : ℕ) (s : Text) → expr f (b' ' ∷ s) ≡ expr f s
unfolding expr next
expr-space zero s = refl
expr-space (suc f) s = expr_token-space (expr f) (args f) s (next s)

args_round-space :
    (f : ℕ) (s : Text) (o : Option Text)
    → args_round (expr f) (args f) (b' ' ∷ s) o ≡ args_round (expr f) (args f) s o
args_round-space f s (some s₁) = refl
args_round-space f s none = rw (expr-space f s)

args-space : (f : ℕ) (s : Text) → args f (b' ' ∷ s) ≡ args f s
unfolding args try next
args-space zero s = refl
args-space (suc f) s = args_round-space f s (try right_paren s)

args_more-display :
    (e : CfgExpr) (es : CfgExprs) (f : ℕ) (r : Text)
    → args f (comma_sep true es ++ codes ")" ++ r) ≡ ok (es, r)
    → args_more
        (expr f)
        (args f)
        e
        (comma_sep false es ++ codes ")" ++ r)
        (try comma (comma_sep false es ++ codes ")" ++ r))
      ≡ ok (cons e es, r)
unfolding try eat display
args_more-display e nil f r ih = refl
args_more-display e (cons e' es) f r ih = rw (args-space, ih)

need_pos : (e : CfgExpr) → 1 ≤ need e
unfolding need
need_pos (CfgExpr.not e) = omega arith
need_pos _ = omega arith

need_args_pos : (es : CfgExprs) → 1 ≤ need_args es
unfolding need
need_args_pos nil = omega arith
need_args_pos _ = omega arith

args-cons :
    (e : CfgExpr) (es : CfgExprs) (f : ℕ) (r : Text)
    → well_formed e ≡ true
    → let more = comma_sep false es ++ codes ")" ++ r in
      expr f (display e ++ more) ≡ ok (e, more)
      → args f (comma_sep true es ++ codes ")" ++ r) ≡ ok (es, r)
      → args (suc f) (display e ++ more) ≡ ok (cons e es, r)
unfolding args
args-cons e es f r h head tail =
    rw
      (
        try-right_paren-display e (comma_sep false es ++ codes ")" ++ r) h (boundary-more es r),
        head,
      )
      (args_more-display e es f r tail)

comma_sep-cons :
    (e : CfgExpr) (es : CfgExprs) (r : Text)
    → comma_sep true (cons e es) ++ codes ")" ++ r
      ≡ display e ++ (comma_sep false es ++ codes ")" ++ r)
unfolding display
comma_sep-cons e es r = simp append_assoc

mutual
  unfolding expr display need well_formed

  expr-display :
      (e : CfgExpr) (f : ℕ) (r : Text)
      → need e ≤ f
      → well_formed e ≡ true
      → boundary r ≡ true
      → expr f (display e ++ r) ≡ ok (e, r)
  expr-display e zero r n h b = absurd (omega (arith, need_pos e))
  expr-display (CfgExpr.not e) (suc f) r n h b =
      rw (append_assoc, expr-display e f (codes ")" ++ r) (omega arith) h refl)
  expr-display (CfgExpr.all es) (suc f) r n h b = rw (args-display es f r (omega arith) h)
  expr-display (CfgExpr.any es) (suc f) r n h b = rw (args-display es f r (omega arith) h)
  expr-display (value c) (suc f) r n h b =
      rw (next-display_cfg c r h b, op_of-key c h, cfg-display c r h b)

  args-display :
      (es : CfgExprs) (f : ℕ) (r : Text)
      → need_args es ≤ f
      → all_well_formed es ≡ true
      → args f (comma_sep true es ++ codes ")" ++ r) ≡ ok (es, r)
  args-display es zero r n h = absurd (omega (arith, need_args_pos es))
  args-display nil (suc f) r n h = refl
  args-display (cons e es) (suc f) r n h =
      let split = Bool-and h in
      ap (args (suc f)) (comma_sep-cons e es r)
      ∙ args-cons e es f r split.0
          (expr-display e f (comma_sep false es ++ codes ")" ++ r) (omega arith) split.0
            (boundary-more es r))
          (args-display es f r (omega arith) split.1)

-- An expression that is well formed reads back from its own display.
pub expr_from_str-display : (e : CfgExpr) → well_formed e ≡ true → expr_from_str (display e) ≡ ok e
unfolding expr_from_str
expr_from_str-display e h =
    let whole = expr-display e (2 * length (display e) + 2) [] (omega (arith, need-le e)) h refl in
    rw (rw append-nil at whole) (unfold next in refl)

-- Reading is idempotent: what `from_str` accepts is displayed as a text that reads as the same
-- expression.
pub from_str-display-from_str :
    (s : Text) (e : CfgExpr) → expr_from_str s ≡ ok e → expr_from_str (display e) ≡ ok e
from_str-display-from_str s e h = expr_from_str-display e (expr_from_str-well_formed s e h)

-- No two well-formed expressions are displayed alike.
pub display-injective :
    (e e' : CfgExpr)
    → well_formed e ≡ true
    → well_formed e' ≡ true
    → display e ≡ display e'
    → e ≡ e'
display-injective e e' h h' p = cc (expr_from_str-display e h, expr_from_str-display e' h')
