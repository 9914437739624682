-- ===== src/Core/Dependency/Equality.antt =====
-- The derived equality of dependencies, platforms and cfg expressions in core/dependency.rs and
-- util/cfg.rs.
use toml.Prelude.{
  Bool, true, false, ◌&&◌, ◌≡◌, refl, ◌↔◌, arith, Eq, ◌==◌, list_eq, list_eq_iff, nat_eq, option_eq,
  option_eq_iff, Bool-and, subst, eq_self,
}
use toml.Cfg.{CfgExpr, CfgExprs, value, nil, cons, cfg_eq}
use toml.Core.Platform.{Platform, name, cfg}
use toml.Core.Dependency.{Kind, normal, development, build, Dependency}

unfoldable mutual
  pub expr_beq : CfgExpr → CfgExpr → Bool
  expr_beq (CfgExpr.not a) (CfgExpr.not b) = expr_beq a b
  expr_beq (CfgExpr.all a) (CfgExpr.all b) = exprs_beq a b
  expr_beq (CfgExpr.any a) (CfgExpr.any b) = exprs_beq a b
  expr_beq (value c) (value d) = c == d
  expr_beq _ _ = false

  pub exprs_beq : CfgExprs → CfgExprs → Bool
  exprs_beq nil nil = true
  exprs_beq (cons a as') (cons b bs) = expr_beq a b && exprs_beq as' bs
  exprs_beq _ _ = false

mutual
  unfolding expr_beq exprs_beq

  pub expr_eq_iff : (a b : CfgExpr) → (expr_beq a b ≡ true) ↔ (a ≡ b)
  expr_eq_iff (CfgExpr.not a) (CfgExpr.not b) = ground (arith, expr_eq_iff a b)
  expr_eq_iff (CfgExpr.not a) (CfgExpr.all b) = ground arith
  expr_eq_iff (CfgExpr.not a) (CfgExpr.any b) = ground arith
  expr_eq_iff (CfgExpr.not a) (value d) = ground arith
  expr_eq_iff (CfgExpr.all a) (CfgExpr.not b) = ground arith
  expr_eq_iff (CfgExpr.all a) (CfgExpr.all b) = ground (arith, exprs_eq_iff a b)
  expr_eq_iff (CfgExpr.all a) (CfgExpr.any b) = ground arith
  expr_eq_iff (CfgExpr.all a) (value d) = ground arith
  expr_eq_iff (CfgExpr.any a) (CfgExpr.not b) = ground arith
  expr_eq_iff (CfgExpr.any a) (CfgExpr.all b) = ground arith
  expr_eq_iff (CfgExpr.any a) (CfgExpr.any b) = ground (arith, exprs_eq_iff a b)
  expr_eq_iff (CfgExpr.any a) (value d) = ground arith
  expr_eq_iff (value c) (CfgExpr.not b) = ground arith
  expr_eq_iff (value c) (CfgExpr.all b) = ground arith
  expr_eq_iff (value c) (CfgExpr.any b) = ground arith
  expr_eq_iff (value c) (value d) = ground (arith, cfg_eq.eq_iff c d)

  pub exprs_eq_iff : (a b : CfgExprs) → (exprs_beq a b ≡ true) ↔ (a ≡ b)
  exprs_eq_iff nil nil = ground arith
  exprs_eq_iff nil (cons b bs) = ground arith
  exprs_eq_iff (cons a as') nil = ground arith
  exprs_eq_iff (cons a as') (cons b bs) = ground (arith, expr_eq_iff a b, exprs_eq_iff as' bs)

abbrev pub platform_beq : Platform → Platform → Bool
platform_beq (name n) (name k) = n == k
platform_beq (cfg a) (cfg b) = expr_beq a b
platform_beq _ _ = false

pub platform_eq_iff : (a b : Platform) → (platform_beq a b ≡ true) ↔ (a ≡ b)
platform_eq_iff (name n) (name k) = ground (arith, list_eq_iff n k)
platform_eq_iff (name n) (cfg b) = ground arith
platform_eq_iff (cfg a) (name k) = ground arith
platform_eq_iff (cfg a) (cfg b) = ground (arith, expr_eq_iff a b)

instance abbrev pub platform_eq : Eq Platform
platform_eq = record { eq = platform_beq; eq_iff = platform_eq_iff }

abbrev pub kind_beq : Kind → Kind → Bool
kind_beq normal normal = true
kind_beq development development = true
kind_beq build build = true
kind_beq _ _ = false

pub kind_eq_iff : (a b : Kind) → (kind_beq a b ≡ true) ↔ (a ≡ b)
kind_eq_iff normal normal = ground arith
kind_eq_iff normal development = ground arith
kind_eq_iff normal build = ground arith
kind_eq_iff development normal = ground arith
kind_eq_iff development development = ground arith
kind_eq_iff development build = ground arith
kind_eq_iff build normal = ground arith
kind_eq_iff build development = ground arith
kind_eq_iff build build = ground arith

instance abbrev pub kind_eq : Eq Kind
kind_eq = record { eq = kind_beq; eq_iff = kind_eq_iff }

abbrev pub bool_beq : Bool → Bool → Bool
bool_beq true b = b
bool_beq false true = false
bool_beq false false = true

pub bool_eq_iff : (a b : Bool) → (bool_beq a b ≡ true) ↔ (a ≡ b)
bool_eq_iff true true = ground arith
bool_eq_iff true false = ground arith
bool_eq_iff false true = ground arith
bool_eq_iff false false = ground arith

instance abbrev pub bool_eq : Eq Bool
bool_eq = record { eq = bool_beq; eq_iff = bool_eq_iff }

module _ {S R : Type 0} ⦃es : Eq S⦄ ⦃er : Eq R⦄ where
  abbrev pub what_beq : Dependency S R → Dependency S R → Bool
  what_beq a b =
      a.name == b.name
      && (a.source_id == b.source_id && (a.registry_id == b.registry_id && a.req == b.req))

  abbrev pub how_beq : Dependency S R → Dependency S R → Bool
  how_beq a b =
      a.specified_req == b.specified_req
      && (a.kind == b.kind
          && (a.only_match_name == b.only_match_name
              && a.explicit_name_in_toml == b.explicit_name_in_toml))

  abbrev pub when_beq : Dependency S R → Dependency S R → Bool
  when_beq a b =
      a.optional == b.optional
      && (a.default_features == b.default_features
          && (a.features == b.features && a.platform == b.platform))

  abbrev pub dependency_beq : Dependency S R → Dependency S R → Bool
  dependency_beq a b = what_beq a b && (how_beq a b && when_beq a b)

  what_fields :
      (a b : Dependency S R)
      → what_beq a b ≡ true
      → (a.name ≡ b.name)
        × (a.source_id ≡ b.source_id)
        × (a.registry_id ≡ b.registry_id)
        × (a.req ≡ b.req)
  what_fields a b h = ground (
    arith,
    list_eq_iff a.name b.name,
    es.eq_iff a.source_id b.source_id,
    option_eq_iff a.registry_id b.registry_id,
    er.eq_iff a.req b.req,
  )

  how_fields :
      (a b : Dependency S R)
      → how_beq a b ≡ true
      → (a.specified_req ≡ b.specified_req)
        × (a.kind ≡ b.kind)
        × (a.only_match_name ≡ b.only_match_name)
        × (a.explicit_name_in_toml ≡ b.explicit_name_in_toml)
  how_fields a b h = ground (
    arith,
    bool_eq_iff a.specified_req b.specified_req,
    kind_eq_iff a.kind b.kind,
    bool_eq_iff a.only_match_name b.only_match_name,
    option_eq_iff a.explicit_name_in_toml b.explicit_name_in_toml,
  )

  when_fields :
      (a b : Dependency S R)
      → when_beq a b ≡ true
      → (a.optional ≡ b.optional)
        × (a.default_features ≡ b.default_features)
        × (a.features ≡ b.features)
        × (a.platform ≡ b.platform)
  when_fields a b h = ground (
    arith,
    bool_eq_iff a.optional b.optional,
    bool_eq_iff a.default_features b.default_features,
    list_eq_iff a.features b.features,
    option_eq_iff a.platform b.platform,
  )

  dependency_beq_self : (a : Dependency S R) → dependency_beq a a ≡ true
  dependency_beq_self a =
      rw
        (
          eq_self a.name,
          eq_self a.source_id,
          eq_self a.registry_id,
          eq_self a.req,
          eq_self a.specified_req,
          eq_self a.kind,
          eq_self a.only_match_name,
          eq_self a.explicit_name_in_toml,
          eq_self a.optional,
          eq_self a.default_features,
          eq_self a.features,
          eq_self a.platform,
        )
        refl

  from_fields : (a b : Dependency S R) → dependency_beq a b ≡ true → a ≡ b
  from_fields a b h =
      let (what, rest) = Bool-and {a = what_beq a b} {b = how_beq a b && when_beq a b} h in
      let (how, when) = Bool-and {a = how_beq a b} {b = when_beq a b} rest in
      let (name', source', registry', req') = what_fields a b what in
      let (specified', kind', only', explicit') = how_fields a b how in
      let (optional', default', features', platform') = when_fields a b when in cc

  pub dependency_eq_iff : (a b : Dependency S R) → (dependency_beq a b ≡ true) ↔ (a ≡ b)
  dependency_eq_iff a b =
      (from_fields a b, λ same. subst (λ t. dependency_beq a t ≡ true) same (dependency_beq_self a))

instance abbrev pub dependency_eq : {S R : Type 0} ⦃es : Eq S⦄ ⦃er : Eq R⦄ → Eq (Dependency S R)
dependency_eq = record { eq = dependency_beq; eq_iff = dependency_eq_iff }
