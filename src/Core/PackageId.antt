-- ===== src/Core/PackageId.antt =====
-- core/package_id.rs. The types of versions, `V`, and of source ids, `S`, are arguments.
use toml.Prelude.{Text, Bool, true, ◌&&◌, ◌≡◌, ◌↔◌, arith, Eq, ◌==◌, list_eq, list_eq_iff, nat_eq}

pub record PackageId (S V : Type 0) : Type 0 where
  pub name : Text
  pub version : V
  pub source_id : S

module _ {S V : Type 0} where
  unfoldable pub with_source_id : PackageId S V → S → PackageId S V
  with_source_id id source = record id { source_id = source }

module _ {S V : Type 0} ⦃es : Eq S⦄ ⦃ev : Eq V⦄ where
  -- `derive(PartialEq)` on the fields
  abbrev pub id_beq : PackageId S V → PackageId S V → Bool
  id_beq a b = a.name == b.name && (a.version == b.version && a.source_id == b.source_id)

  pub id_eq_iff : (a b : PackageId S V) → (id_beq a b ≡ true) ↔ (a ≡ b)
  id_eq_iff a b = ground (
    arith,
    list_eq_iff a.name b.name,
    ev.eq_iff a.version b.version,
    es.eq_iff a.source_id b.source_id,
  )

instance abbrev pub package_id_eq : {S V : Type 0} ⦃es : Eq S⦄ ⦃ev : Eq V⦄ → Eq (PackageId S V)
package_id_eq = record { eq = id_beq; eq_iff = id_eq_iff }
