-- ===== src/Catalog.antt =====
-- The installed catalog as the register reads it (src/shared/contracts/catalog.contract.ts): the
-- contract with its limits, its products and its offers. An instant is its epoch milliseconds, as
-- `Date.parse` reads it. Amounts are whole minor units.
use pos_desktop.Prelude.{ℕ, Bool, Option, List}
use pos_desktop.Prelude.Int.{ℤ}
use pos_desktop.Prelude.Text.{Text}

pub data MixedTaxModePolicy : Type 0 where
  single_invoice_mode per_line : MixedTaxModePolicy

pub data TaxMode : Type 0 where
  untaxed inclusive exclusive : TaxMode

pub data OfferType : Type 0 where
  percentage amount_off fixed_price : OfferType

pub record CatalogOffer : Type 0 where
  pub revision_uuid : Text
  pub name : Text
  pub type : OfferType
  pub value : ℕ
  pub priority : ℤ
  pub ordinal : ℕ
  pub starts_at : ℕ
  pub ends_at : Option ℕ
  pub product_uuids : List Text

pub record CatalogContract : Type 0 where
  pub revision : Text
  pub currency : Text
  pub minimum_quantity : Text
  pub maximum_quantity : Text
  pub maximum_unit_price : ℕ
  pub maximum_line_total : ℕ
  pub maximum_invoice_total : ℕ
  pub mixed_tax_mode_policy : MixedTaxModePolicy
  pub offers : Option (List CatalogOffer)

pub record Price : Type 0 where
  pub amount : ℕ
  pub currency : Text
  pub revision : Text

pub record Tax : Type 0 where
  pub id : Option Text
  pub mode : TaxMode
  pub rate_basis_points : ℕ
  pub revision : Text

-- The fields of a product that a sale reads, and its image.
pub record CatalogProduct : Type 0 where
  pub uuid : Text
  pub name : Text
  pub track_stock : Bool
  pub price : Price
  pub tax : Tax
  pub image : Option Text
