-- ===== src/Pricing/Types.antt =====
-- The inputs and results of the pricing functions (src/shared/pos/posCalculator.ts).
use pos_desktop.Prelude.{ℕ, List, Result}
use pos_desktop.Prelude.Number.{Number}
use pos_desktop.Prelude.Text.{Text}
use pos_desktop.Catalog.{TaxMode}

pub data DiscountType : Type 0 where
  fixed percentage null : DiscountType

pub data CartCalculationErrorCode : Type 0 where
  cart_catalog_required : CartCalculationErrorCode
  cart_catalog_changed : CartCalculationErrorCode
  cart_empty : CartCalculationErrorCode
  cart_quantity_invalid : CartCalculationErrorCode
  cart_quantity_out_of_range : CartCalculationErrorCode
  cart_product_snapshot_invalid : CartCalculationErrorCode
  cart_mixed_tax_mode : CartCalculationErrorCode
  cart_mixed_currency : CartCalculationErrorCode
  cart_discount_invalid : CartCalculationErrorCode
  cart_discount_exceeds_amount : CartCalculationErrorCode
  cart_line_total_limit : CartCalculationErrorCode
  cart_invoice_total_limit : CartCalculationErrorCode
  cart_invalid : CartCalculationErrorCode

abbrev pub CalculationResult : Type 0 → Type 0
CalculationResult A = Result CartCalculationErrorCode A

-- An absent discount is `null` and 0, as `?? null` and `?? 0` read it.
pub record CartCalculationInputLine : Type 0 where
  pub id : Text
  pub product_uuid : Text
  pub quantity : Text
  pub unit_price_amount : Number
  pub currency : Text
  pub discount_type : DiscountType
  pub discount_value : Number
  pub tax_mode : TaxMode
  pub tax_rate_basis_points : Number

pub record CartCalculationLine : Type 0 where
  pub id : Text
  pub subtotal_amount : ℕ
  pub discount_amount : ℕ
  pub tax_amount : ℕ
  pub total_amount : ℕ

pub record CartCalculation : Type 0 where
  pub lines : List CartCalculationLine
  pub subtotal_amount : ℕ
  pub discount_total_amount : ℕ
  pub tax_total_amount : ℕ
  pub grand_total_amount : ℕ

pub record PreparedLine : Type 0 where
  pub input : CartCalculationInputLine
  pub subtotal : ℕ
  pub line_discount : ℕ
  pub taxable : ℕ
  pub rate : ℕ
