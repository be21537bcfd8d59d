-- ===== src/Pricing/Tests.antt =====
-- Runs of the pricing functions on cases of tests/fixtures/pos-calculator-golden.json, and the
-- theorems at such carts.
use pos_desktop.Prelude.{
  ℕ, ◌+◌, ◌*◌, ◌≤◌, ◌≡◌, refl, Bool, true, false, none, some, List, [], ◌∷◌, arith, ok, err, All,
  ltb, ◌<◌,
}
use pos_desktop.Prelude.Int.{pos, negsuc, ◌+ℤ◌}
use pos_desktop.Prelude.Number.{whole}
use pos_desktop.Prelude.Text.{Text, codes}
use pos_desktop.Catalog.{TaxMode, inclusive, exclusive, CatalogContract, single_invoice_mode}
use pos_desktop.Pricing.Types.{
  DiscountType, fixed, percentage, null, CartCalculationInputLine, CartCalculation, PreparedLine,
  cart_mixed_tax_mode, cart_quantity_invalid, cart_quantity_out_of_range,
}
use pos_desktop.Pricing.Quantity.{parse_quantity_unchecked, milli_to_quantity, add_quantity}
use pos_desktop.Pricing.Allocation.{allocation_for}
use pos_desktop.Pricing.Allocation.Conservation.{
  IsAllocation, given, nothing_remains, allocation_for-IsAllocation,
}
use pos_desktop.Pricing.Quantity.RoundTrip.{parse_quantity_unchecked-milli_to_quantity}
use pos_desktop.Pricing.Quantity.Steps.{add_quantity_lem}
use pos_desktop.Pricing.Amounts.{half_up, half_up_nearest, calculate_discount}
use pos_desktop.Pricing.Cart.{calculate_cart}
use pos_desktop.Pricing.Cart.Conservation.{IsConserved, calculate_cart-IsConserved}
use pos_desktop.Pricing.Cart.Modes.{calculate_cart_uniform}

abbrev contract : CatalogContract
contract = record {
  revision = codes "a";
  currency = codes "SAR";
  minimum_quantity = codes "0.001";
  maximum_quantity = codes "999999.999";
  maximum_unit_price = 1_000_000_000;
  maximum_line_total = 900_000_000_000_000;
  maximum_invoice_total = 900_000_000_000_000;
  mixed_tax_mode_policy = single_invoice_mode;
  offers = none;
}

-- A collation on the first character alone, enough for the product ids below.
abbrev later : Text → Text → Bool
later [] t = false
later (c ∷ s) [] = true
later (c ∷ s) (d ∷ t) = ltb d c

abbrev line : Text → Text → ℕ → DiscountType → ℕ → TaxMode → ℕ → CartCalculationInputLine
line id quantity price type value mode rate = record {
  id = id;
  product_uuid = id;
  quantity = quantity;
  unit_price_amount = whole (pos price);
  currency = codes "SAR";
  discount_type = type;
  discount_value = whole (pos value);
  tax_mode = mode;
  tax_rate_basis_points = whole (pos rate);
}

-- "largest-remainder-mixed-rates" of the golden file.
abbrev mixed_rates : List CartCalculationInputLine
mixed_rates =
    line (codes "3") (codes "1.000") 333 null 0 exclusive 500
    ∷ line (codes "1") (codes "1.000") 667 null 0 exclusive 1500
    ∷ []

abbrev mixed_rates_result : CartCalculation
mixed_rates_result = record {
  lines =
      record {
        id = codes "3";
        subtotal_amount = 333;
        discount_amount = 34;
        tax_amount = 15;
        total_amount = 314;
      }
      ∷ record {
        id = codes "1";
        subtotal_amount = 667;
        discount_amount = 67;
        tax_amount = 90;
        total_amount = 690;
      }
      ∷ [];
  subtotal_amount = 1000;
  discount_total_amount = 101;
  tax_total_amount = 105;
  grand_total_amount = 1004;
}

golden_mixed_rates :
    calculate_cart later mixed_rates contract fixed (whole (pos 101)) ≡ ok mixed_rates_result
unfolding calculate_cart
golden_mixed_rates = refl

-- "fractional-inclusive": 1.5 units at 115 with 15% included.
golden_inclusive :
    calculate_cart later
      (line (codes "1") (codes "1.500") 115 null 0 inclusive 1500 ∷ [])
      contract
      null
      (whole (pos 0))
    ≡ ok (record {
      lines =
          record {
            id = codes "1";
            subtotal_amount = 173;
            discount_amount = 0;
            tax_amount = 23;
            total_amount = 173;
          }
          ∷ [];
      subtotal_amount = 173;
      discount_total_amount = 0;
      tax_total_amount = 23;
      grand_total_amount = 173;
    })
unfolding calculate_cart
golden_inclusive = refl

mixed_modes_refused :
    calculate_cart later
      (line (codes "1") (codes "1") 100 null 0 inclusive 1500
        ∷ line (codes "2") (codes "1") 100 null 0 exclusive 1500
        ∷ [])
      contract
      null
      (whole (pos 0))
    ≡ err cart_mixed_tax_mode
unfolding calculate_cart
mixed_modes_refused = refl

adds_and_refuses :
    (add_quantity (codes "1.5") (whole (pos 1000)) contract ≡ ok (codes "2.500"))
    × (add_quantity (codes "0.5") (whole (negsuc 999)) contract ≡ err cart_quantity_out_of_range)
    × (add_quantity (codes "1,5") (whole (pos 1000)) contract ≡ err cart_quantity_invalid)
unfolding add_quantity
adds_and_refuses = (refl, refl, refl)

calculate_cart-IsConserved_example : IsConserved mixed_rates mixed_rates_result
calculate_cart-IsConserved_example =
    calculate_cart-IsConserved later contract mixed_rates fixed (whole (pos 101)) golden_mixed_rates

calculate_cart_uniform_example :
    All (λ x. x.currency ≡ contract.currency) mixed_rates
    × (contract.mixed_tax_mode_policy ≡ single_invoice_mode
        → All
            (λ x. x.tax_mode ≡ exclusive)
            (line (codes "1") (codes "1.000") 667 null 0 exclusive 1500 ∷ []))
calculate_cart_uniform_example =
    calculate_cart_uniform later contract
      (line (codes "3") (codes "1.000") 333 null 0 exclusive 500)
      (line (codes "1") (codes "1.000") 667 null 0 exclusive 1500 ∷ []) fixed (whole (pos 101))
      golden_mixed_rates

abbrev prepared : CartCalculationInputLine → ℕ → PreparedLine
prepared input taxable = record {
  input = input;
  subtotal = taxable;
  line_discount = 0;
  taxable = taxable;
  rate = 500;
}

abbrev three_lines : List PreparedLine
three_lines =
    prepared (line (codes "3") (codes "1") 333 null 0 exclusive 500) 333
    ∷ prepared (line (codes "1") (codes "1") 667 null 0 exclusive 500) 667
    ∷ prepared (line (codes "2") (codes "1") 1 null 0 exclusive 500) 1
    ∷ []

allocation_for-IsAllocation_example :
    (allocations : List ℕ) × (allocation_for later three_lines 101 1001 ≡ ok allocations)
    × IsAllocation three_lines 101 allocations
allocation_for-IsAllocation_example =
    allocation_for-IsAllocation later three_lines 101 (omega arith)

nothing_remains_example : (given later three_lines 101).1 ≡ 0
nothing_remains_example = nothing_remains later three_lines 101 (omega arith) (omega arith)

parse_quantity_unchecked-milli_to_quantity_example :
    parse_quantity_unchecked (milli_to_quantity 12_045) ≡ some 12_045
parse_quantity_unchecked-milli_to_quantity_example =
    parse_quantity_unchecked-milli_to_quantity 12_045

add_quantity_lem_example :
    (current next lo hi : ℕ) × (parse_quantity_unchecked (codes "1.5") ≡ some current)
    × (parse_quantity_unchecked contract.minimum_quantity ≡ some lo)
    × (parse_quantity_unchecked contract.maximum_quantity ≡ some hi)
    × (parse_quantity_unchecked (codes "2.500") ≡ some next)
    × (pos current +ℤ pos 1000 ≡ pos next)
    × (lo ≤ next)
    × (next ≤ hi)
add_quantity_lem_example = add_quantity_lem (codes "1.5") (pos 1000) contract adds_and_refuses.0

half_up_nearest_example :
    (2 * 1000 * half_up 172_500 1000 ≤ 2 * 172_500 + 1000)
    × (2 * 172_500 < 2 * 1000 * half_up 172_500 1000 + 1000)
half_up_nearest_example = half_up_nearest 172_500 1000 (omega arith)

discount_granted : calculate_discount 333 percentage (whole (pos 1250)) ≡ ok 42
unfolding calculate_discount
discount_granted = refl
