-- ===== src/Tests/Prices.antt =====
-- crates/mtm-math/src/lib.rs at concrete prices.
use testnet_testsuite.Prelude.{[], ◌∷◌, ◌≡◌, refl, some, ok, arith}
use testnet_testsuite.Prelude.Int.{pos, negsuc, ◌*ℤ◌, ◌-ℤ◌, ◌/ℤ◌}
use testnet_testsuite.Math.Price.{price, Price, IsPrice, checked_scale}
use testnet_testsuite.Math.Text.{display, from_str}
use testnet_testsuite.Math.Printing.{from_str-display}
use testnet_testsuite.Math.Scale.{checked_scale_finer_back}

-- 12.345 and -12.345 as a mantissa and an exponent.
abbrev dear : Price
dear = record { mantissa = pos 12_345; expo = negsuc 2 }

abbrev fine : Price
fine = record { mantissa = pos 12_345_000; expo = negsuc 5 }

abbrev coarse : Price
coarse = record { mantissa = pos 123; expo = negsuc 0 }

abbrev dear_ok : IsPrice dear
dear_ok = record { mantissa_fits = omega arith; expo_fits = omega arith }

checked_scale_finer_back_example : checked_scale fine (negsuc 2) ≡ some (ok dear)
unfolding checked_scale ◌*ℤ◌ ◌-ℤ◌ ◌/ℤ◌
checked_scale_finer_back_example =
    checked_scale_finer_back dear (negsuc 5) fine dear_ok (omega arith) refl

abbrev raised : Price
raised = record { mantissa = pos 12_468; expo = negsuc 2 }

-- The print of -12.005.
display_run : display (price (negsuc 12_004) (negsuc 2)) ≡ 45 ∷ 49 ∷ 50 ∷ 46 ∷ 48 ∷ 48 ∷ 53 ∷ []
unfolding display
display_run = refl

from_str-display_example :
    from_str (display (price (negsuc 12_344) (negsuc 2))) ≡ ok (price (negsuc 12_344) (negsuc 2))
from_str-display_example = from_str-display (negsuc 12_344) 2 (omega arith) (omega arith)
