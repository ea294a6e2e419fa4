-- ===== src/Pages/Examples.antt =====
-- Runs of the limits.
use gaggle.Prelude.{◌≡◌, refl, none, some, arith, pos, negsuc}
use gaggle.Pages.Limits.{atoi, validate_and_normalize_limit, parse_pagination_params}
use gaggle.Pages.Bounds.{IsLimit, limits-IsLimit}

atoi_test : atoi "-12" ≡ some (negsuc 11)
unfolding atoi
atoi_test = refl

atoi_max_test : atoi "9223372036854775807" ≡ some (pos 9_223_372_036_854_775_807)
unfolding atoi
atoi_max_test = refl

atoi_past_test : atoi "9223372036854775808" ≡ none
unfolding atoi
atoi_past_test = refl

limits-IsLimit_example :
    IsLimit 100 (validate_and_normalize_limit (pos 500) 20 100)
    × IsLimit 100 (parse_pagination_params "-7" "" 20 100).0
limits-IsLimit_example = limits-IsLimit (pos 500) "-7" "" 20 100 (omega arith) (omega arith)
