-- ===== src/Pages/Bounds.antt =====
-- The limits that a page may have.
use Prim.Native.String.{String}
use gaggle.Prelude.{ℕ, ◌≤◌, Option, none, some, arith, str_eq, Bool-cases, inl, inr, ℤ, pos, negsuc}
use gaggle.Pages.Limits.{atoi, parsed_limit, validate_and_normalize_limit, parse_pagination_params}

-- From 1 to the maximum.
abbrev pub IsLimit : ℕ → ℕ → Type 0
IsLimit max_limit n = (1 ≤ n) × (n ≤ max_limit)

parsed_limit-IsLimit :
    (limit : Option ℤ) (default_limit max_limit : ℕ)
    → 1 ≤ default_limit
    → default_limit ≤ max_limit
    → IsLimit max_limit (parsed_limit limit default_limit max_limit)
parsed_limit-IsLimit none default_limit max_limit h k = (h, k)
parsed_limit-IsLimit (some (pos n)) default_limit max_limit h k = ground arith
parsed_limit-IsLimit (some (negsuc n)) default_limit max_limit h k = (h, k)

-- Whatever limit a request asks for, as a number or as the text of the query parameter, where the
-- configured default is at least 1 and at most the maximum, the limit of the page is from 1 to the
-- maximum: both for the services' normalization and for the handlers' parser, on every branch.
pub limits-IsLimit :
    (limit : ℤ) (limit_text cursor_text : String) (default_limit max_limit : ℕ)
    → 1 ≤ default_limit
    → default_limit ≤ max_limit
    → IsLimit max_limit (validate_and_normalize_limit limit default_limit max_limit)
      × IsLimit max_limit (parse_pagination_params limit_text cursor_text default_limit max_limit).0
unfolding validate_and_normalize_limit parse_pagination_params
limits-IsLimit limit limit_text cursor_text default_limit max_limit h k = (
  parsed_limit-IsLimit (some limit) default_limit max_limit h k,
  elim (Bool-cases (str_eq limit_text "")) [
    | inl blank ↦ rw blank (h, k)
    | inr given ↦ rw given (parsed_limit-IsLimit (atoi limit_text) default_limit max_limit h k)
  ],
)
