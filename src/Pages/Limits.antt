-- ===== src/Pages/Limits.antt =====
-- server/internal/util/pagination.go: the limit and the cursor of a request. A cursor travels as
-- base64 of JSON, which decodes to what was encoded; the text of a time is the time.
use Prim.Native.Char.{code}
use Prim.Native.String.{String}
use gaggle.Prelude.{
  ℕ, zero, suc, ◌+◌, ◌-◌, ◌*◌, Option, none, some, ◌==◌, ltb, leb, str_eq, if◌then◌else◌, ℤ, pos,
  negsuc,
}
use gaggle.Posts.{in_range, trim_space}

pub record PaginationCursor : Type 0 where
  pub id : ℕ
  pub timestamp : Option ℕ

-- The query parameter: absent, a text that does not decode, or an encoded cursor.
pub data CursorText : Type 0 where
  no_cursor undecodable : CursorText
  encoded : PaginationCursor → CursorText

-- `EncodeCursor`
abbrev pub encode_cursor : PaginationCursor → CursorText
encode_cursor c = encoded c

-- `DecodeCursor`: the error, nil, or the cursor.
abbrev pub decode_cursor : CursorText → Option (Option PaginationCursor)
decode_cursor no_cursor = some none
decode_cursor undecodable = none
decode_cursor (encoded c) = some (some c)

-- `CreateTimestampCursor`
abbrev pub create_timestamp_cursor : ℕ → ℕ → PaginationCursor
create_timestamp_cursor id t = record { id = id; timestamp = some t }

-- A limit of the size of Go's int: the least number whose digits do not fit.
abbrev pub int_limit : ℕ
int_limit = 9_223_372_036_854_775_808

digits : ℕ → String → Option ℕ
digits n String.[] = some n
digits n (String.◌∷◌ c s) =
    let rest = digits (10 * n + (code c - 48)) s in if in_range 48 (code c) 57 then rest else none

-- At least one digit.
abbrev number : String → Option ℕ
number String.[] = none
number (String.◌∷◌ c s) = digits 0 (String.◌∷◌ c s)

abbrev positive : Option ℕ → Option ℤ
positive none = none
positive (some n) = if ltb n int_limit then some (pos n) else none

abbrev negative : Option ℕ → Option ℤ
negative none = none
negative (some zero) = some (pos 0)
negative (some (suc n)) = if leb (suc n) int_limit then some (negsuc n) else none

-- strconv.Atoi; none is its error.
unfoldable pub atoi : String → Option ℤ
unfolding digits
atoi String.[] = none
atoi (String.◌∷◌ c s) =
    if code c == b'-'
    then negative (number s)
    else if code c == b'+'
    then positive (number s)
    else positive (number (String.◌∷◌ c s))

-- The three ways that a parsed limit goes; none is the error of Atoi.
abbrev pub parsed_limit : Option ℤ → ℕ → ℕ → ℕ
parsed_limit none default_limit max_limit = default_limit
parsed_limit (some (negsuc n)) default_limit max_limit = default_limit
parsed_limit (some (pos n)) default_limit max_limit =
    if n == 0 then default_limit else if ltb max_limit n then max_limit else n

-- `ValidateAndNormalizeLimit`, which is also `validateAndNormalizeLimit` and `validateLimit` of the
-- services; the two limits of the configuration are no negative numbers.
unfoldable pub validate_and_normalize_limit : ℤ → ℕ → ℕ → ℕ
validate_and_normalize_limit limit default_limit max_limit =
    parsed_limit (some limit) default_limit max_limit

-- `ParsePaginationParams`
unfoldable pub parse_pagination_params : String → String → ℕ → ℕ → ℕ × String
parse_pagination_params limit_text cursor_text default_limit max_limit = (
  if str_eq limit_text ""
      then default_limit
      else parsed_limit (atoi limit_text) default_limit max_limit,
  trim_space cursor_text,
)
