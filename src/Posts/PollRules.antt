-- ===== src/Posts/PollRules.antt =====
-- Which poll payloads are accepted.
use Prim.Native.String.{count as rune_count}
use gaggle.Prelude.{
  ℕ, ◌≡◌, refl, ◌↔◌, Bool, true, not, ◌&&◌, String, List, [], ◌∷◌, arith, str_eq, any, length, leb,
}
use gaggle.AppErrors.{ok}
use gaggle.Posts.Validation.{
  CreatePollPayload, trim_space, to_lower, same_codes, in_range, validate_options, validate_poll,
}
use gaggle.Posts.Audience.{every}

same_codes_sym : (xs ys : List ℕ) → same_codes xs ys ≡ same_codes ys xs
same_codes_sym [] [] = refl
same_codes_sym [] (y ∷ ys) = refl
same_codes_sym (x ∷ xs) [] = refl
same_codes_sym (x ∷ xs) (y ∷ ys) = ground (arith, same_codes_sym xs ys)

-- What is compared of an option.
abbrev pub label_key : String → List ℕ
label_key option = to_lower (trim_space option)

-- An option with a text, and no more than 100 characters of it.
abbrev pub is_label : String → Bool
is_label option = not (str_eq (trim_space option) "") && leb (rune_count (trim_space option)) 100

-- No two options are the same but for case and space around them.
abbrev pub are_unique : List String → Bool
are_unique [] = true
are_unique (option ∷ options) =
    every (λ other. not (same_codes (label_key option) (label_key other))) options
    && are_unique options

abbrev pub is_acceptable : CreatePollPayload → Bool
is_acceptable poll =
    not (str_eq (trim_space poll.question) "")
    && leb (rune_count poll.question) 140
    && in_range 2 (length poll.options) 4
    && every is_label poll.options
    && are_unique poll.options

-- Not among the keys that the loop has seen.
abbrev is_fresh : List (List ℕ) → String → Bool
is_fresh seen option = not (any (same_codes (label_key option)) seen)

every_fresh_step :
    (seen : List (List ℕ)) (key : List ℕ) (options : List String)
    → every (is_fresh (key ∷ seen)) options ≡ (
        every (is_fresh seen) options
        && every (λ other. not (same_codes key (label_key other))) options)
every_fresh_step seen key [] = refl
every_fresh_step seen key (option ∷ options) =
    ground (arith, every_fresh_step seen key options, same_codes_sym key (label_key option))

validate_options_lem :
    (seen : List (List ℕ)) (options : List String)
    → (validate_options seen options ≡ ok tt)
      ↔ ((every is_label options && every (is_fresh seen) options && are_unique options) ≡ true)
unfolding validate_options
validate_options_lem seen [] = ground arith
validate_options_lem seen (option ∷ options) = ground (
  arith,
  validate_options_lem (label_key option ∷ seen) options,
  every_fresh_step seen (label_key option) options,
)

every_fresh_empty : (options : List String) → every (is_fresh []) options ≡ true
every_fresh_empty [] = refl
every_fresh_empty (option ∷ options) = ground (arith, every_fresh_empty options)

-- A poll is accepted exactly when its question has a text of at most 140 characters and its two to
-- four options are texts of at most 100 characters, no two of them the same but for case and the
-- space around them.
pub validate_poll-is_acceptable :
    (poll : CreatePollPayload) → (validate_poll poll ≡ ok tt) ↔ (is_acceptable poll ≡ true)
unfolding validate_poll
validate_poll-is_acceptable poll =
    ground (arith, validate_options_lem [] poll.options, every_fresh_empty poll.options)
