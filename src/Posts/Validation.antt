-- ===== src/Posts/Validation.antt =====
-- server/internal/service/post_service.go: what a new post must satisfy before it is written. The
-- texts are ASCII where white space and case are read.
use Prim.Native.String.{len, count as rune_count}
use Prim.Native.Char.{Char, code}
use gaggle.Prelude.{
  ℕ, ◌+◌, Bool, true, false, ◌&&◌, ◌||◌, String, List, [], ◌∷◌, ◌++◌, Option, ◌==◌, ltb, leb,
  str_eq, if◌then◌else◌, any, length,
}
use gaggle.AppErrors.{Result, ok, err, no_cause, bad_request_error, is, not_found}
use gaggle.Database.{User, Post, M, pure, raise, raise_if, ◌>>=◌, ◌>>◌}
use gaggle.Accounts.{get_by_username}
use gaggle.Posts.Visibility.{visibility_public, visibility_followers, visibility_mentions}

abbrev pub in_range : ℕ → ℕ → ℕ → Bool
in_range lo n hi = leb lo n && leb n hi

-- unicode.IsSpace
abbrev is_space : Char → Bool
is_space c = in_range 9 (code c) 13 || code c == 32

trim_left : String → String
trim_left String.[] = String.[]
trim_left (String.◌∷◌ c s) = let rest = trim_left s in if is_space c then rest else String.◌∷◌ c s

abbrev cons_trimmed : Char → String → String
cons_trimmed c String.[] = if is_space c then String.[] else String.◌∷◌ c String.[]
cons_trimmed c (String.◌∷◌ d s) = String.◌∷◌ c (String.◌∷◌ d s)

trim_right : String → String
trim_right String.[] = String.[]
trim_right (String.◌∷◌ c s) = cons_trimmed c (trim_right s)

-- strings.TrimSpace
unfoldable pub trim_space : String → String
unfolding trim_left trim_right
trim_space s = trim_right (trim_left s)

-- strings.ToLower, as the characters' numbers.
unfoldable pub to_lower : String → List ℕ
to_lower String.[] = []
to_lower (String.◌∷◌ c s) = (if in_range 65 (code c) 90 then code c + 32 else code c) ∷ to_lower s

abbrev pub same_codes : List ℕ → List ℕ → Bool
same_codes [] [] = true
same_codes (x ∷ xs) (y ∷ ys) = x == y && same_codes xs ys
same_codes _ _ = false

abbrev pub max_post_content_length : ℕ
max_post_content_length = 280

abbrev pub max_poll_question_length : ℕ
max_poll_question_length = 140

abbrev pub refuse_if : Bool → String → Result (Unit {0}) → Result (Unit {0})
refuse_if true message rest = err (bad_request_error message no_cause)
refuse_if false message rest = rest

-- `validateContentLength`
unfoldable pub validate_content_length : String → Result (Unit {0})
validate_content_length content =
    refuse_if (ltb max_post_content_length (rune_count content))
      "post content must be 280 characters or fewer" (ok tt)

pub record CreatePollPayload : Type 0 where
  pub question : String
  pub options : List String
  pub ends_at : Option ℕ

-- The loop over the options, with the lowered labels that were seen.
unfoldable pub validate_options : List (List ℕ) → List String → Result (Unit {0})
validate_options seen [] = ok tt
validate_options seen (option ∷ options) =
    let label = trim_space option in
    refuse_if (str_eq label "" || ltb 100 (rune_count label))
      "poll options must be between 1 and 100 characters"
      (refuse_if (any (same_codes (to_lower label)) seen) "poll options must be unique"
        (validate_options (to_lower label ∷ seen) options))

-- `validatePoll`
unfoldable pub validate_poll : CreatePollPayload → Result (Unit {0})
validate_poll poll = refuse_if (str_eq (trim_space poll.question) "") "poll question is required" (
    refuse_if (ltb max_poll_question_length (rune_count poll.question))
      "poll question must be 140 characters or fewer"
      (refuse_if (ltb (length poll.options) 2 || ltb 4 (length poll.options))
        "polls must have between 2 and 4 options" (validate_options [] poll.options)))

-- [A-Za-z0-9_]
abbrev is_name_char : Char → Bool
is_name_char c =
    in_range 48 (code c) 57 || in_range 65 (code c) 90 || code c == 95 || in_range 97 (code c) 122

-- The characters that follow an @.
unfoldable pub name_run : String → String
name_run String.[] = String.[]
name_run (String.◌∷◌ c s) =
    let rest = name_run s in if is_name_char c then String.◌∷◌ c rest else String.[]

-- FindAllStringSubmatch with `@([A-Za-z0-9_]{3,16})\b`. A word boundary is only at the end of the
-- run, so an @ matches where the whole run has a length from 3 to 16, and a match holds no other @.
unfoldable pub find_mentions : String → List String
unfolding name_run
find_mentions String.[] = []
find_mentions (String.◌∷◌ c s) =
    let rest = find_mentions s in
    if code c == b'@' && in_range 3 (len (name_run s)) 16 then name_run s ∷ rest else rest

-- What the round does with the answer to its lookup.
abbrev pub add_mention : ℕ → List ℕ → Result User → Result (List ℕ)
add_mention author seen (err e) = if is e not_found then ok seen else err e
add_mention author seen (ok user) =
    if user.id == author || any (λ id. id == user.id) seen
    then ok seen
    else ok (seen ++ user.id ∷ [])

module _ (lower : String → String) where
  abbrev pub resolve_name : ℕ → List ℕ → String → M (List ℕ)
  resolve_name author seen name w =
      let (r, w') = get_by_username lower name w in (add_mention author seen r, w')

  -- The loop over the matches: the ids that it appends, in their order.
  unfoldable pub resolve_names : ℕ → List ℕ → List String → M (List ℕ)
  resolve_names author seen [] = pure seen
  resolve_names author seen (name ∷ names) = do
    seen' ← resolve_name author seen name
    resolve_names author seen' names

  abbrev pub require_mention : Post → M Post
  require_mention post = do
    raise_if (length post.mentioned_user_ids == 0)
        (bad_request_error "a mentions-only post must @mention at least one person" no_cause)
    pure post

  abbrev pub with_default : Post → Post
  with_default post =
      if str_eq post.visibility "" then record post { visibility = visibility_public } else post

  unfoldable pub resolve_defaulted : Post → M Post
  resolve_defaulted post =
      if str_eq post.visibility visibility_public || str_eq post.visibility visibility_followers
      then pure post
      else if str_eq post.visibility visibility_mentions
      then (do
        ids ← resolve_names post.author_id [] (find_mentions post.content)
        require_mention (record post { mentioned_user_ids = post.mentioned_user_ids ++ ids }))
      else raise
          (bad_request_error "invalid visibility: must be public, followers or mentions" no_cause)

  -- `resolveVisibilityAndMentions`
  unfoldable pub resolve_visibility_and_mentions : Post → M Post
  resolve_visibility_and_mentions post = resolve_defaulted (with_default post)
