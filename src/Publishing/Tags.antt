-- ===== src/Publishing/Tags.antt =====
-- server/internal/postutil: the hashtags and the mentions of a text. The texts are ASCII where the
-- classes of letters and digits and the case are read.
use Prim.Native.Char.{Char, code}
use Prim.Native.String.{char_at}
use gaggle.Prelude.{
  ℕ, zero, suc, ◌-◌, Bool, false, not, ◌&&◌, ◌||◌, String, List, [], ◌∷◌, ◌==◌, str_eq,
  if◌then◌else◌, any,
}
use gaggle.Posts.{in_range}

-- [\pL\pN_]
abbrev is_word : Char → Bool
is_word c =
    in_range 48 (code c) 57 || in_range 65 (code c) 90 || code c == 95 || in_range 97 (code c) 122

abbrev lower_char : Char → Char
lower_char c =
    if in_range 65 (code c) 90 then char_at "abcdefghijklmnopqrstuvwxyz" (code c - 65) else c

-- strings.ToLower
unfoldable pub lower_text : String → String
lower_text String.[] = String.[]
lower_text (String.◌∷◌ c s) = String.◌∷◌ (lower_char c) (lower_text s)

-- The longest run of word characters, up to the given number of them.
unfoldable pub word_run : ℕ → String → String
word_run zero s = String.[]
word_run (suc n) String.[] = String.[]
word_run (suc n) (String.◌∷◌ c s) =
    let rest = word_run n s in if is_word c then String.◌∷◌ c rest else String.[]

-- FindAllStringSubmatch with `(?:^|[^\pL\pN_])M([\pL\pN_]{1,limit})` for the mark M: a mark at the
-- start, or behind a character that is no word character, and in front of one. A match ends within
-- a word or at its end, so the character in front of the next mark is never part of it.
module _ (mark limit : ℕ) where
  unfoldable pub matches : Bool → String → List String
  unfolding word_run
  matches behind_word String.[] = []
  matches behind_word (String.◌∷◌ c s) =
      let rest = matches (is_word c) s in
      if code c == mark && not behind_word && not (str_eq (word_run limit s) "")
      then word_run limit s ∷ rest
      else rest

-- The loop over the matches: the lowered names, each once, in the order of their first match.
unfoldable pub unique_names : List String → List String → List String
unique_names seen [] = []
unique_names seen (m ∷ ms) =
    let rest = unique_names seen ms in
    let more = unique_names (lower_text m ∷ seen) ms in
    if any (str_eq (lower_text m)) seen then rest else lower_text m ∷ more

-- `ExtractHashtags`
unfoldable pub extract_hashtags : String → List String
unfolding matches unique_names
extract_hashtags content = unique_names [] (matches b'#' 100 false content)

-- `ExtractMentions`
unfoldable pub extract_mentions : String → List String
unfolding matches unique_names
extract_mentions content = unique_names [] (matches b'@' 16 false content)
