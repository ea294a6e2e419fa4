-- ===== src/Posts/Names.antt =====
-- Whom a text names, said without the code's scanners: by splitting the text at an @.
use Prim.Native.Char.{Char, code}
use Prim.Native.String.{len}
use mathlib.Core.Path.{subst}
use gaggle.Prelude.{
  ℕ, ◌≤◌, ◌≡◌, refl, ◌⊎◌, inl, inr, sym, ap, ◌∙◌, Bool, true, false, ◌&&◌, ◌||◌, String, List, [],
  ◌∷◌, arith, ◌==◌, leb, Option, none, some, Option-cases, str_eq, str_eq_iff, str_eq_refl,
  Bool-cases, any,
}
use gaggle.Database.{User}
use gaggle.Posts.Validation.{name_run, find_mentions}

-- An ASCII letter, a digit, or _.
abbrev pub is_name_letter : Char → Bool
is_name_letter c =
    (leb 48 (code c) && leb (code c) 57)
    || (leb 65 (code c) && leb (code c) 90)
    || code c == 95
    || (leb 97 (code c) && leb (code c) 122)

abbrev pub all_letters : String → Bool
all_letters String.[] = true
all_letters (String.◌∷◌ c s) = is_name_letter c && all_letters s

abbrev pub starts_in_word : String → Bool
starts_in_word String.[] = false
starts_in_word (String.◌∷◌ c s) = is_name_letter c

-- The first text, then the second.
abbrev pub chain : String → String → String
chain String.[] after = after
chain (String.◌∷◌ c s) after = String.◌∷◌ c (chain s after)

-- The text begins with this whole run of letters, of 3 to 16 bytes.
pub record BeginsWith (s run : String) : Type 0 where
  pub after : String
  pub split : s ≡ chain run after
  pub letters : all_letters run ≡ true
  pub whole : starts_in_word after ≡ false
  pub enough : 3 ≤ len run
  pub fits : len run ≤ 16

-- The text has an @ somewhere with the name right behind it.
abbrev pub NamesBehind : String → String → Type 0
NamesBehind String.[] run = false ≡ true
NamesBehind (String.◌∷◌ c s) run = ((code c ≡ b'@') × BeginsWith s run) ⊎ NamesBehind s run

name_run_of :
    (run after : String)
    → all_letters run ≡ true
    → starts_in_word after ≡ false
    → name_run (chain run after) ≡ run
unfolding name_run
name_run_of String.[] String.[] h k = refl
name_run_of String.[] (String.◌∷◌ c s) h k = ground (arith, k)
name_run_of (String.◌∷◌ c run) after h k = ground (arith, h, name_run_of run after)

name_run_split :
    (s : String)
    → (after : String) × (s ≡ chain (name_run s) after)
      × (all_letters (name_run s) ≡ true)
      × (starts_in_word after ≡ false)
unfolding name_run
name_run_split String.[] = (String.[], refl, refl, refl)
name_run_split (String.◌∷◌ c s) = elim (Bool-cases (is_name_letter c)) [
  | inl letter ↦
      let (after, split, all, whole) = name_run_split s in
      rw letter (after, ap (String.◌∷◌ c) split, ground (arith, letter, all), whole)
  | inr other ↦ rw other (String.◌∷◌ c s, refl, refl, other)
]

-- What the scan finds is named, and it finds every name.
pub find_mentions_sound :
    (content run : String)
    → any (str_eq run) (find_mentions content) ≡ true
    → NamesBehind content run
unfolding find_mentions name_run
find_mentions_sound String.[] run h = h
find_mentions_sound (String.◌∷◌ c s) run h =
    elim (Bool-cases (code c == b'@' && leb 3 (len (name_run s)) && leb (len (name_run s)) 16)) [
      | inl here ↦ elim (Bool-cases (str_eq run (name_run s))) [
        | inl same ↦
            let (after, split, letters, whole) = name_run_split s in
            inl (
              ground (arith, here),
              subst (BeginsWith s) (sym ((str_eq_iff run (name_run s)).0 same)) (record {
                after = after;
                split = split;
                letters = letters;
                whole = whole;
                enough = ground (arith, here);
                fits = ground (arith, here);
              }),
            )
        | inr other ↦ inr (find_mentions_sound s run (ground (arith, h, here, other)))
      ]
      | inr other ↦ inr (find_mentions_sound s run (ground (arith, h, other)))
    ]

pub find_mentions_complete :
    (content run : String)
    → NamesBehind content run
    → any (str_eq run) (find_mentions content) ≡ true
unfolding find_mentions name_run
find_mentions_complete String.[] run h = h
find_mentions_complete (String.◌∷◌ c s) run (inl (at, b)) =
    let same : name_run s ≡ run = ap name_run b.split ∙ name_run_of run b.after b.letters b.whole in
    ground (arith, same, at, b.enough, b.fits, str_eq_refl run)
find_mentions_complete (String.◌∷◌ c s) run (inr later) =
    ground (arith, find_mentions_complete s run later)

-- A name of the list is that of the user.
abbrev pub names_one : (String → Option User) → ℕ → List String → Bool
names_one lookup k [] = false
names_one lookup k (name ∷ names) =
    elim (lookup name) [ none ↦ false | some u ↦ u.id == k ] || names_one lookup k names

later :
    (lookup : String → Option User) (k : ℕ) (name : String) (names : List String)
    → (n : String) × (any (str_eq n) names ≡ true) × (u : User) × (lookup n ≡ some u) × (u.id ≡ k)
    → (n : String) × (any (str_eq n) (name ∷ names) ≡ true)
      × (u : User) × (lookup n ≡ some u)
      × (u.id ≡ k)
later lookup k name names (n, inside, u, found, same) = (n, ground (arith, inside), u, found, same)

pub names_one_sound :
    (lookup : String → Option User) (k : ℕ) (names : List String)
    → names_one lookup k names ≡ true
    → (n : String) × (any (str_eq n) names ≡ true) × (u : User) × (lookup n ≡ some u) × (u.id ≡ k)
names_one_sound lookup k [] h = ground (arith, h)
names_one_sound lookup k (name ∷ names) h = elim (Option-cases (lookup name)) [
  | inl missing ↦
      later lookup k name names (names_one_sound lookup k names (ground (arith, h, missing)))
  | inr (u, found) ↦ elim (Bool-cases (u.id == k)) [
    | inl this ↦ (name, rw (str_eq_refl name) refl, u, found, ground (arith, this))
    | inr other ↦
        later lookup k name names (names_one_sound lookup k names (ground (arith, h, found, other)))
  ]
]

pub names_one_complete :
    (lookup : String → Option User) (k : ℕ) (names : List String) (name : String) (u : User)
    → any (str_eq name) names ≡ true
    → lookup name ≡ some u
    → u.id ≡ k
    → names_one lookup k names ≡ true
names_one_complete lookup k [] name u h found same = h
names_one_complete lookup k (n ∷ names) name u h found same = elim (Bool-cases (str_eq name n)) [
  | inl this ↦
      let e : name ≡ n = (str_eq_iff name n).0 this in
      ground (arith, sym (ap lookup e) ∙ found, same)
  | inr other ↦ ground (arith, h, other, names_one_complete lookup k names name u, found, same)
]
