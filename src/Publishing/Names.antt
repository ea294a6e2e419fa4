-- ===== src/Publishing/Names.antt =====
-- Whom a text names for the index of mentions, said without the code's scanner.
use Prim.Native.Char.{code}
use mathlib.Core.Path.{subst}
use gaggle.Prelude.{
  some, find, ◌↔◌, ℕ, zero, suc, ◌≤◌, ◌≡◌, refl, ◌⊎◌, inl, inr, sym, ap, ◌∙◌, Bool, true, false,
  not, ◌&&◌, String, List, [], ◌∷◌, arith, ◌==◌, str_eq, str_eq_iff, str_eq_refl, Bool-cases, any,
}
use gaggle.Database.{User}
use gaggle.Publishing.Indexes.{is_named}
use gaggle.Posts.Names.{
  names_one, names_one_sound, names_one_complete, is_name_letter, all_letters, starts_in_word,
  chain,
}
use gaggle.Publishing.Tags.{word_run, matches, unique_names, extract_mentions, lower_text}

-- How many characters the text has.
abbrev pub size : String → ℕ
size String.[] = 0
size (String.◌∷◌ c s) = suc (size s)

-- The text begins with this run of letters, and it is the whole run or the first 16 of a longer one.
pub record StartsWith (limit : ℕ) (s run : String) : Type 0 where
  pub after : String
  pub split : s ≡ chain run after
  pub letters : all_letters run ≡ true
  pub ends : (size run ≡ limit) ⊎ ((size run ≤ limit) × (starts_in_word after ≡ false))

-- The text has an @ somewhere that stands behind no letter, with the name right behind it; `behind`
-- says whether a letter stands in front of the text.
abbrev pub NamesIn : Bool → String → String → Type 0
NamesIn behind String.[] run = false ≡ true
NamesIn behind (String.◌∷◌ c s) run =
    ((code c ≡ b'@') × (behind ≡ false) × (1 ≤ size run) × StartsWith 16 s run)
    ⊎ NamesIn (is_name_letter c) s run

word_run_of :
    (limit : ℕ) (run after : String)
    → all_letters run ≡ true
    → (size run ≡ limit) ⊎ ((size run ≤ limit) × (starts_in_word after ≡ false))
    → word_run limit (chain run after) ≡ run
unfolding word_run
word_run_of zero String.[] after h k = refl
word_run_of zero (String.◌∷◌ c run) after h k = ground (arith, k)
word_run_of (suc n) String.[] String.[] h k = refl
word_run_of (suc n) String.[] (String.◌∷◌ c s) h k = ground (arith, k)
word_run_of (suc n) (String.◌∷◌ c run) after h (inl k) =
    ground (arith, h, word_run_of n run after (ground (arith, h)) (inl (omega arith)))
word_run_of (suc n) (String.◌∷◌ c run) after h (inr (k, l)) =
    ground (arith, h, word_run_of n run after (ground (arith, h)) (inr (omega arith, l)))

word_run_split : (limit : ℕ) (s : String) → StartsWith limit s (word_run limit s)
unfolding word_run
word_run_split zero s = record { after = s; split = refl; letters = refl; ends = inl refl }
word_run_split (suc n) String.[] = record {
  after = String.[];
  split = refl;
  letters = refl;
  ends = inr (omega arith, refl);
}
word_run_split (suc n) (String.◌∷◌ c s) = elim (Bool-cases (is_name_letter c)) [
  | inl letter ↦
      let r = word_run_split n s in
      rw letter (record {
        after = r.after;
        split = ap (String.◌∷◌ c) r.split;
        letters = ground (arith, letter, r.letters);
        ends = elim r.ends [ inl e ↦ inl (ap suc e) | inr (e, f) ↦ inr (omega (arith, e), f) ];
      })
  | inr other ↦ rw other (record {
    after = String.◌∷◌ c s;
    split = refl;
    letters = refl;
    ends = inr (omega arith, other);
  })
]

nonempty : (s : String) → str_eq s "" ≡ false → 1 ≤ size s
nonempty String.[] h = ground (arith, h)
nonempty (String.◌∷◌ c s) h = omega arith

nonempty_size : (s : String) → 1 ≤ size s → str_eq s "" ≡ false
nonempty_size String.[] h = ground (arith, h)
nonempty_size (String.◌∷◌ c s) h = elim (Bool-cases (str_eq (String.◌∷◌ c s) "")) [
  | inl same ↦
      let absurd : suc (size s) ≡ 0 = ap size ((str_eq_iff (String.◌∷◌ c s) "").0 same) in
      ground (arith, absurd)
  | inr other ↦ other
]

matches_sound :
    (behind : Bool) (content run : String)
    → any (str_eq run) (matches b'@' 16 behind content) ≡ true
    → NamesIn behind content run
unfolding matches
matches_sound behind String.[] run h = h
matches_sound behind (String.◌∷◌ c s) run h =
    elim (Bool-cases (code c == b'@' && not behind && not (str_eq (word_run 16 s) ""))) [
      | inl here ↦ elim (Bool-cases (str_eq run (word_run 16 s))) [
        | inl same ↦
            let e : word_run 16 s ≡ run = sym ((str_eq_iff run (word_run 16 s)).0 same) in
            inl (
              ground (arith, here),
              ground (arith, here),
              subst (λ r. 1 ≤ size r) e (nonempty (word_run 16 s) (ground (arith, here))),
              subst (StartsWith 16 s) e (word_run_split 16 s),
            )
        | inr other ↦ inr (matches_sound (is_name_letter c) s run (ground (arith, h, here, other)))
      ]
      | inr other ↦ inr (matches_sound (is_name_letter c) s run (ground (arith, h, other)))
    ]

matches_complete :
    (behind : Bool) (content run : String)
    → NamesIn behind content run
    → any (str_eq run) (matches b'@' 16 behind content) ≡ true
unfolding matches
matches_complete behind String.[] run h = h
matches_complete behind (String.◌∷◌ c s) run (inl (at, start, some_letter, b)) =
    let same : word_run 16 s ≡ run =
      ap (word_run 16) b.split ∙ word_run_of 16 run b.after b.letters b.ends in
    ground (arith, same, at, start, nonempty_size run some_letter, str_eq_refl run)
matches_complete behind (String.◌∷◌ c s) run (inr later) =
    ground (arith, matches_complete (is_name_letter c) s run later)

-- The names are the lowered ones that were not seen.
unique_sound :
    (seen names : List String) (name : String)
    → any (str_eq name) (unique_names seen names) ≡ true
    → (run : String) × (any (str_eq run) names ≡ true) × (lower_text run ≡ name)
unfolding unique_names
unique_sound seen [] name h = ground (arith, h)
unique_sound seen (m ∷ ms) name h = elim (Bool-cases (str_eq name (lower_text m))) [
  | inl this ↦ (m, rw (str_eq_refl m) refl, sym ((str_eq_iff name (lower_text m)).0 this))
  | inr other ↦ elim (Bool-cases (any (str_eq (lower_text m)) seen)) [
    | inl old ↦
        let (run, inside, e) = unique_sound seen ms name (ground (arith, h, old)) in
        (run, ground (arith, inside), e)
    | inr new ↦
        let (run, inside, e) =
          unique_sound (lower_text m ∷ seen) ms name (ground (arith, h, new, other)) in
        (run, ground (arith, inside), e)
  ]
]

unique_complete :
    (seen names : List String) (run : String)
    → any (str_eq run) names ≡ true
    → any (str_eq (lower_text run)) seen ≡ false
    → any (str_eq (lower_text run)) (unique_names seen names) ≡ true
unfolding unique_names
unique_complete seen [] run h k = h
unique_complete seen (m ∷ ms) run h k = elim (Bool-cases (str_eq (lower_text run) (lower_text m))) [
  | inl this ↦
      let e : lower_text run ≡ lower_text m = (str_eq_iff (lower_text run) (lower_text m)).0 this in
      ground (arith, this, ap (λ t. any (str_eq t) seen) e, k)
  | inr other ↦ elim (Bool-cases (str_eq run m)) [
    | inl same ↦
        let e : lower_text run ≡ lower_text m = ap lower_text ((str_eq_iff run m).0 same) in
        ground (arith, other, (str_eq_iff (lower_text run) (lower_text m)).1 e)
    | inr different ↦ ground (
      arith,
      h,
      k,
      other,
      different,
      unique_complete seen ms run,
      unique_complete (lower_text m ∷ seen) ms run,
    )
  ]
]

-- The extracted names are the lowered ones that the content has.
pub extract_mentions_sound :
    (content name : String)
    → any (str_eq name) (extract_mentions content) ≡ true
    → (run : String) × NamesIn false content run × (lower_text run ≡ name)
unfolding extract_mentions
extract_mentions_sound content name h =
    let (run, inside, e) = unique_sound [] (matches b'@' 16 false content) name h in
    (run, matches_sound false content run inside, e)

pub extract_mentions_complete :
    (content run : String)
    → NamesIn false content run
    → any (str_eq (lower_text run)) (extract_mentions content) ≡ true
unfolding extract_mentions
extract_mentions_complete content run h =
    unique_complete [] (matches b'@' 16 false content) run (matches_complete false content run h)
      refl

-- The content has the name of the user behind an @, in any case, and they are not deleted: the first
-- account of that name is theirs.
pub record IsMentioned (lower : String → String) (users : List User) (content : String) (k : ℕ)
    : Type 0 where
  pub name : String
  pub inside : NamesIn false content name
  pub user : User
  pub found :
      find (λ u. str_eq (lower u.username) (lower (lower_text name)) && not u.soft_deleted) users
      ≡ some user
  pub same : user.id ≡ k

-- A name of the list is that of the user, who is not deleted.
abbrev pub names_user : (String → String) → List User → ℕ → List String → Bool
names_user lower users user_id names =
    names_one (λ name. find (is_named lower name) users) user_id names

pub names_user_iff :
    (lower : String → String) (users : List User) (k : ℕ) (content : String)
    → (names_user lower users k (extract_mentions content) ≡ true)
      ↔ IsMentioned lower users content k
names_user_iff lower users k content = (
  λ h.
      let (n, extracted, user, found, same) =
        names_one_sound (λ name. find (is_named lower name) users) k (extract_mentions content) h in
      let (run, inside, e) = extract_mentions_sound content n extracted in
      record {
        name = run;
        inside = inside;
        user = user;
        found = ap (λ t. find (is_named lower t) users) e ∙ found;
        same = same;
      },
  λ i.
      names_one_complete (λ name. find (is_named lower name) users) k (extract_mentions content)
        (lower_text i.name) i.user (extract_mentions_complete content i.name i.inside) i.found
        i.same,
)
