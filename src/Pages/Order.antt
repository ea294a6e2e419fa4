-- ===== src/Pages/Order.antt =====
-- ORDER BY created_at DESC, id DESC, and rows before a cursor: (created_at, id) < (t, i).
use gaggle.Prelude.{
  ℕ, ◌≡◌, refl, Bool, true, false, not, ◌&&◌, ◌||◌, List, [], ◌∷◌, ◌++◌, arith, ◌==◌, ltb,
  if◌then◌else◌, select, any, All, Bool-cases, inl, inr,
}
use gaggle.Posts.Audience.{every}

module _ {A : Type 0} (stamp id : A → ℕ) where
  -- (stamp a, id a) < (t, i)
  abbrev pub is_before : ℕ → ℕ → A → Bool
  is_before t i a = ltb (stamp a) t || (stamp a == t && ltb (id a) i)

  abbrev insert_newest : A → List A → List A
  insert_newest a [] = a ∷ []
  insert_newest a (b ∷ bs) =
      let rest = insert_newest a bs in if is_before (stamp a) (id a) b then a ∷ b ∷ bs else b ∷ rest

  abbrev pub newest_first : List A → List A
  newest_first [] = []
  newest_first (a ∷ xs) = insert_newest a (newest_first xs)

  -- Every row is before all rows in front of it.
  abbrev pub is_descending : List A → Bool
  is_descending [] = true
  is_descending (a ∷ xs) = every (is_before (stamp a) (id a)) xs && is_descending xs

  -- No two rows have one id.
  abbrev pub is_keyed : List A → Bool
  is_keyed [] = true
  is_keyed (a ∷ xs) = not (any (λ b. id b == id a) xs) && is_keyed xs

  every_before :
      (t i : ℕ) (a : A) (xs : List A)
      → is_before t i a ≡ true
      → every (is_before (stamp a) (id a)) xs ≡ true
      → every (is_before t i) xs ≡ true
  every_before t i a [] h k = refl
  every_before t i a (b ∷ bs) h k = ground (arith, every_before t i a bs h)

  every-insert :
      (p : A → Bool) (a : A) (xs : List A) → every p (insert_newest a xs) ≡ (p a && every p xs)
  every-insert p a [] = ground arith
  every-insert p a (b ∷ bs) = ground (arith, every-insert p a bs)

  any-insert : (p : A → Bool) (a : A) (xs : List A) → any p (insert_newest a xs) ≡ (p a || any p xs)
  any-insert p a [] = ground arith
  any-insert p a (b ∷ bs) = ground (arith, any-insert p a bs)

  any-newest : (p : A → Bool) (xs : List A) → any p (newest_first xs) ≡ any p xs
  any-newest p [] = refl
  any-newest p (a ∷ xs) = ground (arith, any-insert p a (newest_first xs), any-newest p xs)

  insert-is_descending :
      (a : A) (xs : List A)
      → any (λ b. id b == id a) xs ≡ false
      → is_descending xs ≡ true
      → is_descending (insert_newest a xs) ≡ true
  insert-is_descending a [] new h = refl
  insert-is_descending a (b ∷ bs) new h = ground (
    arith,
    insert-is_descending a bs,
    every-insert (is_before (stamp b) (id b)) a bs,
    every_before (stamp a) (id a) b bs,
  )

  pub newest_first-is_descending :
      (xs : List A) → is_keyed xs ≡ true → is_descending (newest_first xs) ≡ true
  newest_first-is_descending [] h = refl
  newest_first-is_descending (a ∷ xs) h = ground (
    arith,
    newest_first-is_descending xs,
    any-newest (λ b. id b == id a) xs,
    insert-is_descending a (newest_first xs),
  )

  every-select : (p q : A → Bool) (xs : List A) → every p xs ≡ true → every p (select q xs) ≡ true
  every-select p q [] h = refl
  every-select p q (a ∷ xs) h = ground (arith, every-select p q xs)

  pub select-is_descending :
      (q : A → Bool) (xs : List A) → is_descending xs ≡ true → is_descending (select q xs) ≡ true
  select-is_descending q [] h = refl
  select-is_descending q (a ∷ xs) h =
      ground (arith, select-is_descending q xs, every-select (is_before (stamp a) (id a)) q xs)

  select_all : (p : A → Bool) (xs : List A) → every p xs ≡ true → select p xs ≡ xs
  select_all p [] h = refl
  select_all p (a ∷ xs) h = ground (arith, select_all p xs)

  every_middle :
      (p : A → Bool) (us : List A) (u : A) (vs : List A)
      → every p (us ++ u ∷ vs) ≡ true
      → p u ≡ true
  every_middle p [] u vs k = ground arith
  every_middle p (v ∷ us) u vs k = ground (arith, every_middle p us u vs)

  not_before :
      (xs : List A) (a : A) (ys : List A)
      → is_descending (xs ++ a ∷ ys) ≡ true
      → select (is_before (stamp a) (id a)) (xs ++ a ∷ ys) ≡ ys
  not_before [] a ys h = ground (arith, select_all (is_before (stamp a) (id a)) ys)
  not_before (x ∷ xs) a ys h =
      ground (arith, not_before xs a ys, every_middle (is_before (stamp x) (id x)) xs a ys)

  select_and : (p r : A → Bool) (bs : List A) → select (λ b. p b && r b) bs ≡ select r (select p bs)
  select_and p r [] = refl
  select_and p r (b ∷ bs) = ground (arith, select_and p r bs)

  -- What the cursor of a row leaves of an ordered selection: the rows behind it.
  pub select-before :
      (q : A → Bool) (rows xs : List A) (a : A) (ys : List A)
      → is_descending rows ≡ true
      → select q rows ≡ xs ++ a ∷ ys
      → select (λ b. q b && is_before (stamp a) (id a) b) rows ≡ ys
  select-before q rows xs a ys h e =
      rw
        (
          select_and q (is_before (stamp a) (id a)) rows,
          e,
          not_before xs a ys (rw e at (select-is_descending q rows h)),
        )
        refl

  -- A predicate of all rows is one of the ordered rows.
  All-insert : (P : A → Type 0) (a : A) (xs : List A) → P a → All P xs → All P (insert_newest a xs)
  All-insert P a [] p h = (p, tt)
  All-insert P a (b ∷ bs) p (q, h) = elim (Bool-cases (is_before (stamp a) (id a) b)) [
    | inl first ↦ rw first (p, (q, h))
    | inr later ↦ rw later (q, All-insert P a bs p h)
  ]

  pub All-newest : (P : A → Type 0) (xs : List A) → All P xs → All P (newest_first xs)
  All-newest P [] h = tt
  All-newest P (a ∷ xs) (p, h) = All-insert P a (newest_first xs) p (All-newest P xs h)

-- A predicate of all rows, where the rows of a selection also have the test.
pub All-select :
    {A : Type 0} (P : A → Type 0) (q : A → Bool) (xs : List A)
    → All P xs
    → All (λ a. P a × (q a ≡ true)) (select q xs)
All-select P q [] h = tt
All-select P q (a ∷ xs) (p, h) = elim (Bool-cases (q a)) [
  | inl fits ↦ rw fits ((p, fits), All-select P q xs h)
  | inr fails ↦ rw fails (All-select P q xs h)
]
