-- ===== src/Prelude/Lists.antt =====
-- Lists with native lengths, and the queries on tables: filtering, counting and updating rows by a
-- Boolean test.
use Prim.Native.Nat.{ℕ, zero, suc, ◌+◌, ◌≤◌, min}
use mathlib.Core.Path.{◌≡◌, refl}
use mathlib.Core.Bool.{Bool, true, false, not, ◌||◌}
use mathlib.Core.List.{List, [], ◌∷◌, ◌++◌}
use mathlib.Core.Option.{Option, none, some}
use native.Mathlib.Omega.{arith}
use gaggle.Prelude.Tests.{if◌then◌else◌}

module _ {ℓ} {A : Type ℓ} where
  abbrev pub length : List A → ℕ
  length [] = 0
  length (x ∷ xs) = suc (length xs)

  abbrev pub take : ℕ → List A → List A
  take zero xs = []
  take (suc n) [] = []
  take (suc n) (x ∷ xs) = x ∷ take n xs

  abbrev pub drop : ℕ → List A → List A
  drop zero xs = xs
  drop (suc n) [] = []
  drop (suc n) (x ∷ xs) = drop n xs

  pub length-append : (xs ys : List A) → length (xs ++ ys) ≡ length xs + length ys
  length-append [] ys = omega arith
  length-append (x ∷ xs) ys = omega (arith, length-append xs ys)

  pub length-take : (n : ℕ) (xs : List A) → length (take n xs) ≡ min n (length xs)
  length-take zero xs = omega arith
  length-take (suc n) [] = omega arith
  length-take (suc n) (x ∷ xs) = omega (arith, length-take n xs)

  -- SELECT * FROM t WHERE p
  abbrev pub select : (A → Bool) → List A → List A
  select p [] = []
  select p (x ∷ xs) = let rest = select p xs in if p x then x ∷ rest else rest

  -- The row of QueryRow: the first one that fits.
  abbrev pub find : (A → Bool) → List A → Option A
  find p [] = none
  find p (x ∷ xs) = let rest = find p xs in if p x then some x else rest

  -- SELECT COUNT(*) FROM t WHERE p
  abbrev pub count : (A → Bool) → List A → ℕ
  count p [] = 0
  count p (x ∷ xs) = (if p x then 1 else 0) + count p xs

  -- UPDATE t SET f WHERE p
  abbrev pub update : (A → Bool) → (A → A) → List A → List A
  update p f [] = []
  update p f (x ∷ xs) = (if p x then f x else x) ∷ update p f xs

  -- DELETE FROM t WHERE p
  abbrev pub delete : (A → Bool) → List A → List A
  delete p xs = select (λ x. not (p x)) xs

  -- SELECT EXISTS (SELECT 1 FROM t WHERE p)
  abbrev pub any : (A → Bool) → List A → Bool
  any p [] = false
  any p (x ∷ xs) = p x || any p xs

  abbrev pub All {κ} : (A → Type κ) → List A → Type κ
  All P [] = Unit
  All P (x ∷ xs) = P x × All P xs

-- Two lists of one length whose rows are related place by place.
abbrev pub All₂ {ℓ} : {A : Type ℓ} → (A → A → Type 0) → List A → List A → Type 0
All₂ R [] [] = Unit
All₂ R (x ∷ xs) (y ∷ ys) = R x y × All₂ R xs ys
All₂ R _ _ = ⊥

-- Where a row is after an INSERT.
pub any-append_one {ℓ} :
    {A : Type ℓ} (p : A → Bool) (xs : List A) (x : A) → any p (xs ++ x ∷ []) ≡ (any p xs || p x)
any-append_one p [] x = ground arith
any-append_one p (y ∷ xs) x = ground (arith, any-append_one p xs x)

-- Where a row is after a DELETE: rows that the DELETE's test spares, and rows that it takes.
module _ {ℓ} {A : Type ℓ} (p q : A → Bool) where
  pub any-delete_ne :
      ((x : A) → p x ≡ true → q x ≡ false) → (xs : List A) → any p (delete q xs) ≡ any p xs
  any-delete_ne h [] = refl
  any-delete_ne h (x ∷ xs) = ground (arith, h x, any-delete_ne h xs)

  pub any-delete_le :
      ((x : A) → p x ≡ true → q x ≡ true) → (xs : List A) → any p (delete q xs) ≡ false
  any-delete_le h [] = refl
  any-delete_le h (x ∷ xs) = ground (arith, h x, any-delete_le h xs)

module _ {ℓ} {A : Type ℓ} (p : A → Bool) where
  pub count-append_one :
      (xs : List A) (x : A) → count p (xs ++ x ∷ []) ≡ count p xs + (if p x then 1 else 0)
  count-append_one [] x = ground arith
  count-append_one (y ∷ xs) x = ground (arith, count-append_one xs x)

  pub count-delete-le : (q : A → Bool) (xs : List A) → count p (delete q xs) ≤ count p xs
  count-delete-le q [] = omega arith
  count-delete-le q (x ∷ xs) = ground (arith, count-delete-le q xs)

  pub count-none : (xs : List A) → any p xs ≡ false → count p xs ≡ 0
  count-none [] h = refl
  count-none (x ∷ xs) h = ground (arith, count-none xs)

  pub delete-none : (xs : List A) → any p xs ≡ false → delete p xs ≡ xs
  delete-none [] h = refl
  delete-none (x ∷ xs) h = ground (arith, delete-none xs)
