-- ===== src/Base/Lists.antt =====
-- Lists with Boolean tests, and their lengths as native numbers.
use Prim.Native.Nat.{ℕ, suc, ◌+◌}
use mathlib.Core.Path.{◌≡◌, refl, ap, subst}
use mathlib.Core.Logic.{inl, inr}
use mathlib.Core.Bool.{Bool, true, false, ◌&&◌, ◌||◌}
use mathlib.Core.List.{List, [], ◌∷◌, ◌++◌}
use mathlib.Core.Option.{Option, none, some}
use native.Mathlib.Omega.{arith}
use jarvis_agencyos.Base.Tests.{if◌then◌else◌, Bool-cases, ◌==◌, ==_self}

module _ {ℓ} {A : Type ℓ} where
  abbrev pub length : List A → ℕ
  length [] = 0
  length (x ∷ xs) = suc (length xs)

  -- `Array.prototype.filter`
  abbrev pub select : (A → Bool) → List A → List A
  select p [] = []
  select p (x ∷ xs) = let rest = select p xs in if p x then x ∷ rest else rest

  -- the row that a primary key selects
  abbrev pub find : (A → Bool) → List A → Option A
  find p [] = none
  find p (x ∷ xs) = if p x then some x else find p xs

  -- `xs[0] || null` and `xs[xs.length - 1] || null`
  abbrev pub first : List A → Option A
  first [] = none
  first (x ∷ xs) = some x

  abbrev pub last : List A → Option A
  last [] = none
  last (x ∷ []) = some x
  last (x ∷ y ∷ ys) = last (y ∷ ys)

  -- `UPDATE … WHERE p`
  abbrev pub update : (A → Bool) → (A → A) → List A → List A
  update p f [] = []
  update p f (x ∷ xs) = (if p x then f x else x) ∷ update p f xs

  -- `Array.prototype.some` and `every`
  abbrev pub any : (A → Bool) → List A → Bool
  any p [] = false
  any p (x ∷ xs) = p x || any p xs

  abbrev pub all : (A → Bool) → List A → Bool
  all p [] = true
  all p (x ∷ xs) = p x && all p xs

  pub length-append : (xs ys : List A) → length (xs ++ ys) ≡ length xs + length ys
  length-append [] ys = omega arith
  length-append (x ∷ xs) ys = omega (arith, length-append xs ys)

  pub select-append :
      (p : A → Bool) (xs ys : List A) → select p (xs ++ ys) ≡ select p xs ++ select p ys
  select-append p [] ys = refl
  select-append p (x ∷ xs) ys = ground (arith, select-append p xs ys)

  pub find-append_none :
      (p : A → Bool) (xs ys : List A) → find p xs ≡ none → find p (xs ++ ys) ≡ find p ys
  find-append_none p [] ys h = refl
  find-append_none p (x ∷ xs) ys h = ground (arith, find-append_none p xs ys)

  pub find-append_some :
      (p : A → Bool) (xs ys : List A) (a : A) → find p xs ≡ some a → find p (xs ++ ys) ≡ some a
  find-append_some p [] ys a h = ground arith
  find-append_some p (x ∷ xs) ys a h = ground (arith, find-append_some p xs ys a)

  abbrev some_map : (A → A) → Option A → Option A
  some_map f none = none
  some_map f (some a) = some (f a)

  -- The row that a key selects, after it was written.
  pub find-update :
      (key : A → ℕ) (id : ℕ) (n : A) (xs : List A) (a : A)
      → find (λ x. key x == id) xs ≡ some a
      → key n ≡ id
      → find (λ x. key x == id) (update (λ x. key x == id) (λ _. n) xs) ≡ some n
  find-update key id n [] a h own = ground arith
  find-update key id n (x ∷ xs) a h own = elim (Bool-cases (key x == id)) [
    | inl here ↦ rw (here, own, ==_self id) refl
    | inr there ↦ rw (there, there) (find-update key id n xs a (rw there at h) own)
  ]

  -- The same for a change of the row that leaves its key.
  pub find-update_row :
      (p : A → Bool) (f : A → A) (xs : List A) (a : A)
      → ((x : A) → p x ≡ true → p (f x) ≡ true)
      → find p xs ≡ some a
      → find p (update p f xs) ≡ some (f a)
  find-update_row p f [] a k h = ground arith
  find-update_row p f (x ∷ xs) a k h = elim (Bool-cases (p x)) [
    | inl here ↦ rw (here, k x here) (ap (λ o. some_map f o) (rw here at h))
    | inr there ↦ rw (there, there) (find-update_row p f xs a k (rw there at h))
  ]

  -- A selection that takes a row does not hide it.
  pub find-select :
      (p q : A → Bool) (xs : List A) (a : A)
      → find p xs ≡ some a
      → q a ≡ true
      → find p (select q xs) ≡ some a
  find-select p q [] a h k = ground arith
  find-select p q (x ∷ xs) a h k = ground (arith, find-select p q xs a)

  some_path-injective : {a b : A} → ◌≡◌ {A = Option A} (some a) (some b) → a ≡ b
  some_path-injective h = cc

  -- Every row satisfies `Good`.
  abbrev pub All {κ} : (A → Type κ) → List A → Type κ
  All Good [] = Unit
  All Good (row ∷ rows) = Good row × All Good rows

  pub All-append {κ} :
      (Good : A → Type κ) (old new : List A) → All Good old → All Good new → All Good (old ++ new)
  All-append Good [] new before added = added
  All-append Good (row ∷ old) new (here, before) added =
      (here, All-append Good old new before added)

  pub All-find {κ} :
      (P : A → Type κ) (p : A → Bool) (xs : List A) (a : A) → All P xs → find p xs ≡ some a → P a
  All-find P p [] a h e = ground arith
  All-find P p (x ∷ xs) a h e = elim (Bool-cases (p x)) [
    | inl here ↦ subst P (some_path-injective (rw here at e)) h.0
    | inr later ↦ All-find P p xs a h.1 (rw later at e)
  ]

  pub All-update {κ} :
      (P : A → Type κ) (p : A → Bool) (f : A → A) (xs : List A)
      → ((a : A) → P a → p a ≡ true → P (f a))
      → All P xs
      → All P (update p f xs)
  All-update P p f [] k h = tt
  All-update P p f (x ∷ xs) k h = elim (Bool-cases (p x)) [
    | inl here ↦ rw here (k x h.0 here, All-update P p f xs k h.1)
    | inr later ↦ rw later (h.0, All-update P p f xs k h.1)
  ]

  pub All-select {κ} :
      (P : A → Type κ) (p : A → Bool) (xs : List A) → All P xs → All P (select p xs)
  All-select P p [] h = tt
  All-select P p (x ∷ xs) h = elim (Bool-cases (p x)) [
    | inl here ↦ rw here (h.0, All-select P p xs h.1)
    | inr later ↦ rw later (All-select P p xs h.1)
  ]

  pub All-map {κ μ} :
      (P : A → Type κ) (Q : A → Type μ) (xs : List A) → ((a : A) → P a → Q a) → All P xs → All Q xs
  All-map P Q [] k h = tt
  All-map P Q (x ∷ xs) k h = (k x h.0, All-map P Q xs k h.1)
