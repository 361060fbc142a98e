-- ===== src/Exec/Total.antt =====
-- Actions that never throw.
use jarvis_agencyos.Base.{
  ◌≡◌, refl, Bool, true, false, Option, none, some, if◌then◌else◌, List, [], ◌∷◌,
}
use jarvis_agencyos.Exec.{
  Result, ok, err, Exec, pure, lift, gets, modify, when, for_each, if_some, on_result, ◌>>=◌,
}
use jarvis_agencyos.Exec.Returns.{err≢ok, ok-injective}

-- From every state, `m` returns a value.
pub record Total {ℓ} {S E A : Type ℓ} (m : Exec S E A) : Type ℓ where
  pub at : (s : S) → (a : A) × ((m s).0 ≡ ok a)

module _ {ℓ} {S E A : Type ℓ} where
  pub Total-pure : (a : A) → Total (pure {S = S} {E = E} a)
  unfolding ◌>>=◌
  Total-pure a = record { at = λ s. (a, refl) }

  pub Total-gets : (g : S → A) → Total (gets {E = E} g)
  unfolding ◌>>=◌
  Total-gets g = record { at = λ s. (g s, refl) }

  pub Total-if : (b : Bool) (m n : Exec S E A) → Total m → Total n → Total (if b then m else n)
  Total-if true m n k l = k
  Total-if false m n k l = l

module _ {ℓ} {S E A B : Type ℓ} where
  then-Total :
      (f : A → Exec S E B) (r : Result E A) (s : S) (a : A)
      → r ≡ ok a
      → Total (f a)
      → (b : B) × (((lift r >>= f) s).0 ≡ ok b)
  unfolding ◌>>=◌
  then-Total f (ok c) s a e k = rw (ok-injective e) (k.at s)
  then-Total f (err c) s a e k = absurd (err≢ok e)

  pub Total-bind :
      (m : Exec S E A) (f : A → Exec S E B) → Total m → ((a : A) → Total (f a)) → Total (m >>= f)
  unfolding ◌>>=◌
  Total-bind m f k l = record {
    at = λ s. let (a, e) = k.at s in then-Total f (m s).0 (m s).1 a e (l a);
  }

  pub Total-if_some :
      (o : Option A) (f : A → Exec S E B) (m : Exec S E B)
      → ((a : A) → Total (f a))
      → Total m
      → Total (if_some o f m)
  unfolding ◌>>=◌
  Total-if_some none f m k l = l
  Total-if_some (some a) f m k l = k a

  pub Total-on_result :
      (r : Result E A) (f : A → Exec S E B) (g : E → Exec S E B)
      → ((a : A) → Total (f a))
      → ((e : E) → Total (g e))
      → Total (on_result r f g)
  unfolding ◌>>=◌
  Total-on_result (ok a) f g k l = k a
  Total-on_result (err e) f g k l = l e

module _ {ℓ} {S E : Type ℓ} where
  pub Total-modify : (f : S → S) → Total (modify {E = E} f)
  unfolding ◌>>=◌
  Total-modify f = record { at = λ s. (tt, refl) }

  pub Total-when : (b : Bool) (m : Exec S E Unit) → Total m → Total (when b m)
  unfolding ◌>>=◌
  Total-when true m k = record { at = k.at }
  Total-when false m k = record { at = λ s. (tt, refl) }

pub Total-for_each {ℓ} :
    {S E A : Type ℓ} (xs : List A) (body : A → Exec S E Unit)
    → ((x : A) → Total (body x))
    → Total (for_each xs body)
unfolding for_each
Total-for_each [] body k = Total-pure tt
Total-for_each (x ∷ xs) body k = Total-bind _ _ (k x) (λ _. Total-for_each xs body k)

pub ruleset total_rules = (
  Total-pure, Total-gets, Total-if, Total-bind, Total-if_some, Total-on_result, Total-modify,
  Total-when, Total-for_each,
)
