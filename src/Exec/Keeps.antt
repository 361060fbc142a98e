-- ===== src/Exec/Keeps.antt =====
-- Invariants of actions, with a rule for each way to build an action.
use jarvis_agencyos.Base.{
  ◌≡◌, refl, Bool, true, false, Option, none, some, if◌then◌else◌, List, [], ◌∷◌, All,
}
use jarvis_agencyos.Exec.{
  Result, ok, err, Exec, pure, raise, lift, gets, require_some, catch, modify, require, when,
  for_each, if_some, on_result, ◌>>=◌,
}

-- `m` keeps `Inv`, whether it returns or throws.
pub record Keeps {ℓ} {S E A : Type ℓ} (Inv : S → Type ℓ) (m : Exec S E A) : Type ℓ where
  pub at : (s : S) → Inv s → Inv (m s).1

module _ {ℓ} {S E A : Type ℓ} {Inv : S → Type ℓ} where
  pub Keeps-pure : (a : A) → Keeps Inv (pure {E = E} a)
  unfolding ◌>>=◌
  Keeps-pure a = record { at = λ s held. held }

  pub Keeps-raise : (e : E) → Keeps Inv (raise {A = A} e)
  unfolding ◌>>=◌
  Keeps-raise e = record { at = λ s held. held }

  pub Keeps-lift : (r : Result E A) → Keeps Inv (lift r)
  unfolding ◌>>=◌
  Keeps-lift r = record { at = λ s held. held }

  pub Keeps-gets : (next : S → A) → Keeps Inv (gets {E = E} next)
  unfolding ◌>>=◌
  Keeps-gets next = record { at = λ s held. held }

  pub Keeps-require_some : (o : Option A) (e : E) → Keeps Inv (require_some o e)
  unfolding ◌>>=◌
  Keeps-require_some none e = record { at = λ s held. held }
  Keeps-require_some (some a) e = record { at = λ s held. held }

  pub Keeps-if :
      (b : Bool) (m n : Exec S E A) → Keeps Inv m → Keeps Inv n → Keeps Inv (if b then m else n)
  Keeps-if true m n first second = first
  Keeps-if false m n first second = second

  -- The same, when the branches need what the test found.
  pub Keeps-cases :
      (b : Bool) (m n : Exec S E A)
      → (b ≡ true → Keeps Inv m)
      → (b ≡ false → Keeps Inv n)
      → Keeps Inv (if b then m else n)
  Keeps-cases true m n k l = k refl
  Keeps-cases false m n k l = l refl

  handled :
      (h : E → Exec S E A) (r : Result E A) (s : S)
      → ((e : E) → Keeps Inv (h e))
      → Inv s
      → Inv (catch (lift r) h s).1
  unfolding ◌>>=◌
  handled h (ok a) s kh p = p
  handled h (err e) s kh p = (kh e).at s p

  pub Keeps-catch :
      (m : Exec S E A) (h : E → Exec S E A)
      → Keeps Inv m
      → ((e : E) → Keeps Inv (h e))
      → Keeps Inv (catch m h)
  unfolding ◌>>=◌
  Keeps-catch m h first kh = record {
    at = λ s p. let (r, s') = m s in handled h r s' kh (first.at s p);
  }

module _ {ℓ} {S E : Type ℓ} {Inv : S → Type ℓ} where
  pub Keeps-modify :
      (next : S → S) → ((s : S) → Inv s → Inv (next s)) → Keeps Inv (modify {E = E} next)
  unfolding ◌>>=◌
  Keeps-modify next k = record { at = k }

  pub Keeps-require : (b : Bool) (e : E) → Keeps Inv (require b e)
  unfolding ◌>>=◌
  Keeps-require true e = record { at = λ s held. held }
  Keeps-require false e = record { at = λ s held. held }

  pub Keeps-when : (b : Bool) (m : Exec S E Unit) → Keeps Inv m → Keeps Inv (when b m)
  unfolding ◌>>=◌
  Keeps-when true m first = record { at = λ s held. first.at s held }
  Keeps-when false m first = record { at = λ s held. held }

module _ {ℓ} {S E : Type ℓ} {Inv : S → Type ℓ} where
  pub Keeps-skip : (m : Exec S E Unit) → Keeps Inv (when false m)
  unfolding ◌>>=◌
  Keeps-skip m = record { at = λ s held. held }

module _ {ℓ} {S E A B : Type ℓ} {Inv : S → Type ℓ} where
  -- The rest of a block after a step that only computes a result.
  pub Keeps-bind-lift :
      (r : Result E A) (next : A → Exec S E B)
      → ((a : A) → r ≡ ok a → Keeps Inv (next a))
      → Keeps Inv (lift r >>= next)
  unfolding ◌>>=◌
  Keeps-bind-lift (ok a) next rest = record { at = λ s held. (rest a refl).at s held }
  Keeps-bind-lift (err e) next rest = record { at = λ s held. held }

  pub Keeps-bind :
      (m : Exec S E A) (next : A → Exec S E B)
      → Keeps Inv m
      → ((a : A) → Keeps Inv (next a))
      → Keeps Inv (m >>= next)
  unfolding ◌>>=◌
  Keeps-bind m next first rest = record {
    at = λ s held.
        let (r, s') = m s in (Keeps-bind-lift r next (λ a _. rest a)).at s' (first.at s held);
  }

  -- What a step reads is known to the rest of the block.
  pub Keeps-bind-gets :
      (g : S → A) (next : A → Exec S E B)
      → ((s : S) → Inv s → Inv (next (g s) s).1)
      → Keeps Inv (gets g >>= next)
  unfolding ◌>>=◌
  Keeps-bind-gets g next rest = record { at = rest }

  pub Keeps-bind_some :
      (o : Option A) (e : E) (next : A → Exec S E B)
      → ((a : A) → o ≡ some a → Keeps Inv (next a))
      → Keeps Inv (require_some o e >>= next)
  unfolding ◌>>=◌
  Keeps-bind_some none e next rest = record { at = λ s held. held }
  Keeps-bind_some (some a) e next rest = record { at = λ s held. (rest a refl).at s held }

module _ {ℓ} {S E A B : Type ℓ} {Inv : S → Type ℓ} where
  pub Keeps-if_some :
      (o : Option A) (next : A → Exec S E B) (m : Exec S E B)
      → ((a : A) → Keeps Inv (next a))
      → Keeps Inv m
      → Keeps Inv (if_some o next m)
  unfolding ◌>>=◌
  Keeps-if_some none next m rest first = first
  Keeps-if_some (some a) next m rest first = rest a

  pub Keeps-on_result :
      (r : Result E A) (next : A → Exec S E B) (g : E → Exec S E B)
      → ((a : A) → Keeps Inv (next a))
      → ((e : E) → Keeps Inv (g e))
      → Keeps Inv (on_result r next g)
  unfolding ◌>>=◌
  Keeps-on_result (ok a) next g rest kg = rest a
  Keeps-on_result (err e) next g rest kg = kg e

-- Two invariants at once.
pub Keeps-both {ℓ} :
    {S E A : Type ℓ} {Inv Also : S → Type ℓ} (m : Exec S E A)
    → Keeps Inv m
    → Keeps Also m
    → Keeps (λ s. Inv s × Also s) m
Keeps-both m k l = record { at = λ s h. (k.at s h.0, l.at s h.1) }

pub Keeps-for_each {ℓ} :
    {S E A : Type ℓ} {Inv : S → Type ℓ} (xs : List A) (body : A → Exec S E Unit)
    → ((x : A) → Keeps Inv (body x))
    → Keeps Inv (for_each xs body)
unfolding for_each
Keeps-for_each [] body k = Keeps-pure tt
Keeps-for_each (x ∷ xs) body k = Keeps-bind _ _ (k x) (λ _. Keeps-for_each xs body k)

-- A loop over rows that are known to be good.
pub Keeps-for_each-All {ℓ} :
    {S E A : Type ℓ} {Inv : S → Type ℓ} (P : A → Type ℓ) (xs : List A) (body : A → Exec S E Unit)
    → ((x : A) → P x → Keeps Inv (body x))
    → All P xs
    → Keeps Inv (for_each xs body)
unfolding for_each
Keeps-for_each-All P [] body k h = Keeps-pure tt
Keeps-for_each-All P (x ∷ xs) body k h =
    Keeps-bind _ _ (k x h.0) (λ _. Keeps-for_each-All P xs body k h.1)

pub ruleset keeps_rules = (
  Keeps-pure, Keeps-raise, Keeps-lift, Keeps-gets, Keeps-require_some, Keeps-if, Keeps-catch,
  Keeps-require, Keeps-when, Keeps-for_each, Keeps-if_some, Keeps-on_result, Keeps-bind,
)
