-- ===== src/Exec/Does.antt =====
-- What holds after an action that returned: a triple of a fact before, the action, and a fact about
-- the value and the state after.
use jarvis_agencyos.Base.{
  ◌≡◌, refl, Bool, true, false, Option, none, some, List, [], ◌∷◌, if◌then◌else◌,
}
use jarvis_agencyos.Exec.{
  Result, ok, err, Exec, lift, pure, gets, modify, raise, catch, require, require_some, if_some,
  on_result, when, for_each, ◌>>=◌,
}
use jarvis_agencyos.Exec.Keeps.{Keeps, Keeps-bind-lift}
use jarvis_agencyos.Exec.Returns.{Returns, ok-injective, err≢ok}

pub record Does {ℓ} {S E A : Type ℓ} (Q : S → Type ℓ) (R : A → S → Type ℓ) (m : Exec S E A)
    : Type ℓ where
  pub at : (s : S) → Q s → (a : A) → (m s).0 ≡ ok a → R a (m s).1

module _ {ℓ} {S E A : Type ℓ} {Q : S → Type ℓ} where
  pub Does-pure : {R : A → S → Type ℓ} (a : A) → ((s : S) → Q s → R a s) → Does {E = E} Q R (pure a)
  unfolding ◌>>=◌
  Does-pure {R} a k = record { at = λ s q b h. rw (← ok-injective h) (k s q) }

  pub Does-weaken :
      {P : S → Type ℓ} {R : A → S → Type ℓ} (m : Exec S E A)
      → ((s : S) → P s → Q s)
      → Does Q R m
      → Does P R m
  Does-weaken m w d = record { at = λ s p. d.at s (w s p) }

  pub Does-implies :
      {R T : A → S → Type ℓ} (m : Exec S E A)
      → ((a : A) (s : S) → R a s → T a s)
      → Does Q R m
      → Does Q T m
  Does-implies m w d = record { at = λ s q a h. w a (m s).1 (d.at s q a h) }

  -- A consequence of the fact before, that does not depend on the state.
  pub Does-know :
      {F : Type ℓ} {R : A → S → Type ℓ} (m : Exec S E A)
      → ((s : S) → Q s → F)
      → (F → Does Q R m)
      → Does Q R m
  Does-know m w k = record { at = λ s q. (k (w s q)).at s q }

  -- Nothing is known after the step.
  pub Does-any : (m : Exec S E A) → Does Q (λ _ _. Unit) m
  Does-any m = record { at = λ s q a h. tt }

  -- A step that only throws.
  pub Does-raise : {R : A → S → Type ℓ} (e : E) → Does Q R (raise e)
  unfolding ◌>>=◌
  Does-raise e = record { at = λ s q a h. absurd (err≢ok h) }

  -- Both branches of a test.
  pub Does-if :
      {R : A → S → Type ℓ} (t : Bool) (m n : Exec S E A)
      → (t ≡ true → Does Q R m)
      → (t ≡ false → Does Q R n)
      → Does Q R (if t then m else n)
  Does-if true m n k d = k refl
  Does-if false m n k d = d refl

  -- Two facts about one action.
  pub Does-and :
      {R T : A → S → Type ℓ} (m : Exec S E A)
      → Does Q R m
      → Does Q T m
      → Does Q (λ a s. R a s × T a s) m
  Does-and m d e = record { at = λ s q a h. (d.at s q a h, e.at s q a h) }

  pub Does-Returns : {T : A → Type ℓ} (m : Exec S E A) → Returns T m → Does Q (λ a _. T a) m
  Does-Returns m k = record { at = λ s q. k.at s }

  -- A block that ends in a row that must be there.
  pub Does-some_last :
      {R : A → S → Type ℓ} (o : Option A) (e : E)
      → ((a : A) → o ≡ some a → (s : S) → Q s → R a s)
      → Does Q R (require_some o e)
  unfolding ◌>>=◌
  Does-some_last none e k = record { at = λ s q a h. absurd (err≢ok h) }
  Does-some_last {R} (some b) e k = record { at = λ s q a h. rw (← ok-injective h) (k b refl s q) }

  pub Does-Keeps : (m : Exec S E A) → Keeps Q m → Does Q (λ _ s. Q s) m
  Does-Keeps m k = record { at = λ s q a h. k.at s q }

module _ {ℓ} {S E A B : Type ℓ} where
  after :
      (R : B → S → Type ℓ) (f : A → Exec S E B) (r : Result E A) (s : S) (b : B)
      → ((a : A) → r ≡ ok a → (f a s).0 ≡ ok b → R b (f a s).1)
      → ((lift r >>= f) s).0 ≡ ok b
      → R b ((lift r >>= f) s).1
  unfolding ◌>>=◌
  after R f (ok a) s b k h = k a refl h
  after R f (err e) s b k h = absurd (err≢ok h)

module _ {ℓ} {S E B : Type ℓ} where
  -- An error that is thrown again as another one.
  rethrown :
      (h : E → E) (r : Result E B) (s : S) (b : B)
      → ((catch (lift r) (λ e. raise (h e))) s).0 ≡ ok b
      → (r ≡ ok b) × (((catch (lift r) (λ e. raise (h e))) s).1 ≡ s)
  unfolding ◌>>=◌
  rethrown h (ok a) s b e = (e, refl)
  rethrown h (err f) s b e = absurd (err≢ok e)

module _ {ℓ} {S E B : Type ℓ} where
  after_catch :
      (R : B → S → Type ℓ) (h : E → Exec S E B) (r : Result E B) (s : S) (b : B)
      → (r ≡ ok b → R b s)
      → ((e : E) → r ≡ err e → (h e s).0 ≡ ok b → R b (h e s).1)
      → (catch (lift r) h s).0 ≡ ok b
      → R b (catch (lift r) h s).1
  unfolding ◌>>=◌
  after_catch R h (ok a) s b k f e = k e
  after_catch R h (err c) s b k f e = f c refl e

  -- A `try` block and its handler, which starts where the block threw.
  pub Does-catch :
      {Q P : S → Type ℓ} {R : B → S → Type ℓ} (m : Exec S E B) (h : E → Exec S E B)
      → Does Q R m
      → ((s : S) → Q s → (e : E) → (m s).0 ≡ err e → P (m s).1)
      → ((e : E) → Does P R (h e))
      → Does Q R (catch m h)
  unfolding ◌>>=◌
  Does-catch {R} m h d thrown k = record {
    at = λ s q b.
        after_catch R h (m s).0 (m s).1 b (d.at s q b) (λ e f. (k e).at (m s).1 (thrown s q e f) b);
  }

module _ {ℓ} {S E A B : Type ℓ} {Q : S → Type ℓ} {R : B → S → Type ℓ} where
  pub Does-bind :
      {M : A → S → Type ℓ} (m : Exec S E A) (f : A → Exec S E B)
      → Does Q M m
      → ((a : A) → Does (M a) R (f a))
      → Does Q R (m >>= f)
  unfolding ◌>>=◌
  Does-bind m f d k = record {
    at = λ s q b h. after R f (m s).0 (m s).1 b (λ a e g. (k a).at (m s).1 (d.at s q a e) b g) h;
  }

  -- What is read is known to the rest.
  pub Does-gets :
      (g : S → A) (f : A → Exec S E B)
      → ((a : A) → Does (λ s. Q s × (g s ≡ a)) R (f a))
      → Does Q R (gets g >>= f)
  unfolding ◌>>=◌
  Does-gets g f k = record { at = λ s q b h. (k (g s)).at s (q, refl) b h }

  pub Does-lift :
      (r : Result E A) (f : A → Exec S E B)
      → ((a : A) → r ≡ ok a → Does Q R (f a))
      → Does Q R (lift r >>= f)
  Does-lift r f k = record { at = λ s q b h. after R f r s b (λ a e g. (k a e).at s q b g) h }

  pub Does-some :
      (o : Option A) (e : E) (f : A → Exec S E B)
      → ((a : A) → o ≡ some a → Does Q R (f a))
      → Does Q R (require_some o e >>= f)
  unfolding ◌>>=◌
  Does-some none e f k = record { at = λ s q b h. absurd (err≢ok h) }
  Does-some (some a) e f k = record { at = λ s q b h. (k a refl).at s q b h }

module _ {ℓ} {S E A B : Type ℓ} {Q : S → Type ℓ} {R : B → S → Type ℓ} where
  -- The rest of a block that needs nothing from the step before.
  pub Does-then :
      (m : Exec S E A) (f : A → Exec S E B)
      → ((a : A) → Does (λ _. Unit) R (f a))
      → Does Q R (m >>= f)
  Does-then m f k = Does-bind m f (Does-any m) k

module _ {ℓ} {S E B : Type ℓ} {Q : S → Type ℓ} {R : B → S → Type ℓ} where
  pub Does-require :
      (t : Bool) (e : E) (m : Exec S E B)
      → (t ≡ true → Does Q R m)
      → Does Q R (require t e >>= λ _. m)
  unfolding ◌>>=◌
  Does-require true e m k = record { at = λ s q b h. (k refl).at s q b h }
  Does-require false e m k = record { at = λ s q b h. absurd (err≢ok h) }

  pub Does-modify :
      {M : S → Type ℓ} (g : S → S) (m : Exec S E B)
      → ((s : S) → Q s → M (g s))
      → Does M R m
      → Does Q R (modify g >>= λ _. m)
  unfolding ◌>>=◌
  Does-modify g m w d = record { at = λ s q b h. d.at (g s) (w s q) b h }

  pub Does-rethrow :
      (m : Exec S E B) (h : E → E) → Does Q R m → Does Q R (catch m (λ e. raise (h e)))
  unfolding ◌>>=◌
  Does-rethrow m h d = record {
    at = λ s q b e. let (r, same) = rethrown h (m s).0 (m s).1 b e in rw same (d.at s q b r);
  }

module _ {ℓ} {S E A B : Type ℓ} {Q : S → Type ℓ} {R : B → S → Type ℓ} where
  pub Does-if_some :
      (o : Option A) (f : A → Exec S E B) (m : Exec S E B)
      → ((a : A) → o ≡ some a → Does Q R (f a))
      → (o ≡ none → Does Q R m)
      → Does Q R (if_some o f m)
  unfolding ◌>>=◌
  Does-if_some none f m k d = d refl
  Does-if_some (some a) f m k d = k a refl

module _ {ℓ} {S E A B : Type ℓ} {Q : S → Type ℓ} {R : B → S → Type ℓ} where
  pub Does-on_result :
      (r : Result E A) (f : A → Exec S E B) (g : E → Exec S E B)
      → ((a : A) → r ≡ ok a → Does Q R (f a))
      → ((e : E) → r ≡ err e → Does Q R (g e))
      → Does Q R (on_result r f g)
  unfolding ◌>>=◌
  Does-on_result (ok a) f g k l = k a refl
  Does-on_result (err e) f g k l = l e refl

module _ {ℓ} {S E : Type ℓ} {Q : S → Type ℓ} {R : Unit {ℓ} → S → Type ℓ} where
  -- A block that ends in a write.
  pub Does-modify_last : (g : S → S) → ((s : S) → Q s → R tt (g s)) → Does {E = E} Q R (modify g)
  unfolding ◌>>=◌
  Does-modify_last g w = record { at = λ s q a h. w s q }

  pub Does-when :
      (t : Bool) (m : Exec S E Unit)
      → (t ≡ true → Does Q R m)
      → (t ≡ false → (s : S) → Q s → R tt s)
      → Does Q R (when t m)
  unfolding ◌>>=◌
  Does-when true m k w = record { at = λ s q. (k refl).at s q }
  Does-when false m k w = record { at = λ s q a h. w refl s q }

-- The rest of a block after a step of which something is known.
pub Keeps-bind_result {ℓ} :
    {S E A B : Type ℓ} {Inv : S → Type ℓ} {K : A → Type ℓ} (m : Exec S E A) (f : A → Exec S E B)
    → Keeps Inv m
    → Does Inv (λ a _. K a) m
    → ((a : A) → K a → Keeps Inv (f a))
    → Keeps Inv (m >>= f)
unfolding ◌>>=◌
Keeps-bind_result m f first d rest = record {
  at = λ s h. (Keeps-bind-lift (m s).0 f (λ a e. rest a (d.at s h a e))).at (m s).1 (first.at s h);
}

-- A loop whose fact speaks of the elements that are left.
pub Does-for_each {ℓ} :
    {S E A : Type ℓ} {I : List A → S → Type ℓ} (xs : List A) (body : A → Exec S E Unit)
    → ((x : A) (rest : List A) → Does (I (x ∷ rest)) (λ _. I rest) (body x))
    → Does (I xs) (λ _. I []) (for_each xs body)
unfolding for_each
Does-for_each [] body k = Does-pure tt (λ s q. q)
Does-for_each (x ∷ xs) body k = Does-bind _ _ (k x xs) (λ _. Does-for_each xs body k)
