-- ===== src/Exec/Returns.antt =====
-- What an action that returned has done.
use jarvis_agencyos.Base.{◌≡◌, refl, Bool, true, false, Option, none, some, if◌then◌else◌}
use jarvis_agencyos.Exec.{
  Result, ok, err, Exec, lift, pure, raise, require, require_some, if_some, ◌>>=◌,
}

pub err≢ok {ℓ} : {E A : Type ℓ} {e : E} {a : A} → ◌≡◌ {A = Result E A} (err e) (ok a) → ⊥
err≢ok h = cc

module _ {ℓ} {S E A B : Type ℓ} where
  through :
      (f : A → Exec S E B) (r : Result E A) (s : S) (b : B)
      → ((lift r >>= f) s).0 ≡ ok b
      → (a : A) × (r ≡ ok a) × ((f a s).0 ≡ ok b)
  unfolding ◌>>=◌
  through f (ok a) s b h = (a, refl, h)
  through f (err e) s b h = absurd (err≢ok h)

  pub bind-returns :
      (m : Exec S E A) (f : A → Exec S E B) (s : S) (b : B)
      → ((m >>= f) s).0 ≡ ok b
      → (a : A) × ((m s).0 ≡ ok a) × ((f a (m s).1).0 ≡ ok b)
  unfolding ◌>>=◌
  bind-returns m f s b h = let (r, s') = m s in through f r s' b h

  -- A row that was asked for was there.
  pub some-returns :
      (o : Option A) (e : E) (f : A → Exec S E B) (s : S) (b : B)
      → ((require_some o e >>= f) s).0 ≡ ok b
      → (a : A) × (o ≡ some a) × ((f a s).0 ≡ ok b)
  unfolding ◌>>=◌
  some-returns none e f s b h = absurd (err≢ok h)
  some-returns (some a) e f s b h = (a, refl, h)

module _ {ℓ} {S E B : Type ℓ} where
  -- A guard that was passed held.
  pub require-returns :
      (t : Bool) (e : E) (m : Exec S E B) (s : S) (b : B)
      → ((require t e >>= λ _. m) s).0 ≡ ok b
      → (t ≡ true) × ((m s).0 ≡ ok b)
  unfolding ◌>>=◌
  require-returns true e m s b h = (refl, h)
  require-returns false e m s b h = absurd (err≢ok h)

-- Whatever `m` returns, from whatever state, has the property.
pub record Returns {ℓ} {S E A : Type ℓ} (Q : A → Type ℓ) (m : Exec S E A) : Type ℓ where
  pub at : (s : S) (a : A) → (m s).0 ≡ ok a → Q a

pub ok-injective {ℓ} : {E A : Type ℓ} {a b : A} → ◌≡◌ {A = Result E A} (ok a) (ok b) → a ≡ b
ok-injective h = cc

pub Returns-pure {ℓ} :
    {S E A : Type ℓ} {Q : A → Type ℓ} (a : A) → Q a → Returns Q (pure {S = S} {E = E} a)
unfolding ◌>>=◌
Returns-pure {Q} a q = record { at = λ s b h. rw (← ok-injective h) q }

pub Returns-bind {ℓ} :
    {S E A B : Type ℓ} {Q : B → Type ℓ} (m : Exec S E A) (f : A → Exec S E B)
    → ((a : A) → Returns Q (f a))
    → Returns Q (m >>= f)
Returns-bind m f k = record {
  at = λ s b h. let (a, e, h') = bind-returns m f s b h in (k a).at (m s).1 b h';
}

module _ {ℓ} {S E A : Type ℓ} where
  forgotten : (r : Result E A) (s : S) → ((lift r >>= λ _. pure tt) s).1 ≡ s
  unfolding ◌>>=◌
  forgotten (ok a) s = refl
  forgotten (err e) s = refl

  -- Dropping the value leaves the state.
  pub bind-pure_state : (m : Exec S E A) (s : S) → ((m >>= λ _. pure tt) s).1 ≡ (m s).1
  unfolding ◌>>=◌
  bind-pure_state m s = let (r, s') = m s in forgotten r s'

module _ {ℓ} {S E A : Type ℓ} where
  pub Returns-raise : {Q : A → Type ℓ} (e : E) → Returns Q (raise {S = S} e)
  unfolding ◌>>=◌
  Returns-raise e = record { at = λ s a h. absurd (err≢ok h) }

module _ {ℓ} {S E A B : Type ℓ} {Q : B → Type ℓ} where
  pub Returns-bind_some :
      (o : Option A) (e : E) (f : A → Exec S E B)
      → ((a : A) → o ≡ some a → Returns Q (f a))
      → Returns Q (require_some o e >>= f)
  Returns-bind_some o e f k = record {
    at = λ s b h. let (a, found, g) = some-returns o e f s b h in (k a found).at s b g;
  }

module _ {ℓ} {S E A B : Type ℓ} {Q : B → Type ℓ} where
  pub Returns-bind_given :
      (a : A) (e : E) (f : A → Exec S E B)
      → Returns Q (f a)
      → Returns Q (require_some (some a) e >>= f)
  unfolding ◌>>=◌
  Returns-bind_given a e f k = record { at = λ s. k.at s }

module _ {ℓ} {S E B : Type ℓ} {Q : B → Type ℓ} where
  pub Returns-bind_require :
      (t : Bool) (e : E) (m : Exec S E B)
      → (t ≡ true → Returns Q m)
      → Returns Q (require t e >>= λ _. m)
  Returns-bind_require t e m k = record {
    at = λ s b h. let (held, g) = require-returns t e m s b h in (k held).at s b g;
  }

-- What a step returns is known to the rest.
pub Returns-bind_known {ℓ} :
    {S E A B : Type ℓ} {K : A → Type ℓ} {Q : B → Type ℓ} (m : Exec S E A) (f : A → Exec S E B)
    → Returns K m
    → ((a : A) → K a → Returns Q (f a))
    → Returns Q (m >>= f)
Returns-bind_known m f d k = record {
  at = λ s b h. let (a, e, h') = bind-returns m f s b h in (k a (d.at s a e)).at (m s).1 b h';
}

pub Returns-implies {ℓ} :
    {S E A : Type ℓ} {K Q : A → Type ℓ} (m : Exec S E A)
    → Returns K m
    → ((a : A) → K a → Q a)
    → Returns Q m
Returns-implies m d k = record { at = λ s a h. k a (d.at s a h) }

pub Returns-if {ℓ} :
    {S E B : Type ℓ} {Q : B → Type ℓ} (t : Bool) (m n : Exec S E B)
    → Returns Q m
    → Returns Q n
    → Returns Q (if t then m else n)
Returns-if true m n k l = k
Returns-if false m n k l = l

-- The same, when the branches need what the test found.
pub Returns-cases {ℓ} :
    {S E B : Type ℓ} {Q : B → Type ℓ} (t : Bool) (m n : Exec S E B)
    → (t ≡ true → Returns Q m)
    → (t ≡ false → Returns Q n)
    → Returns Q (if t then m else n)
Returns-cases true m n k l = k refl
Returns-cases false m n k l = l refl

module _ {ℓ} {S E A B : Type ℓ} {Q : B → Type ℓ} where
  -- A result that was at hand.
  pub Returns-bind_lift :
      (r : Result E A) (f : A → Exec S E B)
      → ((a : A) → r ≡ ok a → Returns Q (f a))
      → Returns Q (lift r >>= f)
  unfolding ◌>>=◌
  Returns-bind_lift (ok a) f k = record { at = λ s. (k a refl).at s }
  Returns-bind_lift (err e) f k = record { at = λ s b h. absurd (err≢ok h) }

  pub Returns-if_some_known :
      (o : Option A) (f : A → Exec S E B) (m : Exec S E B)
      → ((a : A) → o ≡ some a → Returns Q (f a))
      → (o ≡ none → Returns Q m)
      → Returns Q (if_some o f m)
  unfolding ◌>>=◌
  Returns-if_some_known none f m k l = l refl
  Returns-if_some_known (some a) f m k l = k a refl

  pub Returns-if_some :
      (o : Option A) (f : A → Exec S E B) (m : Exec S E B)
      → ((a : A) → Returns Q (f a))
      → Returns Q m
      → Returns Q (if_some o f m)
  unfolding ◌>>=◌
  Returns-if_some none f m k l = l
  Returns-if_some (some a) f m k l = k a

pub ruleset returns_rules = (Returns-pure, Returns-raise, Returns-bind, Returns-if, Returns-if_some)
