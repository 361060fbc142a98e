-- ===== src/Exec.antt =====
-- Methods that change an object and may throw. What was written before a throw stays written, so
-- the state comes back beside the error too. `co` and `settle` (src/builder/thenable.js) run a
-- method's steps in their order, so a method is one action.
pub mod Keeps
pub mod Ends
pub mod Does
pub mod Returns
pub mod Total
use jarvis_agencyos.Base.{Bool, true, false, Option, none, some, List, [], ◌∷◌}

pub data Result {ℓ} (E A : Type ℓ) : Type ℓ where
  ok : A → Result E A
  err : E → Result E A

abbrev pub Exec {ℓ} : Type ℓ → Type ℓ → Type ℓ → Type ℓ
Exec S E A = S → Result E A × S

module _ {ℓ} {S E A : Type ℓ} where
  pub pure : A → Exec S E A
  pure a s = (ok a, s)

  pub raise : E → Exec S E A
  raise e s = (err e, s)

  pub lift : Result E A → Exec S E A
  lift r s = (r, s)

  pub gets : (S → A) → Exec S E A
  gets f s = (ok (f s), s)

  -- `if (!x) throw e`, for a value that may be null
  pub require_some : Option A → E → Exec S E A
  require_some none e s = (err e, s)
  require_some (some a) e s = (ok a, s)

  abbrev handle : (E → Exec S E A) → Result E A → Exec S E A
  handle h (ok a) s = (ok a, s)
  handle h (err e) s = h e s

  -- `try { … } catch (err) { … }`
  pub catch : Exec S E A → (E → Exec S E A) → Exec S E A
  catch m h s = let (r, s') = m s in handle h r s'

module _ {ℓ} {S E : Type ℓ} where
  pub modify : (S → S) → Exec S E (Unit {ℓ})
  modify f s = (ok tt, f s)

  -- `if (!b) throw e`
  pub require : Bool → E → Exec S E (Unit {ℓ})
  require true e s = (ok tt, s)
  require false e s = (err e, s)

  -- `if (b) { … }`
  pub when : Bool → Exec S E (Unit {ℓ}) → Exec S E (Unit {ℓ})
  when true m s = m s
  when false m s = (ok tt, s)

-- `if (x) … else …` on a value that may be null.
pub if_some {ℓ} : {S E A B : Type ℓ} → Option A → (A → Exec S E B) → Exec S E B → Exec S E B
if_some none f m = m
if_some (some a) f m = f a

-- The rest of a `try` block and its `catch`, on a result that is at hand.
pub on_result {ℓ} :
    {S E A B : Type ℓ} → Result E A → (A → Exec S E B) → (E → Exec S E B) → Exec S E B
on_result (ok a) f g = f a
on_result (err e) f g = g e

infixl 5 ◌▹◌
-- A computation that may throw, and changes nothing.
abbrev pub ◌▹◌ {ℓ} : {E A B : Type ℓ} → Result E A → (A → Result E B) → Result E B
◌▹◌ (ok a) f = f a
◌▹◌ (err e) f = err e

module _ {ℓ} {S E A B : Type ℓ} where
  abbrev continue : Result E A → (A → Exec S E B) → Exec S E B
  continue (ok a) f s = f a s
  continue (err e) f s = (err e, s)

  infixl 5 ◌>>=◌ ◌>>◌
  -- Opening this opens the other actions too.
  unfoldable pub ◌>>=◌ : Exec S E A → (A → Exec S E B) → Exec S E B
  unfolding pure raise lift gets require_some catch modify require when if_some on_result
  ◌>>=◌ m f s = let (r, s') = m s in continue r f s'

  abbrev pub ◌>>◌ : Exec S E A → Exec S E B → Exec S E B
  m >> n = m >>= λ _. n

-- `for (const x of xs) { … }`
unfoldable pub for_each {ℓ} :
    {S E A : Type ℓ} → List A → (A → Exec S E (Unit {ℓ})) → Exec S E (Unit {ℓ})
for_each [] body = pure tt
for_each (x ∷ xs) body = body x >> for_each xs body
