-- ===== src/Exec/Ends.antt =====
-- Actions that start from one fact and end in another, whether they return or throw.
use jarvis_agencyos.Base.{◌≡◌, refl, Bool, true, false, Option, none, some, if◌then◌else◌}
use jarvis_agencyos.Exec.{
  Result, ok, err, Exec, raise, lift, gets, require_some, catch, modify, require, ◌>>=◌,
}
use jarvis_agencyos.Exec.Keeps.{Keeps, Keeps-bind-lift}

-- `m`, started where `Q` holds, ends where `Inv` holds.
pub record Ends {ℓ} {S E A : Type ℓ} (Q Inv : S → Type ℓ) (m : Exec S E A) : Type ℓ where
  pub at : (s : S) → Q s → Inv (m s).1

module _ {ℓ} {S E A B : Type ℓ} {Q Inv : S → Type ℓ} where
  Ends-lift :
      (r : Result E A) (next : A → Exec S E B)
      → ((s : S) → Q s → Inv s)
      → ((a : A) → Ends Q Inv (next a))
      → (s : S) → Q s
      → Inv ((lift r >>= next) s).1
  unfolding ◌>>=◌
  Ends-lift (ok a) next w rest s q = (rest a).at s q
  Ends-lift (err e) next w rest s q = w s q

  -- Steps that keep the stronger fact, then a step that uses it.
  pub Ends-bind :
      (m : Exec S E A) (next : A → Exec S E B)
      → ((s : S) → Q s → Inv s)
      → Keeps Q m
      → ((a : A) → Ends Q Inv (next a))
      → Ends Q Inv (m >>= next)
  unfolding ◌>>=◌
  Ends-bind m next w first rest = record {
    at = λ s held. let (r, s') = m s in Ends-lift r next w rest s' (first.at s held);
  }

  -- A step that uses the stronger fact, then steps that keep the weaker one.
  pub Ends-bind-Keeps :
      (m : Exec S E A) (next : A → Exec S E B)
      → Ends Q Inv m
      → ((a : A) → Keeps Inv (next a))
      → Ends Q Inv (m >>= next)
  unfolding ◌>>=◌
  Ends-bind-Keeps m next first rest = record {
    at = λ s held.
        let (r, s') = m s in (Keeps-bind-lift r next (λ a _. rest a)).at s' (first.at s held);
  }

module _ {ℓ} {S E A : Type ℓ} {Q Inv : S → Type ℓ} where
  pub Ends-Keeps : (m : Exec S E A) → ((s : S) → Q s → Inv s) → Keeps Inv m → Ends Q Inv m
  Ends-Keeps m w first = record { at = λ s q. first.at s (w s q) }

  pub Ends-if :
      (b : Bool) (m n : Exec S E A)
      → (b ≡ true → Ends Q Inv m)
      → (b ≡ false → Ends Q Inv n)
      → Ends Q Inv (if b then m else n)
  Ends-if true m n first second = first refl
  Ends-if false m n first second = second refl

  pub Ends-weaken :
      {R : S → Type ℓ} (m : Exec S E A) → Ends R Inv m → ((s : S) → Q s → R s) → Ends Q Inv m
  Ends-weaken m first w = record { at = λ s q. first.at s (w s q) }

module _ {ℓ} {S E B : Type ℓ} {Q Inv : S → Type ℓ} where
  pub Ends-bind-require :
      (b : Bool) (e : E) (m : Exec S E B)
      → ((s : S) → Q s → Inv s)
      → (b ≡ true → Ends Q Inv m)
      → Ends Q Inv (require b e >>= λ _. m)
  unfolding ◌>>=◌
  Ends-bind-require true e m w first = record { at = λ s held. (first refl).at s held }
  Ends-bind-require false e m w first = record { at = w }

module _ {ℓ} {S E A B : Type ℓ} {Q Inv : S → Type ℓ} where
  -- The rest of a block after a step that only computes a result.
  pub Ends-bind-lift :
      (r : Result E A) (next : A → Exec S E B)
      → ((s : S) → Q s → Inv s)
      → ((a : A) → r ≡ ok a → Ends Q Inv (next a))
      → Ends Q Inv (lift r >>= next)
  unfolding ◌>>=◌
  Ends-bind-lift (ok a) next w rest = record { at = λ s held. (rest a refl).at s held }
  Ends-bind-lift (err e) next w rest = record { at = λ s held. w s held }

  Ends-found :
      (g : S → Option A) (e : E) (next : A → Exec S E B)
      → ((s : S) → Q s → Inv s)
      → ((a : A) → Ends (λ s. Q s × (g s ≡ some a)) Inv (next a))
      → (s : S) (o : Option A) → g s ≡ o
      → Q s
      → Inv ((require_some o e >>= next) s).1
  unfolding ◌>>=◌
  Ends-found g e next w rest s none p q = w s q
  Ends-found g e next w rest s (some a) p q = (rest a).at s (q, p)

  -- A row that is read is known to the rest of the block.
  pub Ends-bind-found :
      (g : S → Option A) (e : E) (next : A → Exec S E B)
      → ((s : S) → Q s → Inv s)
      → ((a : A) → Ends (λ s. Q s × (g s ≡ some a)) Inv (next a))
      → Ends Q Inv (gets g >>= λ o. require_some o e >>= next)
  unfolding ◌>>=◌
  Ends-bind-found g e next w rest = record { at = λ s q. Ends-found g e next w rest s (g s) refl q }

module _ {ℓ} {S E A B : Type ℓ} {Inv : S → Type ℓ} where
  pub Keeps-bind-found :
      (g : S → Option A) (e : E) (next : A → Exec S E B)
      → ((a : A) → Ends (λ s. Inv s × (g s ≡ some a)) Inv (next a))
      → Keeps Inv (gets g >>= λ o. require_some o e >>= next)
  Keeps-bind-found g e next rest = record {
    at = λ s p. (Ends-bind-found g e next (λ s q. q) rest).at s p;
  }

module _ {ℓ} {S E A B : Type ℓ} {Q Inv : S → Type ℓ} where
  -- What is read is known to the rest of the block.
  pub Ends-bind-gets :
      (g : S → A) (next : A → Exec S E B)
      → ((a : A) → Ends (λ s. Q s × (g s ≡ a)) Inv (next a))
      → Ends Q Inv (gets g >>= next)
  unfolding ◌>>=◌
  Ends-bind-gets g next rest = record { at = λ s q. (rest (g s)).at s (q, refl) }

module _ {ℓ} {S E A : Type ℓ} where
  rethrow_ends :
      (Inv : S → Type ℓ) (h : E → E) (r : Result E A) (s : S)
      → Inv s
      → Inv (catch (lift r) (λ e. raise (h e)) s).1
  unfolding ◌>>=◌
  rethrow_ends Inv h (ok a) s p = p
  rethrow_ends Inv h (err e) s p = p

module _ {ℓ} {S E A : Type ℓ} {Q Inv : S → Type ℓ} where
  pub Ends-rethrow :
      (m : Exec S E A) (h : E → E) → Ends Q Inv m → Ends Q Inv (catch m (λ e. raise (h e)))
  unfolding ◌>>=◌
  Ends-rethrow m h first = record { at = λ s q. rethrow_ends Inv h (m s).0 (m s).1 (first.at s q) }

module _ {ℓ} {S E : Type ℓ} {Q Inv : S → Type ℓ} where
  pub Ends-modify :
      (next : S → S) → ((s : S) → Q s → Inv (next s)) → Ends Q Inv (modify {E = E} next)
  unfolding ◌>>=◌
  Ends-modify next k = record { at = k }
