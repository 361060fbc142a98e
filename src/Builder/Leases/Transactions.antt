-- ===== src/Builder/Leases/Transactions.antt =====
-- The store's transactions (`tx`, src/builder/store.js).
use jarvis_agencyos.Base.{◌≡◌, refl, sym}
use jarvis_agencyos.Exec.{Result, ok, err}
use jarvis_agencyos.Exec.Returns.{err≢ok}
use jarvis_agencyos.Exec.Does.{Does}
use jarvis_agencyos.Builder.State.{Builder, Error, Action}
use jarvis_agencyos.Builder.Leases.{transaction, settled, rolled_back}

-- Nothing but the count of identifiers differs.
abbrev pub Unwritten : Builder → Builder → Type 0
Unwritten s s' = s' ≡ rolled_back s s'

settled-ok :
    {A : Type 0} (s s' : Builder) (r : Result Error A) (a : A)
    → (settled s r s').0 ≡ ok a
    → (r ≡ ok a) × ((settled s r s').1 ≡ s')
settled-ok s s' (ok b) a h = (h, refl)
settled-ok s s' (err e) a h = absurd (err≢ok h)

settled-err :
    {A : Type 0} (s s' : Builder) (r : Result Error A) (e : Error)
    → (settled s r s').0 ≡ err e
    → Unwritten s (settled s r s').1
settled-err s s' (ok b) e h = absurd (err≢ok (sym h))
settled-err s s' (err f) e h = refl

-- A transaction that returns did what its body did.
pub Does-transaction :
    {A : Type 0} {Q : Builder → Type 0} {R : A → Builder → Type 0} (m : Action A)
    → Does Q R m
    → Does Q R (transaction m)
unfolding transaction
Does-transaction m d = record {
  at = λ s q a h. let (r, same) = settled-ok s (m s).1 (m s).0 a h in rw same (d.at s q a r);
}

-- A transaction that throws has written nothing.
pub transaction-throws :
    {A : Type 0} (m : Action A) (s : Builder) (e : Error)
    → (transaction m s).0 ≡ err e
    → Unwritten s (transaction m s).1
unfolding transaction
transaction-throws m s e = settled-err s (m s).1 (m s).0 e
