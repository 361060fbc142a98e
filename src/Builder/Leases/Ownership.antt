-- ===== src/Builder/Leases/Ownership.antt =====
-- Who holds a lease (acquireControlLease and releaseControlLease, src/builder/store.js).
use jarvis_agencyos.Base.{
  ℕ, ◌≡◌, ◌≢◌, refl, sym, ◌∙◌, Bool, true, false, not, Option, none, some, [], ◌∷◌, Text, arith,
  text_eq, text_eq_sound, text_eq_refl, find-select, find-update_row, find-append_none, Bool-cases,
  inl, inr,
}
use jarvis_agencyos.Exec.{ok, ◌>>=◌}
use jarvis_agencyos.Exec.Does.{
  Does, Does-weaken, Does-pure, Does-if, Does-if_some, Does-bind, Does-gets, Does-require,
  Does-modify_last,
}
use jarvis_agencyos.Builder.State.{Lease, Builder}
use jarvis_agencyos.Builder.Leases.{
  Acquired, acquired, held_by_other, find_lease, get_control_lease, insert_lease, write_lease,
  refresh_lease, take_lease, acquire_control_lease, release_control_lease, transaction,
}
use jarvis_agencyos.Builder.Leases.Transactions.{Does-transaction}

module _ (key owner : Text) where
  -- The lease of the key is the owner's.
  abbrev pub Owned : Builder → Type 0
  Owned s = (l : Lease) × (find_lease key s.leases ≡ some l) × (l.owner ≡ owner)

  abbrev After : Acquired → Builder → Type 0
  After (acquired refreshed lease) s = Owned s
  After (held_by_other l) s = Unit

  write_lease-Owned : (t r : Option ℕ) → Does Owned (λ _. Owned) (write_lease key t r)
  unfolding write_lease
  write_lease-Owned t r =
      Does-modify_last _ λ s q. (_, find-update_row _ _ s.leases q.0 (λ x h. h) q.1, q.2)

  insert_lease-Owned :
      (l : Lease)
      → l.owner ≡ owner
      → text_eq l.lease_key key ≡ true
      → Does (λ s. find_lease key s.leases ≡ none) (λ _. Owned) (insert_lease l)
  unfolding insert_lease
  insert_lease-Owned l own is_key = Does-gets _ _ λ taken. Does-require _ _ _ λ _.
      Does-modify_last _ λ s q. (l, find-append_none _ s.leases (l ∷ []) q.0 ∙ rw is_key refl, own)

  acquire_control_lease-owned :
      (t r : Option ℕ) → Does (λ _. Unit) After (acquire_control_lease key owner t r)
  unfolding acquire_control_lease get_control_lease refresh_lease take_lease
  acquire_control_lease-owned t r = Does-transaction _ (
      Does-gets _ _ λ existing.
        Does-if_some _ _ _
          (λ l found.
            Does-if (not (text_eq l.owner owner)) _ _ (λ other. Does-pure _ (λ s q. tt))
              λ own.
                Does-bind _ _
                  (Does-weaken _
                    (λ s q. (l, q.1 ∙ found, text_eq_sound l.owner owner (ground (arith, own))))
                    (write_lease-Owned _ _))
                  λ _. Does-gets _ _ λ lease. Does-pure _ (λ s q. q.0))
          λ free. Does-gets _ _ λ time.
            Does-bind _ _
              (Does-weaken _ (λ s q. q.0.1 ∙ free) (insert_lease-Owned _ refl (text_eq_refl key)))
              λ _. Does-gets _ _ λ lease. Does-pure _ (λ s q. q.0))

text_eq-other : (s t : Text) → s ≢ t → text_eq s t ≡ false
text_eq-other s t n = elim (Bool-cases (text_eq s t)) [
  | inl same ↦ absurd (n (text_eq_sound s t same))
  | inr other ↦ other
]

-- A release by one owner leaves the lease of another.
release_control_lease-other :
    (key owner : Text) (c : ℕ) (o : Text) (s : Builder)
    → owner ≢ c ∷ o
    → Owned key owner s
    → Owned key owner (release_control_lease key (some (c ∷ o)) s).1
unfolding release_control_lease ◌>>=◌
release_control_lease-other key owner c o s n (l, found, own) =
    let other : text_eq l.owner (c ∷ o) ≡ false = text_eq-other _ _ (λ e. n (sym own ∙ e)) in
    (l, find-select _ _ s.leases l found (ground (arith, other)), own)

acquire_control_lease-refused :
    (key owner : Text) (o : Text) (t r : Option ℕ) (s : Builder) (l : Lease)
    → find_lease key s.leases ≡ some l
    → text_eq l.owner o ≡ false
    → acquire_control_lease key o t r s ≡ (ok (held_by_other l), s)
unfolding acquire_control_lease get_control_lease refresh_lease transaction ◌>>=◌
acquire_control_lease-refused key owner o t r s l found other =
    rw (acquire_control_lease, get_control_lease, found, refresh_lease, other) refl

-- A lease excludes: when one owner has acquired it, another owner whose name is a non-empty text can
-- neither release it nor acquire it afterwards. The acquisition is answered with the holder's lease
-- and changes nothing.
pub acquire_control_lease-excludes :
    (key owner : Text) (c : ℕ) (o : Text) (t r t' r' : Option ℕ) (s : Builder) (refreshed : Bool)
    (lease : Option Lease)
    → owner ≢ c ∷ o
    → (acquire_control_lease key owner t r s).0 ≡ ok (acquired refreshed lease)
    → let held = (acquire_control_lease key owner t r s).1 in
      let rest = (release_control_lease key (some (c ∷ o)) held).1 in
      (l : Lease) × (l.owner ≡ owner)
      × (acquire_control_lease key (c ∷ o) t' r' rest ≡ (ok (held_by_other l), rest))
acquire_control_lease-excludes key owner c o t r t' r' s refreshed lease n h =
    let held = (acquire_control_lease key owner t r s).1 in
    let own_lease =
      (acquire_control_lease-owned key owner t r).at s tt (acquired refreshed lease) h in
    let (l, found, own) = release_control_lease-other key owner c o held n own_lease in
    (
      l,
      own,
      acquire_control_lease-refused key owner (c ∷ o) t' r' _ l found
          (text_eq-other _ _ (λ e. n (sym own ∙ e))),
    )
