-- ===== src/Agency/Grants/First.antt =====
-- Which grant is found (src/contracts/grants.js).
use jarvis_agencyos.Base.{
  ℕ, ◌≤◌, ◌<◌, ◌≡◌, refl, sym, ap, subst, ◌∙◌, ◌⊎◌, inl, inr, true, false, Option, none, some, List,
  [], ◌∷◌, ◌++◌, Text, arith, All, Bool-cases, Option-cases,
}
use jarvis_agencyos.Exec.{ok}
use jarvis_agencyos.Exec.Returns.{ok-injective, err≢ok}
use jarvis_agencyos.Json.{Json}
use jarvis_agencyos.Agency.Capabilities.{filled}
use jarvis_agencyos.Agency.Grants.{
  Grant, scope_allows_capability, starts_later, has_expired, grants_now, first_grant,
  load_active_grant,
}

-- The grant covers the capability, has begun and has not ended.
pub record Covers (id : Text) (now : ℕ) (g : Grant) : Type 0 where
  pub scope : Json
  pub readable : g.capability_action_scope ≡ some scope
  pub in_scope : scope_allows_capability scope id ≡ true
  pub begun : (t : ℕ) → g.effective_at ≡ some t → t ≤ now
  pub lasting : (t : ℕ) → g.expires_at ≡ some (some t) → now < t

none≢some : {A : Type 0} {a : A} → ◌≡◌ {A = Option A} none (some a) → ⊥
none≢some h = cc

some-injective : {A : Type 0} {a b : A} → ◌≡◌ {A = Option A} (some a) (some b) → a ≡ b
some-injective h = cc

false≢true : false ≡ true → ⊥
false≢true h = ground arith

begun-lem : (o : Option ℕ) (now t : ℕ) → starts_later o now ≡ false → o ≡ some t → t ≤ now
begun-lem none now t h e = ground arith
begun-lem (some u) now t h e = ground arith

lasting-lem :
    (o : Option (Option ℕ)) (now t : ℕ) → has_expired o now ≡ false → o ≡ some (some t) → now < t
lasting-lem none now t h e = absurd (none≢some e)
lasting-lem (some none) now t h e = absurd (none≢some (some-injective e))
lasting-lem (some (some u)) now t h e =
    let same : u ≡ t = some-injective (some-injective e) in rw (← same) (ground arith)

not_later : (o : Option ℕ) (now : ℕ) → ((t : ℕ) → o ≡ some t → t ≤ now) → starts_later o now ≡ false
not_later none now k = refl
not_later (some u) now k = let in_time : u ≤ now = k u refl in ground arith

not_expired :
    (o : Option (Option ℕ)) (now : ℕ)
    → ((t : ℕ) → o ≡ some (some t) → now < t)
    → has_expired o now ≡ false
not_expired none now k = refl
not_expired (some none) now k = refl
not_expired (some (some u)) now k = let in_time : now < u = k u refl in ground arith

module _ (id : Text) (now : ℕ) (g : Grant) (scope : Json)
    (readable : g.capability_action_scope ≡ some scope) where
  grants_now-Covers : grants_now scope id now g ≡ true → Covers id now g
  grants_now-Covers h = elim (Bool-cases (scope_allows_capability scope id)) [
    | inr out ↦ absurd (false≢true (rw out at h))
    | inl within ↦ elim (Bool-cases (starts_later g.effective_at now)) [
      | inl later ↦ absurd (false≢true (rw (within, later) at h))
      | inr begun ↦ elim (Bool-cases (has_expired g.expires_at now)) [
        | inl over ↦ absurd (false≢true (rw (within, begun, over) at h))
        | inr lasts ↦ record {
          scope = scope;
          readable = readable;
          in_scope = within;
          begun = λ t. begun-lem g.effective_at now t begun;
          lasting = λ t. lasting-lem g.expires_at now t lasts;
        }
      ]
    ]
  ]

  Covers-grants_now : Covers id now g → grants_now scope id now g ≡ true
  Covers-grants_now c =
      let same : c.scope ≡ scope = some-injective (sym c.readable ∙ readable) in
      rw
        (
          ← same,
          c.in_scope,
          not_later g.effective_at now c.begun,
          not_expired g.expires_at now c.lasting,
        )
        refl

-- What the search gives: nothing, where no row covers; or the first row that does.
abbrev pub Found : Text → ℕ → List Grant → Option Grant → Type 0
Found id now gs none = All (λ g. ¬ (Covers id now g)) gs
Found id now gs (some g) =
    (before : List Grant) × (after : List Grant) × (gs ≡ before ++ g ∷ after)
    × All (λ u. ¬ (Covers id now u)) before
    × Covers id now g

Found-later :
    (id : Text) (now : ℕ) (g : Grant) (gs : List Grant) (o : Option Grant)
    → ¬ (Covers id now g)
    → Found id now gs o
    → Found id now (g ∷ gs) o
Found-later id now g gs none n k = (n, k)
Found-later id now g gs (some u) n k =
    let (before, after, e, passed, covers) = k in
    (g ∷ before, after, ap (λ us. g ∷ us) e, (n, passed), covers)

first_grant-here :
    (id : Text) (now : ℕ) (g : Grant) (gs : List Grant) (scope : Json)
    → g.capability_action_scope ≡ some scope
    → grants_now scope id now g ≡ true
    → first_grant id now (g ∷ gs) ≡ ok (some g)
unfolding first_grant
first_grant-here id now g gs scope e here = rw (e, here) refl

first_grant-Found :
    (id : Text) (now : ℕ) (gs : List Grant) (o : Option Grant)
    → first_grant id now gs ≡ ok o
    → Found id now gs o
unfolding first_grant
first_grant-Found id now [] o h = subst (Found id now []) (ok-injective h) tt
first_grant-Found id now (g ∷ gs) o h = elim (Option-cases g.capability_action_scope) [
  | inl bad ↦ absurd (err≢ok (rw bad at h))
  | inr (scope, e) ↦ elim (Bool-cases (grants_now scope id now g)) [
    | inl here ↦
        subst (Found id now (g ∷ gs))
          (ok-injective (sym (first_grant-here id now g gs scope e here) ∙ h))
          ([], gs, refl, tt, grants_now-Covers id now g scope e here)
    | inr passed ↦
        Found-later id now g gs o
          (λ c. false≢true (sym passed ∙ Covers-grants_now id now g scope e c))
          (first_grant-Found id now gs o (rw (e, passed) at h))
  ]
]

-- A search for a grant that returns found the first of the principal's active rows, newest first,
-- whose scope allows the capability and whose time has begun and not ended; or it found nothing, and
-- no row is such.
pub load_active_grant-Found :
    (tenant : Option ℕ) (rows : Text → List Grant) (principal id : Text) (now : ℕ)
    (o : Option Grant)
    → load_active_grant tenant rows principal id now ≡ ok o
    → Found id now (rows principal) o
unfolding load_active_grant
load_active_grant-Found none rows principal id now o h =
    absurd (refused (Bool-cases (filled principal)))
  where
    refused : (filled principal ≡ true) ⊎ (filled principal ≡ false) → ⊥
    refused (inr bad) = err≢ok (rw bad at h)
    refused (inl named) = elim (Bool-cases (filled id)) [
      | inr bad ↦ err≢ok (rw (named, bad) at h)
      | inl given ↦ err≢ok (rw (named, given) at h)
    ]
load_active_grant-Found (some t) rows principal id now o h = elim (Bool-cases (filled principal)) [
  | inr bad ↦ absurd (err≢ok (rw bad at h))
  | inl named ↦ elim (Bool-cases (filled id)) [
    | inr bad ↦ absurd (err≢ok (rw (named, bad) at h))
    | inl given ↦ first_grant-Found id now (rows principal) o (rw (named, given) at h)
  ]
]
