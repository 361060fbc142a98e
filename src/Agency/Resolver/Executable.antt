-- ===== src/Agency/Resolver/Executable.antt =====
-- Which identifiers resolve to an executable capability (src/contracts/capability-resolver.js).
use jarvis_agencyos.Base.{
  ℕ, ◌≡◌, refl, sym, subst, ap, ◌∙◌, ◌↔◌, inl, inr, Bool, true, false, not, Option, none, some,
  Text, text_eq, text_eq_sound, text_eq_refl, Bool-cases, if◌then◌else◌, arith,
}
use jarvis_agencyos.Exec.{Result, ok, err, ◌▹◌}
use jarvis_agencyos.Exec.Returns.{ok-injective, err≢ok}
use jarvis_agencyos.Json.{Json}
use jarvis_agencyos.Agency.Capabilities.{
  CapabilityError, Capability, filled, validate_capability_contract,
}
use jarvis_agencyos.Agency.Capabilities.Valid.{validate_capability_contract-Valid}
use jarvis_agencyos.Agency.Capabilities.Again.{validate_capability_contract-again}
use jarvis_agencyos.Agency.Effects.{AmbiguityPolicy, policy_of, classify_ambiguous_outcome_policy}
use jarvis_agencyos.Agency.Resolver.{
  Row, ResolutionError, Resolution, disabled, degraded, load_capability_row, need, of_row,
  row_to_capability, resolution_of, settle_resolution, resolve_capability,
  resolve_executable_capability, capability_not_executable, unknown_capability,
}

-- The tenant has a row of this identifier that is valid and not disabled.
abbrev pub Enabled : Option ℕ → (Text → Option Row) → Text → Capability → Type 0
Enabled tenant rows id c =
    (t : ℕ) × (object : Json) × (tenant ≡ some t)
    × (rows id ≡ some (some object))
    × (validate_capability_contract object ≡ ok c)
    × (c.capability_id ≡ id)
    × (text_eq c.status disabled ≡ false)

then-ok :
    {A B : Type 0} (r : Result ResolutionError A) (f : A → Result ResolutionError B) (b : B)
    → r ▹ f ≡ ok b
    → (a : A) × (r ≡ ok a) × (f a ≡ ok b)
then-ok (ok a) f b h = (a, refl, h)
then-ok (err e) f b h = absurd (err≢ok h)

need-ok : {A : Type 0} (o : Option A) (e : ResolutionError) (a : A) → need o e ≡ ok a → o ≡ some a
need-ok none e a h = absurd (err≢ok h)
need-ok (some b) e a h = ap some (ok-injective h)

of_row-ok : {A : Type 0} (r : Result CapabilityError A) (a : A) → of_row r ≡ ok a → r ≡ ok a
of_row-ok (ok b) a h = ap ok (ok-injective h)
of_row-ok (err e) a h = absurd (err≢ok h)

row_to_capability-ok :
    (row : Row) (c : Capability)
    → row_to_capability row ≡ ok c
    → (object : Json) × (row ≡ some object) × (validate_capability_contract object ≡ ok c)
unfolding row_to_capability
row_to_capability-ok none c h = absurd (err≢ok h)
row_to_capability-ok (some object) c h =
    (object, refl, of_row-ok (validate_capability_contract object) c h)

load_capability_row-ok :
    (tenant : Option ℕ) (rows : Text → Option Row) (id : Text) (o : Option Row)
    → load_capability_row tenant rows id ≡ ok o
    → (t : ℕ) × (tenant ≡ some t) × (rows id ≡ o)
unfolding load_capability_row
load_capability_row-ok none rows id o h = elim (Bool-cases (filled id)) [
  | inl here ↦ absurd (err≢ok (rw here at h))
  | inr bare ↦ absurd (err≢ok (rw bare at h))
]
load_capability_row-ok (some t) rows id o h = elim (Bool-cases (filled id)) [
  | inl here ↦ (t, refl, ok-injective (rw here at h))
  | inr bare ↦ absurd (err≢ok (rw bare at h))
]

settle_resolution-id :
    (id : Text) (c : Capability) (res : Resolution)
    → settle_resolution id c ≡ ok res
    → c.capability_id ≡ id
unfolding settle_resolution
settle_resolution-id id c res h = elim (Bool-cases (text_eq c.capability_id id)) [
  | inl same ↦ text_eq_sound c.capability_id id same
  | inr other ↦ absurd (err≢ok (rw other at h))
]

resolution_of-executable :
    (c : Capability) (p : AmbiguityPolicy)
    → (resolution_of c p).executable ≡ not (text_eq c.status disabled)
resolution_of-executable c p = elim (Bool-cases (text_eq c.status disabled)) [
  | inl off ↦ rw off refl
  | inr on ↦ elim (Bool-cases (text_eq c.status degraded)) [
    | inl less ↦ rw (on, less) refl
    | inr full ↦ rw (on, full) refl
  ]
]

not-true : (b : Bool) → not b ≡ true → b ≡ false
not-true b h = ground arith

executable-returned :
    (res r : Resolution)
    → ◌≡◌ {A = Result ResolutionError Resolution}
        (if res.executable then ok res else err capability_not_executable)
        (ok r)
    → res.executable ≡ true
executable-returned res r h = elim (Bool-cases res.executable) [
  | inl here ↦ here
  | inr off ↦ absurd (err≢ok (rw off at h))
]

-- The second validation does not throw.
settle_resolution-valid :
    (id : Text) (object : Json) (c : Capability)
    → validate_capability_contract object ≡ ok c
    → c.capability_id ≡ id
    → settle_resolution id c ≡ ok (resolution_of c (policy_of c))
unfolding settle_resolution classify_ambiguous_outcome_policy
settle_resolution-valid id object c h own =
    rw (← own, text_eq_refl c.capability_id, validate_capability_contract-again object c h) refl

module _ (tenant : Option ℕ) (rows : Text → Option Row) (id : Text) where
  abbrev Resolves : Type 0
  Resolves = (r : Resolution) × (resolve_executable_capability tenant rows id ≡ ok r)

  resolves-Enabled : Resolves → (c : Capability) × Enabled tenant rows id c
  unfolding resolve_executable_capability resolve_capability
  resolves-Enabled (r, h) =
      let (res, resolved, g) = then-ok (resolve_capability tenant rows id) _ r h in
      let (o, e1, g1) = then-ok (load_capability_row tenant rows id) _ res resolved in
      let (row, e2, g2) = then-ok (need o unknown_capability) _ res g1 in
      let (c, e3, g3) = then-ok (row_to_capability row) _ res g2 in
      let (t, has, found) = load_capability_row-ok tenant rows id o e1 in
      let (object, parsed, valid) = row_to_capability-ok row c e3 in
      let own = settle_resolution-id id c res g3 in
      let same = ok-injective (sym (settle_resolution-valid id object c valid own) ∙ g3) in
      (
        c,
        (
          t,
          object,
          has,
          found ∙ need-ok o unknown_capability row e2 ∙ ap some parsed,
          valid,
          own,
          not-true (text_eq c.status disabled) (
              sym (resolution_of-executable c (policy_of c))
              ∙ ap (λ q. q.executable) same
              ∙ executable-returned res r g),
        ),
      )

  Enabled-resolves : (c : Capability) × Enabled tenant rows id c → Resolves
  unfolding resolve_executable_capability resolve_capability load_capability_row row_to_capability
  Enabled-resolves (c, (t, object, has, found, valid, own, on)) = (
    resolution_of c (policy_of c),
    rw
        (
          subst (λ k. filled k ≡ true) own
              (validate_capability_contract-Valid object c valid).capability_id,
          has,
          found,
          valid,
          settle_resolution-valid id object c valid own,
          resolution_of-executable c (policy_of c),
          on,
        )
        refl,
  )

-- An identifier resolves to an executable capability exactly when there is a tenant, the tenant has a
-- row of this identifier whose columns parse and which validates, and its status is not `disabled`;
-- that the ambiguity policy validates the capability a second time never stops a resolution.
pub resolve_executable_capability_iff :
    (tenant : Option ℕ) (rows : Text → Option Row) (id : Text)
    → ((r : Resolution) × (resolve_executable_capability tenant rows id ≡ ok r))
      ↔ ((c : Capability) × Enabled tenant rows id c)
resolve_executable_capability_iff tenant rows id =
    (resolves-Enabled tenant rows id, Enabled-resolves tenant rows id)
