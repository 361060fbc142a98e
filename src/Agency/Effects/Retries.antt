-- ===== src/Agency/Effects/Retries.antt =====
-- When an effect may be retried without a human (src/runtime/effect-ambiguity.js).
use jarvis_agencyos.Base.{
  ◌≡◌, Bool, refl, ap, codes, none, some, arith, text_eq_refl, ◌⊎◌, inl, inr, ◌↔◌, true, false,
  Option, List, [], Text, text_eq_sound, Bool-cases,
}
use jarvis_agencyos.Exec.{Result, ok, err}
use jarvis_agencyos.Exec.Returns.{err≢ok}
use jarvis_agencyos.Json.{Json}
use jarvis_agencyos.Agency.Capabilities.{Capability, supported, validate_capability_contract}
use jarvis_agencyos.Agency.Effects.{
  PolicyReason, is_supported, policy_of, is_ambiguous, named, retry_answer,
  classify_ambiguous_outcome_policy, assert_autonomous_retry_allowed,
}

-- The capability is valid and its provider supports idempotency.
abbrev pub Idempotent : Json → Type 0
Idempotent capability =
    (c : Capability) × (validate_capability_contract capability ≡ ok c)
    × (c.provider_idempotency ≡ supported)

-- What happened is open: the outcome is AMBIGUOUS, or its postcondition is AMBIGUOUS, UNKNOWN or
-- UNVERIFIED.
abbrev pub Ambiguous : Option Text → Option Text → Type 0
Ambiguous outcome postcondition =
    (outcome ≡ some (codes "AMBIGUOUS"))
    ⊎ ((postcondition ≡ some (codes "AMBIGUOUS"))
        ⊎ ((postcondition ≡ some (codes "UNKNOWN")) ⊎ (postcondition ≡ some (codes "UNVERIFIED"))))

named-some : (t : Text) (o : Option Text) → named t o ≡ true → o ≡ some t
named-some t none h = ground arith
named-some t (some u) h = ap some (text_eq_sound u t h)

some-named : (t : Text) (o : Option Text) → o ≡ some t → named t o ≡ true
some-named t o h = rw h (text_eq_refl t)

is_ambiguous-Ambiguous :
    (outcome postcondition : Option Text)
    → is_ambiguous outcome postcondition ≡ true
    → Ambiguous outcome postcondition
is_ambiguous-Ambiguous outcome postcondition h =
    elim (Bool-cases (named (codes "AMBIGUOUS") outcome)) [
      | inl a ↦ inl (named-some _ outcome a)
      | inr na ↦ elim (Bool-cases (named (codes "AMBIGUOUS") postcondition)) [
        | inl b ↦ inr (inl (named-some _ postcondition b))
        | inr nb ↦ elim (Bool-cases (named (codes "UNKNOWN") postcondition)) [
          | inl c ↦ inr (inr (inl (named-some _ postcondition c)))
          | inr nc ↦ inr (inr (inr (named-some _ postcondition (ground arith))))
        ]
      ]
    ]

Ambiguous-is_ambiguous :
    (outcome postcondition : Option Text)
    → Ambiguous outcome postcondition
    → is_ambiguous outcome postcondition ≡ true
Ambiguous-is_ambiguous outcome postcondition (inl a) =
    let n = some-named _ outcome a in ground arith
Ambiguous-is_ambiguous outcome postcondition (inr (inl b)) =
    let n = some-named _ postcondition b in ground arith
Ambiguous-is_ambiguous outcome postcondition (inr (inr (inl c))) =
    let n = some-named _ postcondition c in ground arith
Ambiguous-is_ambiguous outcome postcondition (inr (inr (inr d))) =
    let n = some-named _ postcondition d in ground arith

false≢true : (b : Bool) → b ≡ false → b ≡ true → ⊥
false≢true b h k = ground arith

Result-cases : {E A : Type 0} (r : Result E A) → ((a : A) × (r ≡ ok a)) ⊎ ((e : E) × (r ≡ err e))
Result-cases (ok a) = inl (a, refl)
Result-cases (err e) = inr (e, refl)

module _ (c : Capability) (reasons : List PolicyReason)
    (h : retry_answer (policy_of c) ≡ ok reasons) (other : is_supported c ≡ false) where
  not_supported-refused : ⊥
  not_supported-refused = elim (Bool-cases c.postcondition_observable) [
    | inl seen ↦ err≢ok (rw (other, seen) at h)
    | inr unseen ↦ err≢ok (rw (other, unseen) at h)
  ]

answer-supported :
    (c : Capability) (reasons : List PolicyReason)
    → retry_answer (policy_of c) ≡ ok reasons
    → is_supported c ≡ true
answer-supported c reasons h = elim (Bool-cases (is_supported c)) [
  | inl here ↦ here
  | inr other ↦ absurd (not_supported-refused c reasons h other)
]

module _ (capability : Json) (outcome postcondition : Option Text) where
  abbrev Allowed : Type 0
  Allowed =
      (reasons : List PolicyReason) × (assert_autonomous_retry_allowed capability outcome
          postcondition
        ≡ ok reasons)

  abbrev Permitted : Type 0
  Permitted = (¬ (Ambiguous outcome postcondition)) ⊎ Idempotent capability

  allowed-permitted : Allowed → Permitted
  unfolding assert_autonomous_retry_allowed classify_ambiguous_outcome_policy
  allowed-permitted (reasons, h) = elim (Bool-cases (is_ambiguous outcome postcondition)) [
    | inr clear ↦ inl (λ a. false≢true _ clear (Ambiguous-is_ambiguous outcome postcondition a))
    | inl open' ↦ elim (Result-cases (validate_capability_contract capability)) [
      | inl (c, e) ↦ inr (
        c,
        e,
        text_eq_sound c.provider_idempotency supported
            (answer-supported c reasons (rw (open', e) at h)),
      )
      | inr (e, bad) ↦ absurd (err≢ok (rw (open', bad) at h))
    ]
  ]

  permitted-allowed : Permitted → Allowed
  unfolding assert_autonomous_retry_allowed classify_ambiguous_outcome_policy
  permitted-allowed (inl clear) = elim (Bool-cases (is_ambiguous outcome postcondition)) [
    | inl open' ↦ absurd (clear (is_ambiguous-Ambiguous outcome postcondition open'))
    | inr shut ↦ ([], rw shut refl)
  ]
  permitted-allowed (inr (c, e, s)) = elim (Bool-cases (is_ambiguous outcome postcondition)) [
    | inr clear ↦ ([], rw clear refl)
    | inl open' ↦ ([], rw (open', e, s) refl)
  ]

-- An autonomous retry is allowed, with whatever reasons, exactly when the prior outcome is not
-- AMBIGUOUS and its postcondition is none of AMBIGUOUS, UNKNOWN and UNVERIFIED, or the capability is valid and its provider supports idempotency;
-- an observable postcondition alone does not allow it.
pub assert_autonomous_retry_allowed_iff :
    (capability : Json) (outcome postcondition : Option Text)
    → ((reasons : List PolicyReason) × (assert_autonomous_retry_allowed capability outcome
            postcondition
          ≡ ok reasons))
      ↔ ((¬ (Ambiguous outcome postcondition)) ⊎ Idempotent capability)
assert_autonomous_retry_allowed_iff capability outcome postcondition = (
  allowed-permitted capability outcome postcondition,
  permitted-allowed capability outcome postcondition,
)
