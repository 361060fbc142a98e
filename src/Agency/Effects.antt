-- ===== src/Agency/Effects.antt =====
-- What may follow an ambiguous effect: the policy of a capability (src/contracts/capability.js), the
-- gates of a retry and of a fallback to another surface (src/runtime/effect-ambiguity.js).
pub mod Retries
use jarvis_agencyos.Base.{
  lower, ℕ, ◌-◌, Bool, true, false, not, ◌&&◌, ◌||◌, Option, none, some, List, [], ◌∷◌, ◌++◌, Text,
  codes, text_eq, has_text, leb, ◌==◌, if◌then◌else◌,
}
use jarvis_agencyos.Exec.{Result, ok, err, ◌▹◌}
use jarvis_agencyos.Json.{Json}
use jarvis_agencyos.Agency.Capabilities.{
  CapabilityError, Capability, supported, filled, validate_capability_contract,
}

pub data PolicyReason : Type 0 where
  idempotency_not_supported postcondition_not_observable retry_forbidden
        prior_effect_verified_absent :
      PolicyReason

-- The verdict is at least APPROVAL_REQUIRED, or not bounded; an ambiguous completion goes to a human
-- or is blocked, or depends on the policy.
pub record AmbiguityPolicy : Type 0 where
  pub autonomously_retryable_after_ambiguity : Bool
  pub approval_required : Bool
  pub human_or_blocked : Bool
  pub reason_codes : List PolicyReason

abbrev pub is_supported : Capability → Bool
is_supported cap = text_eq cap.provider_idempotency supported

abbrev pub policy_of : Capability → AmbiguityPolicy
policy_of cap =
    if not (is_supported cap) && not cap.postcondition_observable
    then record {
      autonomously_retryable_after_ambiguity = false;
      approval_required = true;
      human_or_blocked = true;
      reason_codes =
          idempotency_not_supported ∷ postcondition_not_observable ∷ retry_forbidden ∷ [];
    }
    else record {
      autonomously_retryable_after_ambiguity = is_supported cap;
      approval_required = false;
      human_or_blocked = false;
      reason_codes = [];
    }

-- `classifyAmbiguousOutcomePolicy`
unfoldable pub classify_ambiguous_outcome_policy : Json → Result CapabilityError AmbiguityPolicy
classify_ambiguous_outcome_policy capability =
    validate_capability_contract capability ▹ λ cap. ok (policy_of cap)

pub data EffectError : Type 0 where
  invalid_capability : CapabilityError → EffectError
  retry_forbidden_after_ambiguity : AmbiguityPolicy → EffectError
  fallback_requires_durable_postcondition fallback_forbidden : EffectError

abbrev pub named : Text → Option Text → Bool
named t none = false
named t (some u) = text_eq u t

abbrev ambiguous_text : Text
ambiguous_text = codes "AMBIGUOUS"

-- The prior outcome or its postcondition leaves open what happened.
abbrev pub is_ambiguous : Option Text → Option Text → Bool
is_ambiguous outcome postcondition =
    named ambiguous_text outcome
    || (named ambiguous_text postcondition
        || (named (codes "UNKNOWN") postcondition || named (codes "UNVERIFIED") postcondition))

abbrev pub of_capability : {A : Type 0} → Result CapabilityError A → Result EffectError A
of_capability (ok a) = ok a
of_capability (err e) = err (invalid_capability e)

abbrev retry_answer : AmbiguityPolicy → Result EffectError (List PolicyReason)
retry_answer policy =
    if policy.autonomously_retryable_after_ambiguity
    then ok policy.reason_codes
    else err (retry_forbidden_after_ambiguity policy)

-- `assertAutonomousRetryAllowedAfterAmbiguity`; what is returned allows, with these reasons.
unfoldable pub assert_autonomous_retry_allowed :
    Json → Option Text → Option Text → Result EffectError (List PolicyReason)
assert_autonomous_retry_allowed capability outcome postcondition =
    if not (is_ambiguous outcome postcondition)
    then ok []
    else (of_capability (classify_ambiguous_outcome_policy capability) ▹ λ policy.
        retry_answer policy)

-- `BROWSER_ORGO_SURFACES`
abbrev pub browser_orgo_surfaces : List Text
browser_orgo_surfaces =
    codes "browser" ∷ codes "orgo" ∷ codes "browser_orgo" ∷ codes "browser_orgo_fallback" ∷ []

-- `toUpperCase`, where it gives ASCII units: the dotless i, the long s, the sharp s and the ligatures
-- of Latin letters too.
abbrev upper_unit : ℕ → Text
upper_unit c =
    if leb 97 c && leb c 122
    then (c - 32) ∷ []
    else if c == 305
    then codes "I"
    else if c == 383
    then codes "S"
    else if c == 223
    then codes "SS"
    else if c == 64256
    then codes "FF"
    else if c == 64257
    then codes "FI"
    else if c == 64258
    then codes "FL"
    else if c == 64259
    then codes "FFI"
    else if c == 64260
    then codes "FFL"
    else if c == 64261
    then codes "ST"
    else if c == 64262
    then codes "ST"
    else c ∷ []

abbrev pub upper : Text → Text
upper [] = []
upper (c ∷ t) = upper_unit c ++ upper t

abbrev text_of : Option Text → Text
text_of none = []
text_of (some t) = t

abbrev pub is_verified_absent : Option Text → Bool
is_verified_absent status =
    let s = upper (text_of status) in
    text_eq s (codes "ABSENT") || text_eq s (codes "VERIFIED_ABSENT")

-- The fallback is to a browser or to Orgo.
abbrev pub is_browser_orgo : Option Text → Bool
is_browser_orgo none = false
is_browser_orgo (some t) = filled t && has_text (lower t) browser_orgo_surfaces

-- `assertCrossSurfaceFallbackAllowed`; what is returned allows, with these reasons.
unfoldable pub assert_cross_surface_fallback_allowed :
    Option Text → Option Text → Bool → Result EffectError (List PolicyReason)
assert_cross_surface_fallback_allowed fallback_surface postcondition_status durable_evidence =
    if not (is_browser_orgo fallback_surface)
    then ok []
    else if not durable_evidence
    then err fallback_requires_durable_postcondition
    else if not (is_verified_absent postcondition_status)
    then err fallback_forbidden
    else ok (prior_effect_verified_absent ∷ [])
