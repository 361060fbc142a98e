-- ===== src/Agency/Capabilities/Again.antt =====
-- A capability that is validated again (src/contracts/capability.js).
use jarvis_agencyos.Base.{◌≡◌, refl, Option, none, some, List, [], ◌∷◌, Text, codes}
use jarvis_agencyos.Exec.{ok}
use jarvis_agencyos.Json.{Json, obj, texts}
use jarvis_agencyos.Agency.Capabilities.{
  Capability, as_texts, optional, opaque_ref, json_or_null, require_string, require_enum,
  require_object, require_string_array, assert_no_raw_secret_fields, validate_capability_contract,
  capability_object,
}
use jarvis_agencyos.Agency.Capabilities.Valid.{
  Valid, Opaque, FilledIfGiven, validate_capability_contract-Valid,
}

as_texts-texts : (key : Text) (ts : List Text) → as_texts key (texts ts) ≡ ok ts
as_texts-texts key [] = refl
as_texts-texts key (t ∷ ts) = rw (as_texts-texts key ts) refl

optional-json_or_null :
    (key : Text) (o : Option Text) → FilledIfGiven o → optional key (some (json_or_null o)) ≡ ok o
optional-json_or_null key none h = refl
optional-json_or_null key (some t) h = rw h refl

Opaque-FilledIfGiven : (o : Option Text) → Opaque o → FilledIfGiven o
Opaque-FilledIfGiven none h = tt
Opaque-FilledIfGiven (some t) h = h.0

opaque_ref-again : (o : Option Text) → Opaque o → opaque_ref o ≡ ok o
opaque_ref-again none h = refl
opaque_ref-again (some t) h = rw h.1 refl

-- What a validation returns is valid: validated again, it is returned as it is.
pub validate_capability_contract-again :
    (input : Json) (c : Capability)
    → validate_capability_contract input ≡ ok c
    → validate_capability_contract (obj (capability_object c)) ≡ ok c
unfolding validate_capability_contract capability_object assert_no_raw_secret_fields require_string
    require_enum require_object require_string_array
validate_capability_contract-again input c h =
    let v : Valid c = validate_capability_contract-Valid input c h in
    rw
      (
        v.version,
        v.capability_id,
        v.tenant_scope,
        v.provider,
        v.control_surface.0,
        v.control_surface.1,
        v.adapter,
        v.operation,
        v.risk_class,
        v.reversibility.0,
        v.reversibility.1,
        v.provider_idempotency.0,
        v.provider_idempotency.1,
        optional-json_or_null (codes "postcondition_verifier") c.postcondition_verifier
            v.postcondition_verifier,
        as_texts-texts (codes "fallback_routes") c.fallback_routes,
        v.approval_policy,
        v.receipt_schema,
        v.status.0,
        v.status.1,
        optional-json_or_null (codes "credential_ref") c.credential_ref
            (Opaque-FilledIfGiven c.credential_ref v.credential_ref),
        opaque_ref-again c.credential_ref v.credential_ref,
      )
      refl
