-- ===== src/Examples/Capabilities.antt =====
-- Capabilities, retries and grants.
use jarvis_agencyos.Base.{
  Option, ◌≡◌, ◌↔◌, ◌⊎◌, refl, true, false, none, some, [], ◌∷◌, List, Text, codes,
}
use jarvis_agencyos.Exec.{ok}
use jarvis_agencyos.Json.{bool, arr, obj, end, field, texts}
use jarvis_agencyos.Agency.Capabilities.{
  Capability, require_string, require_enum, require_object, require_string_array,
  assert_no_raw_secret_fields, validate_capability_contract, capability_object,
}
use jarvis_agencyos.Agency.Capabilities.Valid.{Valid, validate_capability_contract-Valid}
use jarvis_agencyos.Agency.Capabilities.Again.{validate_capability_contract-again}
use jarvis_agencyos.Agency.Grants.{Grant, scope_allows_capability, first_grant, load_active_grant}
use jarvis_agencyos.Agency.Effects.{PolicyReason, assert_autonomous_retry_allowed}
use jarvis_agencyos.Agency.Effects.Retries.{
  Ambiguous, Idempotent, assert_autonomous_retry_allowed_iff,
}
use jarvis_agencyos.Agency.Resolver.{Row, Resolution, resolve_executable_capability}
use jarvis_agencyos.Agency.Resolver.Executable.{Enabled, resolve_executable_capability_iff}
use jarvis_agencyos.Agency.Grants.First.{Found, load_active_grant-Found}

abbrev mail : Capability
mail = record {
  contract_version = 1;
  capability_id = codes "mail.send";
  tenant_scope = codes "tenant";
  provider = codes "mailer";
  control_surface = codes "api";
  adapter = codes "http";
  operation = codes "send";
  risk_class = codes "low";
  reversibility = codes "irreversible";
  auth_scope = end;
  credential_ref = some (codes "vault/7");
  provider_idempotency = codes "supported";
  postcondition_observable = false;
  preconditions = end;
  postcondition_verifier = none;
  fallback_routes = codes "mail.draft" ∷ [];
  approval_policy = codes "owner";
  network_scope = end;
  timeout_retry_policy = end;
  receipt_schema = codes "v1";
  status = codes "active";
}

mail_validates : validate_capability_contract (obj (capability_object mail)) ≡ ok mail
unfolding validate_capability_contract capability_object assert_no_raw_secret_fields require_string
    require_enum require_object require_string_array
mail_validates = refl

validate_capability_contract-Valid_example : Valid mail
validate_capability_contract-Valid_example =
    validate_capability_contract-Valid (obj (capability_object mail)) mail mail_validates

validate_capability_contract-again_example :
    validate_capability_contract (obj (capability_object mail)) ≡ ok mail
validate_capability_contract-again_example =
    validate_capability_contract-again (obj (capability_object mail)) mail mail_validates

assert_autonomous_retry_allowed_iff_example :
    ((reasons : List PolicyReason) × (assert_autonomous_retry_allowed
          (obj (capability_object mail))
          (some (codes "AMBIGUOUS"))
          none
        ≡ ok reasons))
    ↔ ((¬ (Ambiguous (some (codes "AMBIGUOUS")) none)) ⊎ Idempotent (obj (capability_object mail)))
assert_autonomous_retry_allowed_iff_example =
    assert_autonomous_retry_allowed_iff (obj (capability_object mail)) (some (codes "AMBIGUOUS"))
      none

abbrev later : Grant
later = record {
  grant_id = 1;
  principal = codes "agent";
  capability_action_scope = some (obj (field (codes "allow_all") (bool true) end));
  effective_at = some 90;
  expires_at = none;
  revocation_epoch = 0;
}

abbrev current : Grant
current = record later {
  grant_id = 2;
  capability_action_scope =
      some (obj (field (codes "capability_ids") (arr (texts (codes "mail.send" ∷ []))) end));
  effective_at = some 10;
  expires_at = some (some 80);
}

abbrev grants : Text → List Grant
grants principal = later ∷ current ∷ []

finds : load_active_grant (some 5) grants (codes "agent") (codes "mail.send") 50 ≡ ok (some current)
unfolding load_active_grant first_grant scope_allows_capability
finds = refl

load_active_grant-Found_example :
    Found (codes "mail.send") 50 (grants (codes "agent")) (some current)
load_active_grant-Found_example =
    load_active_grant-Found (some 5) grants (codes "agent") (codes "mail.send") 50 (some current)
      finds

abbrev rows : Text → Option Row
rows id = some (some (obj (capability_object mail)))

resolve_executable_capability_iff_example :
    ((r : Resolution) × (resolve_executable_capability (some 5) rows (codes "mail.send") ≡ ok r))
    ↔ ((c : Capability) × Enabled (some 5) rows (codes "mail.send") c)
resolve_executable_capability_iff_example =
    resolve_executable_capability_iff (some 5) rows (codes "mail.send")

enabled : Enabled (some 5) rows (codes "mail.send") mail
unfolding capability_object
enabled = (5, obj (capability_object mail), refl, refl, mail_validates, refl, refl)
