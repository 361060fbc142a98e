-- ===== src/Agency/Capabilities.antt =====
-- The capability contract (src/contracts/capability.js): what a stored capability must look like. An
-- input is a JSON value without fractions; a text is compared by its code units.
pub mod Valid
pub mod Again
use jarvis_agencyos.Base.{
  lower, ascii_lower, ℕ, ◌-◌, ◌+◌, Bool, true, false, not, ◌&&◌, ◌||◌, Option, none, some, List, [],
  ◌∷◌, map, Text, codes, text_eq, has_text, leb, ◌==◌, if◌then◌else◌,
}
use jarvis_agencyos.Exec.{Result, ok, err, ◌▹◌}
use jarvis_agencyos.Json.{
  Json, null, bool, num, str, arr, obj, Items, nil, cons, Fields, end, field, texts,
}

pub data CapabilityError : Type 0 where
  not_an_object wrong_version secret_in_ref : CapabilityError
  secret_field not_a_string not_allowed not_a_record not_texts not_a_bool : Text → CapabilityError

-- `CONTROL_SURFACES`
abbrev pub control_surfaces : List Text
control_surfaces =
    codes "api"
    ∷ codes "mcp"
    ∷ codes "cli"
    ∷ codes "dom"
    ∷ codes "browser_agent"
    ∷ codes "computer_use"
    ∷ codes "human"
    ∷ []

-- `REVERSIBILITIES`
abbrev pub reversibilities : List Text
reversibilities = codes "reversible" ∷ codes "compensatable" ∷ codes "irreversible" ∷ []

abbrev pub supported : Text
supported = codes "supported"

-- `PROVIDER_IDEMPOTENCY`
abbrev pub idempotencies : List Text
idempotencies = supported ∷ codes "unsupported" ∷ codes "unknown" ∷ []

-- `CAPABILITY_STATUSES`
abbrev pub capability_statuses : List Text
capability_statuses = codes "active" ∷ codes "degraded" ∷ codes "disabled" ∷ []

-- `FORBIDDEN_SECRET_FIELDS`
abbrev pub forbidden_secret_fields : List Text
forbidden_secret_fields =
    codes "password"
    ∷ codes "api_key"
    ∷ codes "apikey"
    ∷ codes "secret"
    ∷ codes "token"
    ∷ codes "access_token"
    ∷ codes "refresh_token"
    ∷ codes "client_secret"
    ∷ codes "private_key"
    ∷ codes "bearer"
    ∷ []

-- The test of a regular expression `^prefix` with the flag `i`.
abbrev pub starts_with : Text → Text → Bool
starts_with [] t = true
starts_with (p ∷ ps) [] = false
starts_with (p ∷ ps) (c ∷ t) = (ascii_lower p == ascii_lower c) && starts_with ps t

abbrev pub looks_secret : Text → Bool
looks_secret t =
    starts_with (codes "sk-") t
    || (starts_with (codes "Bearer ") t || starts_with (codes "-----BEGIN ") t)

-- `obj[key]`
abbrev pub field_of : Text → Fields → Option Json
field_of key end = none
field_of key (field k v fs) = if text_eq k key then some v else field_of key fs

abbrev pub filled : Text → Bool
filled [] = false
filled (c ∷ t) = true

abbrev as_string : Text → Option Json → Result CapabilityError Text
as_string key (some (str t)) = if filled t then ok t else err (not_a_string key)
as_string key _ = err (not_a_string key)

-- `requireString`
unfoldable pub require_string : Fields → Text → Result CapabilityError Text
require_string fs key = as_string key (field_of key fs)

-- `requireEnum`
unfoldable pub require_enum : Fields → Text → List Text → Result CapabilityError Text
require_enum fs key allowed =
    require_string fs key ▹ λ v. if has_text v allowed then ok v else err (not_allowed key)

abbrev as_object : Text → Option Json → Result CapabilityError Fields
as_object key (some (obj fs)) = ok fs
as_object key _ = err (not_a_record key)

-- `requireObject`
unfoldable pub require_object : Fields → Text → Result CapabilityError Fields
require_object fs key = as_object key (field_of key fs)

abbrev as_texts : Text → Items → Result CapabilityError (List Text)
as_texts key nil = ok []
as_texts key (cons (str t) xs) = as_texts key xs ▹ λ ts. ok (t ∷ ts)
as_texts key (cons _ xs) = err (not_texts key)

abbrev as_array : Text → Option Json → Result CapabilityError (List Text)
as_array key (some (arr xs)) = as_texts key xs
as_array key _ = err (not_texts key)

-- `requireStringArray`
unfoldable pub require_string_array : Fields → Text → Result CapabilityError (List Text)
require_string_array fs key = as_array key (field_of key fs)

-- `assertNoRawSecretFields`
unfoldable pub assert_no_raw_secret_fields : Fields → Result CapabilityError Unit
assert_no_raw_secret_fields end = ok tt
assert_no_raw_secret_fields (field k v fs) =
    let rest = assert_no_raw_secret_fields fs in
    if has_text (lower k) forbidden_secret_fields then err (secret_field k) else rest

abbrev as_bool : Text → Option Json → Result CapabilityError Bool
as_bool key (some (bool b)) = ok b
as_bool key _ = err (not_a_bool key)

-- `input.contract_version ?? 1`, which must be 1
abbrev as_version : Option Json → Result CapabilityError ℕ
as_version none = ok 1
as_version (some null) = ok 1
as_version (some (num n)) = if n == 1 then ok n else err wrong_version
as_version _ = err wrong_version

abbrev optional : Text → Option Json → Result CapabilityError (Option Text)
optional key none = ok none
optional key (some null) = ok none
optional key (some v) = as_string key (some v) ▹ λ t. ok (some t)

abbrev opaque_ref : Option Text → Result CapabilityError (Option Text)
opaque_ref none = ok none
opaque_ref (some t) = if looks_secret t then err secret_in_ref else ok (some t)

pub record Capability : Type 0 where
  pub contract_version : ℕ
  pub capability_id : Text
  pub tenant_scope : Text
  pub provider : Text
  pub control_surface : Text
  pub adapter : Text
  pub operation : Text
  pub risk_class : Text
  pub reversibility : Text
  pub auth_scope : Fields
  pub credential_ref : Option Text
  pub provider_idempotency : Text
  pub postcondition_observable : Bool
  pub preconditions : Fields
  pub postcondition_verifier : Option Text
  pub fallback_routes : List Text
  pub approval_policy : Text
  pub network_scope : Fields
  pub timeout_retry_policy : Fields
  pub receipt_schema : Text
  pub status : Text

abbrev fields_of : Json → Result CapabilityError Fields
fields_of (obj fs) = ok fs
fields_of _ = err not_an_object

-- `validateCapabilityContract`
unfoldable pub validate_capability_contract : Json → Result CapabilityError Capability
validate_capability_contract input = fields_of input ▹ λ fs. assert_no_raw_secret_fields fs ▹ λ _.
    as_version (field_of (codes "contract_version") fs) ▹ λ version.
    require_string fs (codes "capability_id") ▹ λ capability_id.
    require_string fs (codes "tenant_scope") ▹ λ tenant_scope.
    require_string fs (codes "provider") ▹ λ provider.
    require_enum fs (codes "control_surface") control_surfaces ▹ λ control_surface.
    require_string fs (codes "adapter") ▹ λ adapter.
    require_string fs (codes "operation") ▹ λ operation.
    require_string fs (codes "risk_class") ▹ λ risk_class.
    require_enum fs (codes "reversibility") reversibilities ▹ λ reversibility.
    require_object fs (codes "auth_scope") ▹ λ auth_scope.
    require_enum fs (codes "provider_idempotency") idempotencies ▹ λ idempotency.
    as_bool (codes "postcondition_observable") (field_of (codes "postcondition_observable") fs)
    ▹ λ observable. require_object fs (codes "preconditions") ▹ λ preconditions.
        optional (codes "postcondition_verifier") (field_of (codes "postcondition_verifier") fs)
        ▹ λ verifier. require_string_array fs (codes "fallback_routes") ▹ λ routes.
            require_string fs (codes "approval_policy") ▹ λ approval_policy.
            require_object fs (codes "network_scope") ▹ λ network_scope.
            require_object fs (codes "timeout_retry_policy") ▹ λ timeout_retry_policy.
            require_string fs (codes "receipt_schema") ▹ λ receipt_schema.
            require_enum fs (codes "status") capability_statuses ▹ λ status.
            optional (codes "credential_ref") (field_of (codes "credential_ref") fs) ▹ λ reference.
            opaque_ref reference ▹ λ credential_ref. ok (record {
              contract_version = version;
              capability_id = capability_id;
              tenant_scope = tenant_scope;
              provider = provider;
              control_surface = control_surface;
              adapter = adapter;
              operation = operation;
              risk_class = risk_class;
              reversibility = reversibility;
              auth_scope = auth_scope;
              credential_ref = credential_ref;
              provider_idempotency = idempotency;
              postcondition_observable = observable;
              preconditions = preconditions;
              postcondition_verifier = verifier;
              fallback_routes = routes;
              approval_policy = approval_policy;
              network_scope = network_scope;
              timeout_retry_policy = timeout_retry_policy;
              receipt_schema = receipt_schema;
              status = status;
            })

abbrev json_or_null : Option Text → Json
json_or_null none = null
json_or_null (some t) = str t

-- The object that a validation returns.
unfoldable pub capability_object : Capability → Fields
capability_object c = field (codes "contract_version") (num c.contract_version) (
    field (codes "capability_id") (str c.capability_id) (
      field (codes "tenant_scope") (str c.tenant_scope) (
        field (codes "provider") (str c.provider) (
          field (codes "control_surface") (str c.control_surface) (
            field (codes "adapter") (str c.adapter) (
              field (codes "operation") (str c.operation) (
                field (codes "risk_class") (str c.risk_class) (
                  field (codes "reversibility") (str c.reversibility) (
                    field (codes "auth_scope") (obj c.auth_scope) (
                      field (codes "credential_ref") (json_or_null c.credential_ref) (
                        field (codes "provider_idempotency") (str c.provider_idempotency) (
                          field (codes "postcondition_observable") (bool c.postcondition_observable)
                            (field (codes "preconditions") (obj c.preconditions) (
                              field (codes "postcondition_verifier")
                                (json_or_null c.postcondition_verifier)
                                (field (codes "fallback_routes") (arr (texts c.fallback_routes)) (
                                  field (codes "approval_policy") (str c.approval_policy) (
                                    field (codes "network_scope") (obj c.network_scope) (
                                      field (codes "timeout_retry_policy")
                                        (obj c.timeout_retry_policy)
                                        (field (codes "receipt_schema") (str c.receipt_schema) (
                                          field (codes "status") (str c.status)
                                            end))))))))))))))))))))
