-- ===== src/Agency/Resolver.antt =====
-- The resolution of a capability by its identifier (src/contracts/capability-resolver.js). What the
-- database answers is an argument: the tenant of the transaction, and the row of an identifier.
pub mod Executable
use jarvis_agencyos.Base.{
  ℕ, Bool, true, false, not, Option, none, some, Text, codes, text_eq, if◌then◌else◌,
}
use jarvis_agencyos.Exec.{Result, ok, err, ◌▹◌}
use jarvis_agencyos.Json.{Json, obj}
use jarvis_agencyos.Agency.Capabilities.{
  CapabilityError, Capability, filled, validate_capability_contract, capability_object,
}
use jarvis_agencyos.Agency.Effects.{AmbiguityPolicy, classify_ambiguous_outcome_policy}

-- The columns of a row as one object, or `none` where a column is a text that does not parse.
abbrev pub Row : Type 0
Row = Option Json

pub data ResolutionError : Type 0 where
  invalid_capability_id missing_tenant_context unknown_capability unparsable_column :
      ResolutionError
  invalid_row : CapabilityError → ResolutionError
  capability_id_mutation capability_not_executable : ResolutionError

pub record Resolution : Type 0 where
  pub executable : Bool
  pub treated_as_active : Bool
  pub lifecycle_status : Text
  pub capability : Capability
  pub ambiguity_policy : AmbiguityPolicy

abbrev pub active : Text
active = codes "active"

abbrev pub degraded : Text
degraded = codes "degraded"

abbrev pub disabled : Text
disabled = codes "disabled"

abbrev pub tenant_row : Option ℕ → Option Row → Result ResolutionError (Option Row)
tenant_row none row = err missing_tenant_context
tenant_row (some t) row = ok row

-- `loadCapabilityRow`
unfoldable pub load_capability_row :
    Option ℕ → (Text → Option Row) → Text → Result ResolutionError (Option Row)
load_capability_row tenant rows id =
    if not (filled id) then err invalid_capability_id else tenant_row tenant (rows id)

abbrev pub need : {A : Type 0} → Option A → ResolutionError → Result ResolutionError A
need none e = err e
need (some a) e = ok a

abbrev pub of_row : {A : Type 0} → Result CapabilityError A → Result ResolutionError A
of_row (ok a) = ok a
of_row (err e) = err (invalid_row e)

-- `rowToCapability`
unfoldable pub row_to_capability : Row → Result ResolutionError Capability
row_to_capability row =
    need row unparsable_column ▹ λ object. of_row (validate_capability_contract object)

-- The answer, by the status of the capability.
abbrev pub resolution_of : Capability → AmbiguityPolicy → Resolution
resolution_of capability policy =
    if text_eq capability.status disabled
    then record {
      executable = false;
      treated_as_active = false;
      lifecycle_status = disabled;
      capability = capability;
      ambiguity_policy = policy;
    }
    else if text_eq capability.status degraded
    then record {
      executable = true;
      treated_as_active = false;
      lifecycle_status = degraded;
      capability = capability;
      ambiguity_policy = policy;
    }
    else record {
      executable = true;
      treated_as_active = text_eq capability.status active;
      lifecycle_status = active;
      capability = capability;
      ambiguity_policy = policy;
    }

-- The policy is that of the capability, which is validated a second time.
unfoldable pub settle_resolution : Text → Capability → Result ResolutionError Resolution
settle_resolution id capability =
    if not (text_eq capability.capability_id id)
    then err capability_id_mutation
    else (of_row (classify_ambiguous_outcome_policy (obj (capability_object capability)))
        ▹ λ policy. ok (resolution_of capability policy))

-- `resolveCapability`
unfoldable pub resolve_capability :
    Option ℕ → (Text → Option Row) → Text → Result ResolutionError Resolution
resolve_capability tenant rows id = load_capability_row tenant rows id ▹ λ found.
    need found unknown_capability ▹ λ row.
    row_to_capability row ▹ λ capability. settle_resolution id capability

-- `resolveExecutableCapability`
unfoldable pub resolve_executable_capability :
    Option ℕ → (Text → Option Row) → Text → Result ResolutionError Resolution
resolve_executable_capability tenant rows id = resolve_capability tenant rows id ▹ λ res.
    if res.executable then ok res else err capability_not_executable
