-- ===== src/Examples/Approvals.antt =====
-- An approval with a step-up.
use jarvis_agencyos.Base.{◌≡◌, refl, true, none, some, []}
use jarvis_agencyos.Agency.Approvals.{
  Approval, Proposal, Session, approve, step_up, session_reasons, step_up_reasons,
  validate_approval,
}
use jarvis_agencyos.Agency.Approvals.Usable.{Usable, validate_approval-Usable}

abbrev proposal : Proposal
proposal = record { proposal_id = 1; request_hash = 2; precondition_snapshot_ref = some 3 }

abbrev approval : Approval
approval = record {
  proposal_id = 1;
  request_hash = 2;
  owner_principal_id = 4;
  owner_auth_session_id = some 5;
  step_up_mfa_required = true;
  decision = approve;
  relevant_state_version = some 3;
  expires_at = some 20;
  consumed_at = none;
}

abbrev session : Session
session = record {
  session_id = 5;
  owner_principal_id = 4;
  auth_strength = step_up;
  step_up_verified_at = some 8;
  step_up_expires_at = some 15;
  session_expires_at = some 18;
  revoked_at = none;
}

valid : validate_approval (some approval) (some proposal) (some session) 10 ≡ []
unfolding validate_approval session_reasons step_up_reasons
valid = refl

validate_approval-Usable_example :
    (o : Session) × (some session ≡ some o) × Usable approval proposal o 10
validate_approval-Usable_example =
    validate_approval-Usable approval proposal (some session) 10 valid
