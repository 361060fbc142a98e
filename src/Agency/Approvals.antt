-- ===== src/Agency/Approvals.antt =====
-- The validation of a stored approval (`validateApproval`, src/contracts/approval.js). Identifiers,
-- hashes and times are numbers, since they are only compared; a column that may be null, or that a
-- test of its truth value reads, is an option.
pub mod Usable
use jarvis_agencyos.Base.{
  ℕ, Bool, true, false, not, ◌&&◌, Option, none, some, List, [], ◌∷◌, ◌++◌, Text, codes, ltb, ◌==◌,
  same_id, is_some, text_eq,
}

pub record Approval : Type 0 where
  pub proposal_id : ℕ
  pub request_hash : ℕ
  pub owner_principal_id : ℕ
  pub owner_auth_session_id : Option ℕ
  pub step_up_mfa_required : Bool
  pub decision : Text
  pub relevant_state_version : Option ℕ
  pub expires_at : Option ℕ
  pub consumed_at : Option ℕ

pub record Proposal : Type 0 where
  pub proposal_id : ℕ
  pub request_hash : ℕ
  pub precondition_snapshot_ref : Option ℕ

pub record Session : Type 0 where
  pub session_id : ℕ
  pub owner_principal_id : ℕ
  pub auth_strength : Text
  pub step_up_verified_at : Option ℕ
  pub step_up_expires_at : Option ℕ
  pub session_expires_at : Option ℕ
  pub revoked_at : Option ℕ

pub data Reason : Type 0 where
  no_approval no_proposal not_approved consumed expired proposal_mismatch hash_mismatch no_session
        session_mismatch owner_mismatch revoked session_expired state_changed weak_auth
        no_step_up_expiry step_up_expired step_up_unverified :
      Reason

-- `if (b) reasons.push(r)`
abbrev pub reason_if : Bool → Reason → List Reason
reason_if false r = []
reason_if true r = r ∷ []

-- `t && new Date(t).getTime() < now`
abbrev pub before : Option ℕ → ℕ → Bool
before none now = false
before (some t) now = ltb t now

abbrev pub approve : Text
approve = codes "APPROVE"

abbrev pub step_up : Text
step_up = codes "step_up_mfa"

-- `a != null && p != null && a !== p`
abbrev pub changed : Option ℕ → Option ℕ → Bool
changed none p = false
changed (some v) none = false
changed (some v) (some r) = not (v == r)

unfoldable pub session_reasons : Approval → Session → ℕ → List Reason
session_reasons a o now =
    reason_if (not (same_id (some o.session_id) a.owner_auth_session_id)) session_mismatch
    ++ (reason_if (not (o.owner_principal_id == a.owner_principal_id)) owner_mismatch
        ++ (reason_if (is_some o.revoked_at) revoked
            ++ reason_if (before o.session_expires_at now) session_expired))

abbrev pub expiry_reasons : Option ℕ → ℕ → List Reason
expiry_reasons none now = no_step_up_expiry ∷ []
expiry_reasons (some t) now = reason_if (ltb t now) step_up_expired

unfoldable pub step_up_reasons : Bool → Session → ℕ → List Reason
step_up_reasons false o now = []
step_up_reasons true o now =
    reason_if (not (text_eq o.auth_strength step_up)) weak_auth
    ++ (expiry_reasons o.step_up_expires_at now
        ++ reason_if (not (is_some o.step_up_verified_at)) step_up_unverified)

abbrev owner_reasons : Approval → Option Session → ℕ → List Reason
owner_reasons a none now = no_session ∷ []
owner_reasons a (some o) now = session_reasons a o now

abbrev mfa_reasons : Approval → Option Session → ℕ → List Reason
mfa_reasons a none now = []
mfa_reasons a (some o) now = step_up_reasons a.step_up_mfa_required o now

-- `validateApproval`: the approval is valid when no reason is found.
unfoldable pub validate_approval :
    Option Approval → Option Proposal → Option Session → ℕ → List Reason
unfolding session_reasons step_up_reasons
validate_approval none p o now = no_approval ∷ []
validate_approval (some a) none o now = no_proposal ∷ []
validate_approval (some a) (some p) o now =
    reason_if (not (text_eq a.decision approve)) not_approved
    ++ (reason_if (is_some a.consumed_at) consumed
        ++ (reason_if (before a.expires_at now) expired
            ++ (reason_if (not (a.proposal_id == p.proposal_id)) proposal_mismatch
                ++ (reason_if (not (a.request_hash == p.request_hash)) hash_mismatch
                    ++ (owner_reasons a o now
                        ++ (reason_if (changed a.relevant_state_version p.precondition_snapshot_ref)
                              state_changed
                            ++ mfa_reasons a o now))))))
