-- ===== src/Agency/Grants.antt =====
-- The grant that authorises a capability (src/contracts/grants.js). What the database answers is an
-- argument: the tenant of the transaction, and the active rows of the principal, newest first.
pub mod First
use jarvis_agencyos.Base.{
  ℕ, Bool, true, false, not, ◌||◌, Option, none, some, List, [], ◌∷◌, Text, text_eq, ltb, leb,
  codes, if◌then◌else◌, or_else,
}
use jarvis_agencyos.Exec.{Result, ok, err, ◌▹◌}
use jarvis_agencyos.Json.{Json, null, bool, num, str, arr, obj, Items, nil, cons, Fields}
use jarvis_agencyos.Agency.Capabilities.{field_of, filled}

-- `scope` is `none` where it is a text that does not parse; a time is `none` where it is not finite.
pub record Grant : Type 0 where
  pub grant_id : ℕ
  pub principal : Text
  pub capability_action_scope : Option Json
  pub effective_at : Option ℕ
  pub expires_at : Option (Option ℕ)
  pub revocation_epoch : ℕ

pub data GrantError : Type 0 where
  invalid_principal invalid_capability_id missing_tenant_context unparsable_scope : GrantError

abbrev pub contains : Text → Items → Bool
contains t nil = false
contains t (cons (str u) xs) = text_eq u t || contains t xs
contains t (cons _ xs) = contains t xs

-- `a ?? b` on fields
abbrev pub given_or : Option Json → Option Json → Option Json
given_or none b = b
given_or (some null) b = b
given_or (some v) b = some v

abbrev pub is_true : Option Json → Bool
is_true (some (bool b)) = b
is_true _ = false

abbrev pub lists_capability : Text → Option Json → Bool
lists_capability id (some (arr xs)) = contains id xs
lists_capability id _ = false

-- `scopeAllowsCapability`
unfoldable pub scope_allows_capability : Json → Text → Bool
scope_allows_capability (obj fs) id =
    is_true (field_of (codes "allow_all") fs)
    || lists_capability id
        (given_or (field_of (codes "capability_ids") fs) (field_of (codes "capabilities") fs))
scope_allows_capability _ id = false

-- `Number.isFinite(effectiveAt) && effectiveAt > now`
abbrev pub starts_later : Option ℕ → ℕ → Bool
starts_later none now = false
starts_later (some t) now = ltb now t

abbrev pub has_expired : Option (Option ℕ) → ℕ → Bool
has_expired (some (some t)) now = leb t now
has_expired _ now = false

-- One row of the loop: it is passed over, or it grants.
abbrev pub grants_now : Json → Text → ℕ → Grant → Bool
grants_now scope id now g =
    if not (scope_allows_capability scope id)
    then false
    else if starts_later g.effective_at now
    then false
    else if has_expired g.expires_at now
    then false
    else true

abbrev parsed : Option Json → Result GrantError Json
parsed none = err unparsable_scope
parsed (some v) = ok v

unfoldable pub first_grant : Text → ℕ → List Grant → Result GrantError (Option Grant)
first_grant id now [] = ok none
first_grant id now (g ∷ gs) =
    let rest = first_grant id now gs in
    parsed g.capability_action_scope ▹ λ scope.
    if grants_now scope id now g then ok (some g) else rest

-- `loadActiveGrant`
unfoldable pub load_active_grant :
    Option ℕ → (Text → List Grant) → Text → Text → ℕ → Result GrantError (Option Grant)
load_active_grant none rows principal id now =
    if not (filled principal)
    then err invalid_principal
    else if not (filled id)
    then err invalid_capability_id
    else err missing_tenant_context
load_active_grant (some tenant) rows principal id now =
    if not (filled principal)
    then err invalid_principal
    else if not (filled id)
    then err invalid_capability_id
    else first_grant id now (rows principal)
