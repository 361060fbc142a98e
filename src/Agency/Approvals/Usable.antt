-- ===== src/Agency/Approvals/Usable.antt =====
-- The conditions of validateApproval (src/contracts/approval.js).
use jarvis_agencyos.Base.{
  ℕ, ◌≤◌, ◌≡◌, refl, Bool, true, false, not, Option, none, some, List, [], ◌∷◌, ◌++◌, ltb, ◌==◌,
  ==_iff, same_id, is_some, text_eq, text_eq_sound, arith,
}
use jarvis_agencyos.Agency.Approvals.{
  Approval, Proposal, Session, Reason, reason_if, before, approve, step_up, changed,
  session_reasons, expiry_reasons, step_up_reasons, validate_approval,
}

-- A time that may be left out has not passed.
abbrev pub Lasts : Option ℕ → ℕ → Type 0
Lasts t now = (u : ℕ) → t ≡ some u → now ≤ u

-- The session went through a step-up that has not run out.
pub record SteppedUp (o : Session) (now : ℕ) : Type 0 where
  pub strength : o.auth_strength ≡ step_up
  pub until : ℕ
  pub expiry : o.step_up_expires_at ≡ some until
  pub in_time : now ≤ until
  pub checked : ℕ
  pub verified : o.step_up_verified_at ≡ some checked

-- The approval approves this proposal, unused and in time, for the owner's own session.
pub record Usable (a : Approval) (p : Proposal) (o : Session) (now : ℕ) : Type 0 where
  pub approved : a.decision ≡ approve
  pub unused : a.consumed_at ≡ none
  pub lasts : Lasts a.expires_at now
  pub same_proposal : a.proposal_id ≡ p.proposal_id
  pub same_request : a.request_hash ≡ p.request_hash
  pub same_session : a.owner_auth_session_id ≡ some o.session_id
  pub same_owner : o.owner_principal_id ≡ a.owner_principal_id
  pub standing : o.revoked_at ≡ none
  pub session_lasts : Lasts o.session_expires_at now
  pub same_state :
      (v r : ℕ) → a.relevant_state_version ≡ some v → p.precondition_snapshot_ref ≡ some r → v ≡ r
  pub stepped_up : a.step_up_mfa_required ≡ true → SteppedUp o now

cons≢nil : {x : Reason} {xs : List Reason} → ◌≡◌ {A = List Reason} (x ∷ xs) [] → ⊥
cons≢nil h = cc

append-nil : (xs ys : List Reason) → xs ++ ys ≡ [] → (xs ≡ []) × (ys ≡ [])
append-nil [] ys h = (refl, h)
append-nil (x ∷ xs) ys h = absurd (cons≢nil h)

unfired : (b : Bool) (r : Reason) → reason_if b r ≡ [] → b ≡ false
unfired false r h = refl
unfired true r h = absurd (cons≢nil h)

not-true : (b : Bool) → not b ≡ false → b ≡ true
not-true b h = ground arith

before-Lasts : (t : Option ℕ) (now : ℕ) → before t now ≡ false → Lasts t now
before-Lasts none now h u e = ground arith
before-Lasts (some t) now h u e = ground arith

is_some-none : (t : Option ℕ) → is_some t ≡ false → t ≡ none
is_some-none none h = refl
is_some-none (some t) h = ground arith

same_id-some : (n : ℕ) (o : Option ℕ) → same_id (some n) o ≡ true → o ≡ some n
same_id-some n none h = ground arith
same_id-some n (some m) h = ground arith

unchanged-same :
    (a p : Option ℕ) → changed a p ≡ false → (v r : ℕ) → a ≡ some v → p ≡ some r → v ≡ r
unchanged-same none p h v r e f = ground arith
unchanged-same (some w) none h v r e f = ground arith
unchanged-same (some w) (some q) h v r e f = ground arith

until_fact :
    (t : Option ℕ) (now : ℕ) → expiry_reasons t now ≡ [] → (u : ℕ) × (t ≡ some u) × (now ≤ u)
until_fact none now h = absurd (cons≢nil h)
until_fact (some u) now h = (u, refl, before-Lasts (some u) now (unfired (ltb u now) _ h) u refl)

checked_fact : (t : Option ℕ) → not (is_some t) ≡ false → (u : ℕ) × (t ≡ some u)
checked_fact none h = ground arith
checked_fact (some u) h = (u, refl)

step_up_reasons-SteppedUp :
    (o : Session) (now : ℕ) → step_up_reasons true o now ≡ [] → SteppedUp o now
unfolding step_up_reasons
step_up_reasons-SteppedUp o now h =
    let (h1, t1) = append-nil (reason_if (not (text_eq o.auth_strength step_up)) _) _ h in
    let (h2, h3) = append-nil (expiry_reasons o.step_up_expires_at now) _ t1 in
    let (u, expiry, in_time) = until_fact o.step_up_expires_at now h2 in
    let (c, verified) = checked_fact o.step_up_verified_at (unfired _ _ h3) in
    record {
      strength = text_eq_sound o.auth_strength step_up (not-true _ (unfired _ _ h1));
      until = u;
      expiry = expiry;
      in_time = in_time;
      checked = c;
      verified = verified;
    }

stepped :
    (needed : Bool) (o : Session) (now : ℕ)
    → step_up_reasons needed o now ≡ []
    → needed ≡ true
    → SteppedUp o now
stepped true o now h e = step_up_reasons-SteppedUp o now h
stepped false o now h e = ground arith

session_reasons-facts :
    (a : Approval) (o : Session) (now : ℕ)
    → session_reasons a o now ≡ []
    → (a.owner_auth_session_id ≡ some o.session_id)
      × (o.owner_principal_id ≡ a.owner_principal_id)
      × (o.revoked_at ≡ none)
      × Lasts o.session_expires_at now
unfolding session_reasons
session_reasons-facts a o now h =
    let (h1, t1) =
      append-nil (reason_if (not (same_id (some o.session_id) a.owner_auth_session_id)) _) _ h in
    let (h2, t2) =
      append-nil (reason_if (not (o.owner_principal_id == a.owner_principal_id)) _) _ t1 in
    let (h3, h4) = append-nil (reason_if (is_some o.revoked_at) _) _ t2 in
    (
      same_id-some o.session_id a.owner_auth_session_id (not-true _ (unfired _ _ h1)),
      (==_iff o.owner_principal_id a.owner_principal_id).0 (not-true _ (unfired _ _ h2)),
      is_some-none o.revoked_at (unfired _ _ h3),
      before-Lasts o.session_expires_at now (unfired _ _ h4),
    )

-- An approval is found valid only for a session that is there, and then it is usable: it approves
-- this very proposal and request, is unused and in time, is bound to this session and its owner,
-- the session stands, the state has not changed, and a step-up was made where one is required.
pub validate_approval-Usable :
    (a : Approval) (p : Proposal) (o : Option Session) (now : ℕ)
    → validate_approval (some a) (some p) o now ≡ []
    → (session : Session) × (o ≡ some session) × Usable a p session now
unfolding validate_approval
validate_approval-Usable a p none now h =
    let (h1, t1) = append-nil (reason_if (not (text_eq a.decision approve)) _) _ h in
    let (h2, t2) = append-nil (reason_if (is_some a.consumed_at) _) _ t1 in
    let (h3, t3) = append-nil (reason_if (before a.expires_at now) _) _ t2 in
    let (h4, t4) = append-nil (reason_if (not (a.proposal_id == p.proposal_id)) _) _ t3 in
    let (h5, t5) = append-nil (reason_if (not (a.request_hash == p.request_hash)) _) _ t4 in
    absurd (cons≢nil t5)
validate_approval-Usable a p (some session) now h =
    let (h1, t1) = append-nil (reason_if (not (text_eq a.decision approve)) _) _ h in
    let (h2, t2) = append-nil (reason_if (is_some a.consumed_at) _) _ t1 in
    let (h3, t3) = append-nil (reason_if (before a.expires_at now) _) _ t2 in
    let (h4, t4) = append-nil (reason_if (not (a.proposal_id == p.proposal_id)) _) _ t3 in
    let (h5, t5) = append-nil (reason_if (not (a.request_hash == p.request_hash)) _) _ t4 in
    let (h6, t6) = append-nil (session_reasons a session now) _ t5 in
    let (h7, h8) =
      append-nil (reason_if (changed a.relevant_state_version p.precondition_snapshot_ref) _) _
        t6 in
    let (same_session, same_owner, standing, lasts) = session_reasons-facts a session now h6 in
    (
      session,
      refl,
      record {
        approved = text_eq_sound a.decision approve (not-true _ (unfired _ _ h1));
        unused = is_some-none a.consumed_at (unfired _ _ h2);
        lasts = before-Lasts a.expires_at now (unfired _ _ h3);
        same_proposal = (==_iff a.proposal_id p.proposal_id).0 (not-true _ (unfired _ _ h4));
        same_request = (==_iff a.request_hash p.request_hash).0 (not-true _ (unfired _ _ h5));
        same_session = same_session;
        same_owner = same_owner;
        standing = standing;
        session_lasts = lasts;
        same_state = unchanged-same _ _ (unfired _ _ h7);
        stepped_up = stepped a.step_up_mfa_required session now h8;
      },
    )
