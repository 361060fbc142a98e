-- ===== src/Agency/Capabilities/Valid.antt =====
-- What a validated capability is (src/contracts/capability.js).
use jarvis_agencyos.Base.{
  ℕ, ◌≡◌, refl, sym, subst, ◌∙◌, true, false, Option, none, some, List, Text, codes, has_text, ◌==◌,
  ==_iff, Bool-cases, inl, inr,
}
use jarvis_agencyos.Exec.{Result, ok, err, ◌▹◌}
use jarvis_agencyos.Exec.Returns.{ok-injective, err≢ok}
use jarvis_agencyos.Json.{Json, null, num, str, Fields}
use jarvis_agencyos.Agency.Capabilities.{
  CapabilityError, Capability, control_surfaces, reversibilities, idempotencies,
  capability_statuses, looks_secret, field_of, filled, as_string, as_version, as_bool, optional,
  opaque_ref, fields_of, require_string, require_enum, require_object, require_string_array,
  assert_no_raw_secret_fields, validate_capability_contract,
}

-- One of the texts, and not empty.
abbrev pub OneOf : List Text → Text → Type 0
OneOf allowed t = (filled t ≡ true) × (has_text t allowed ≡ true)

abbrev pub FilledIfGiven : Option Text → Type 0
FilledIfGiven none = Unit
FilledIfGiven (some t) = filled t ≡ true

-- No reference, or a text that does not begin as a secret does.
abbrev pub Opaque : Option Text → Type 0
Opaque none = Unit
Opaque (some t) = (filled t ≡ true) × (looks_secret t ≡ false)

pub record Valid (c : Capability) : Type 0 where
  pub version : c.contract_version ≡ 1
  pub capability_id : filled c.capability_id ≡ true
  pub tenant_scope : filled c.tenant_scope ≡ true
  pub provider : filled c.provider ≡ true
  pub control_surface : OneOf control_surfaces c.control_surface
  pub adapter : filled c.adapter ≡ true
  pub operation : filled c.operation ≡ true
  pub risk_class : filled c.risk_class ≡ true
  pub reversibility : OneOf reversibilities c.reversibility
  pub credential_ref : Opaque c.credential_ref
  pub provider_idempotency : OneOf idempotencies c.provider_idempotency
  pub postcondition_verifier : FilledIfGiven c.postcondition_verifier
  pub approval_policy : filled c.approval_policy ≡ true
  pub receipt_schema : filled c.receipt_schema ≡ true
  pub status : OneOf capability_statuses c.status

-- What a check that did not throw gives.
record Gives {A : Type 0} (Q : A → Type 0) (r : Result CapabilityError A) : Type 0 where
  at : (a : A) → r ≡ ok a → Q a

module _ {A B : Type 0} {Q : B → Type 0} where
  Gives-bind :
      (r : Result CapabilityError A) (f : A → Result CapabilityError B)
      → ((a : A) → r ≡ ok a → Gives Q (f a))
      → Gives Q (r ▹ f)
  Gives-bind (ok a) f k = k a refl
  Gives-bind (err e) f k = record { at = λ b h. absurd (err≢ok h) }

Gives-ok : {A : Type 0} {Q : A → Type 0} (a : A) → Q a → Gives Q (ok a)
Gives-ok {Q} a q = record { at = λ b h. subst Q (ok-injective h) q }

as_string-filled :
    (key : Text) (o : Option Json) (t : Text) → as_string key o ≡ ok t → filled t ≡ true
as_string-filled key none t h = absurd (err≢ok h)
as_string-filled key (some (str u)) t h = elim (Bool-cases (filled u)) [
  | inl here ↦ subst (λ v. filled v ≡ true) (ok-injective (rw here at h)) here
  | inr bare ↦ absurd (err≢ok (rw bare at h))
]
as_string-filled key (some _) t h = absurd (err≢ok h)

require_string-filled :
    (fs : Fields) (key t : Text) → require_string fs key ≡ ok t → filled t ≡ true
unfolding require_string
require_string-filled fs key t h = as_string-filled key (field_of key fs) t h

require_enum-OneOf :
    (fs : Fields) (key : Text) (allowed : List Text) (t : Text)
    → require_enum fs key allowed ≡ ok t
    → OneOf allowed t
unfolding require_enum
require_enum-OneOf fs key allowed t h = member.at t h
  where
    member : Gives (OneOf allowed) (require_enum fs key allowed)
    member = Gives-bind (require_string fs key) _ λ u e. elim (Bool-cases (has_text u allowed)) [
      | inl here ↦ rw here (Gives-ok u (require_string-filled fs key u e, here))
      | inr other ↦ rw other (record { at = λ b g. absurd (err≢ok g) })
    ]

as_version-one : (o : Option Json) (n : ℕ) → as_version o ≡ ok n → n ≡ 1
as_version-one none n h = sym (ok-injective h)
as_version-one (some null) n h = sym (ok-injective h)
as_version-one (some (num m)) n h = elim (Bool-cases (m == 1)) [
  | inl one ↦ sym (ok-injective (rw one at h)) ∙ (==_iff m 1).0 one
  | inr other ↦ absurd (err≢ok (rw other at h))
]
as_version-one (some _) n h = absurd (err≢ok h)

optional-FilledIfGiven :
    (key : Text) (o : Option Json) (t : Option Text) → optional key o ≡ ok t → FilledIfGiven t
optional-FilledIfGiven key none t h = subst FilledIfGiven (ok-injective h) tt
optional-FilledIfGiven key (some null) t h = subst FilledIfGiven (ok-injective h) tt
optional-FilledIfGiven key (some (str u)) t h = given.at t h
  where
    given : Gives FilledIfGiven (optional key (some (str u)))
    given =
        Gives-bind (as_string key (some (str u))) _
          λ v e. Gives-ok _ (as_string-filled key (some (str u)) v e)
optional-FilledIfGiven key (some _) t h = absurd (err≢ok h)

opaque_ref-Opaque : (o r : Option Text) → FilledIfGiven o → opaque_ref o ≡ ok r → Opaque r
opaque_ref-Opaque none r k h = subst Opaque (ok-injective h) tt
opaque_ref-Opaque (some t) r k h = elim (Bool-cases (looks_secret t)) [
  | inl secret ↦ absurd (err≢ok (rw secret at h))
  | inr safe ↦ subst Opaque (ok-injective (rw safe at h)) (k, safe)
]

validate_capability_contract-Gives :
    (input : Json) → Gives Valid (validate_capability_contract input)
unfolding validate_capability_contract
validate_capability_contract-Gives input = Gives-bind (fields_of input) _ λ fs _.
    Gives-bind (assert_no_raw_secret_fields fs) _ λ _ _.
      Gives-bind (as_version (field_of (codes "contract_version") fs)) _ λ n v.
        Gives-bind (require_string fs (codes "capability_id")) _ λ x0 e0.
          Gives-bind (require_string fs (codes "tenant_scope")) _ λ x1 e1.
            Gives-bind (require_string fs (codes "provider")) _ λ x2 e2.
              Gives-bind (require_enum fs (codes "control_surface") control_surfaces) _ λ x3 e3.
                Gives-bind (require_string fs (codes "adapter")) _ λ x4 e4.
                  Gives-bind (require_string fs (codes "operation")) _ λ x5 e5.
                    Gives-bind (require_string fs (codes "risk_class")) _ λ x6 e6.
                      Gives-bind (require_enum fs (codes "reversibility") reversibilities) _
                        λ x7 e7. Gives-bind (require_object fs (codes "auth_scope")) _ λ x8 _.
                          Gives-bind (require_enum fs (codes "provider_idempotency") idempotencies)
                            _
                            λ x9 e9.
                              Gives-bind
                                (as_bool (codes "postcondition_observable")
                                  (field_of (codes "postcondition_observable") fs))
                                _
                                λ x10 _.
                                  Gives-bind (require_object fs (codes "preconditions")) _ λ x11 _.
                                    Gives-bind
                                      (optional (codes "postcondition_verifier")
                                        (field_of (codes "postcondition_verifier") fs))
                                      _
                                      λ x12 e12.
                                        Gives-bind
                                          (require_string_array fs (codes "fallback_routes")) _
                                          λ x13 _.
                                            Gives-bind (require_string fs (codes "approval_policy"))
                                              _
                                              λ x14 e14.
                                                Gives-bind
                                                  (require_object fs (codes "network_scope")) _
                                                  λ x15 _.
                                                    Gives-bind
                                                      (require_object fs
                                                        (codes "timeout_retry_policy"))
                                                      _
                                                      λ x16 _.
                                                        Gives-bind
                                                          (require_string fs
                                                            (codes "receipt_schema"))
                                                          _
                                                          λ x17 e17.
                                                            Gives-bind
                                                            (require_enum fs (codes "status")
                                                            capability_statuses)
                                                            _
                                                            λ x18 e18.
                                                            Gives-bind
                                                            (optional (codes "credential_ref")
                                                            (field_of (codes "credential_ref") fs))
                                                            _
                                                            λ o given.
                                                            Gives-bind (opaque_ref o) _ λ r safe.
                                                            Gives-ok _ (record {
                                                            version =
                                                            as_version-one
                                                            (field_of (codes "contract_version") fs)
                                                            n v;
                                                            capability_id =
                                                            require_string-filled _ _ _ e0;
                                                            tenant_scope =
                                                            require_string-filled _ _ _ e1;
                                                            provider =
                                                            require_string-filled _ _ _ e2;
                                                            control_surface =
                                                            require_enum-OneOf _ _ _ _ e3;
                                                            adapter =
                                                            require_string-filled _ _ _ e4;
                                                            operation =
                                                            require_string-filled _ _ _ e5;
                                                            risk_class =
                                                            require_string-filled _ _ _ e6;
                                                            reversibility =
                                                            require_enum-OneOf _ _ _ _ e7;
                                                            provider_idempotency =
                                                            require_enum-OneOf _ _ _ _ e9;
                                                            postcondition_verifier =
                                                            optional-FilledIfGiven _ _ _ e12;
                                                            approval_policy =
                                                            require_string-filled _ _ _ e14;
                                                            receipt_schema =
                                                            require_string-filled _ _ _ e17;
                                                            status = require_enum-OneOf _ _ _ _ e18;
                                                            credential_ref =
                                                            opaque_ref-Opaque o r
                                                            (optional-FilledIfGiven _ _ _ given)
                                                            safe;
                                                            })

-- A capability that validates has the contract's version, no text empty that must be filled, its
-- surface, reversibility, idempotency and status from the lists of the contract, and a credential
-- reference, if any, that does not begin as an inline secret does.
pub validate_capability_contract-Valid :
    (input : Json) (c : Capability) → validate_capability_contract input ≡ ok c → Valid c
validate_capability_contract-Valid input c h = (validate_capability_contract-Gives input).at c h
