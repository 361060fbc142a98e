-- ===== src/Builder/Orchestrator/Decisions.antt =====
-- The decisions of the orchestration that are not DONE (src/builder/orchestrator.js).
use jarvis_agencyos.Base.{
  ℕ, ◌≡◌, ◌≢◌, refl, Bool, true, Option, some, arith, sym, ◌∙◌, inl, inr, Bool-cases, Text,
}
use jarvis_agencyos.Exec.{pure, ◌>>=◌}
use jarvis_agencyos.Exec.Returns.{Returns, Returns-pure, Returns-bind, Returns-bind_known}
use jarvis_agencyos.Builder.Contracts.{FailureClass, VerificationResult, Runtime}
use jarvis_agencyos.Builder.Retry.{Repair, allowed, refused}
use jarvis_agencyos.Builder.Review.Exact.{Reviewed}
use jarvis_agencyos.Builder.Landed.{Verified}
use jarvis_agencyos.Builder.Orchestrator.{
  OrchestrationDecision, done, retry, blocked, needs_owner, Last, CycleEnd, ended, continues,
  finalize, decide_after_gates, is_needs_owner, after_repair, repair_or_stop, stop_blocked,
}

-- A review is there and its gate allows.
abbrev pub Allows : Option Reviewed → Type 0
Allows reviewed = (r : Reviewed) × (reviewed ≡ some r) × (r.gate.allowed ≡ true)

retry≢done : retry ≢ done
retry≢done h = ground arith

blocked≢done : blocked ≢ done
blocked≢done h = ground arith

pub needs_owner≢done : needs_owner ≢ done
needs_owner≢done h = ground arith

pub decide_after_gates-done :
    (required : Bool) (v : Verified) (reviewed : Option Reviewed)
    → (decide_after_gates required v reviewed).0 ≡ done
    → (v.result ≡ VerificationResult.pass) × (required ≡ true → Allows reviewed)
unfolding decide_after_gates
decide_after_gates-done required v reviewed h = ground arith

-- The end of a cycle, if it is one, is not DONE.
abbrev pub NotDone : CycleEnd → Type 0
NotDone (ended o) = o.decision ≢ done
NotDone (continues last) = Unit

pub finalize-decision :
    (id : ℕ) (d : OrchestrationDecision) (last : Last)
    → Returns (λ o. (o.decision ≡ d) × (o.last ≡ last)) (finalize id d last)
unfolding finalize
finalize-decision id d last =
    Returns-bind _ _ λ _. Returns-bind _ _ λ _. Returns-bind _ _ λ _. Returns-pure _ (refl, refl)

ends-NotDone :
    (id : ℕ) (d : OrchestrationDecision) (last : Last)
    → d ≢ done
    → Returns NotDone (finalize id d last >>= λ o. pure (ended o))
ends-NotDone id d last n =
    Returns-bind_known _ _ (finalize-decision id d last)
      λ o k. Returns-pure _ (λ e. n (sym k.0 ∙ e))

module _ (env : Runtime) (provider : Option Text) (id : ℕ) where
  pub stop_blocked-NotDone : (last : Last) → Returns NotDone (stop_blocked env provider id last)
  unfolding stop_blocked
  stop_blocked-NotDone last = ends-NotDone id blocked last blocked≢done

  after_repair-NotDone :
      (last : Last) (r : Repair) → Returns NotDone (after_repair env provider id last r)
  unfolding after_repair
  after_repair-NotDone last (allowed run n) = Returns-pure _ tt
  after_repair-NotDone last (refused why stop class) = elim (Bool-cases (is_needs_owner stop)) [
    | inl owner ↦ rw owner (ends-NotDone id needs_owner last needs_owner≢done)
    | inr other ↦ rw other (ends-NotDone id blocked last blocked≢done)
  ]

  pub repair_or_stop-NotDone :
      (last : Last) (f : FailureClass) → Returns NotDone (repair_or_stop env provider id last f)
  unfolding repair_or_stop
  repair_or_stop-NotDone last f = Returns-bind _ _ λ r. after_repair-NotDone last r
