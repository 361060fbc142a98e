-- ===== src/Builder/Orchestrator/Judged.antt =====
-- The decision behind a verdict and a review (src/builder/orchestrator.js).
use jarvis_agencyos.Base.{
  ℕ, ◌≡◌, refl, sym, ap, subst, ◌∙◌, ◌⊎◌, true, false, Bool, Option, none, some, Text, inl, inr,
  Bool-cases,
}
use jarvis_agencyos.Exec.{Result, ok, err, ◌>>=◌}
use jarvis_agencyos.Exec.Returns.{Returns}
use jarvis_agencyos.Exec.Does.{
  Does, Does-weaken, Does-implies, Does-pure, Does-know, Does-if, Does-Keeps, Does-Returns,
  Does-bind, Does-then, Does-gets, Does-some, Does-some_last, Does-modify, Does-on_result,
  Does-catch,
}
use jarvis_agencyos.Builder.Contracts.{TaskStatus, FailureClass, VerificationResult, Runtime}
use jarvis_agencyos.Builder.State.{Task, Candidate, Builder, Action, Error}
use jarvis_agencyos.Builder.Store.{find_task, get_task, append_event}
use jarvis_agencyos.Builder.Verifier.Passed.{Grounds}
use jarvis_agencyos.Builder.Review.Exact.{Reviewed}
use jarvis_agencyos.Builder.Landed.{Verified}
use jarvis_agencyos.Builder.Orchestrator.{
  OrchestrationDecision, done, retry, blocked, needs_owner, Cycle, Last, Outcome, CycleEnd, ended,
  continues, finalize, attempt, row_of, repair_or_stop, stop_blocked, maybe_review, act,
  decide_and_act, review_and_decide,
}
use jarvis_agencyos.Builder.Frame.Candidates.{OnCandidates}
use jarvis_agencyos.Builder.Frame.CandidateTargets.{TargetIs}
use jarvis_agencyos.Builder.Orchestrator.Verdicts.{watched}
use jarvis_agencyos.Builder.Orchestrator.Asked.{Passed, maybe_review-Opens, maybe_review-Asks}
use jarvis_agencyos.Builder.Orchestrator.Decisions.{
  Allows, NotDone, decide_after_gates-done, stop_blocked-NotDone, repair_or_stop-NotDone,
}
use jarvis_agencyos.Builder.Orchestrator.Status.{
  some-injective, none≢some, Nothing, RowIs, update_task_status-status,
}

-- What a block returned holds, if it returned.
abbrev pub KnownAt : {A : Type 0} → (A → Builder → Type 0) → Result Error A → Builder → Type 0
KnownAt R (ok a) s = R a s
KnownAt R (err e) s = Unit

pub attempt-Does :
    {A : Type 0} {Q : Builder → Type 0} {R : A → Builder → Type 0} (m : Action A)
    → Does Q R m
    → Does Q (KnownAt R) (attempt m)
unfolding attempt
attempt-Does m d =
    Does-catch {P = λ _. Unit} _ _ (Does-bind _ _ d (λ a. Does-pure _ (λ s q. q))) (λ s q e h. tt)
      (λ e. Does-pure _ (λ s q. tt))

pub row_of-known :
    {Q : Builder → Type 0} (id : ℕ) → Does Q (λ t s. Q s × RowIs id t s) (row_of (get_task id))
unfolding get_task
row_of-known id = Does-gets _ _ λ o. Does-some_last o _ λ t e s q. (q.0, q.1 ∙ e)

module _ (id : ℕ) (cycle : Cycle) where
  -- The reported candidate is one of the task, and the reported commit its own; the cycle's host gave
  -- landing evidence for this commit, with CI that completed with success, and neither the cycle's tests
  -- nor its build failed.
  abbrev pub Delivered : Last → Type 0
  Delivered last =
      (c : Candidate) × (sha : Text) × (last.candidate_id ≡ some c.candidate_id)
      × (last.commit_sha ≡ some sha)
      × (c.task_id ≡ id)
      × (c.commit_sha ≡ some sha)
      × Grounds c sha (watched cycle.surround)

  -- The task's row is accepted, and if it asks for a review, the cycle's reviewer answered PASS.
  abbrev pub DoneAt : Last → Builder → Type 0
  DoneAt last s =
      (t : Task) × (find_task id s.tasks ≡ some t)
      × (t.status ≡ TaskStatus.accepted)
      × Delivered last
      × ((t.review_required ≡ false) ⊎ Passed cycle.invoker)

  abbrev pub OutcomeDone : Outcome → Builder → Type 0
  OutcomeDone o s = o.decision ≡ done → (o.task_status ≡ TaskStatus.accepted) × DoneAt o.last s

  abbrev pub EndDone : CycleEnd → Builder → Type 0
  EndDone (ended o) s = OutcomeDone o s
  EndDone (continues last) s = Unit

  finalize-done : (last : Last) → Does (DoneAt last) OutcomeDone (finalize id done last)
  unfolding finalize get_task append_event
  finalize-done last = Does-gets _ _ λ o. Does-some o _ _ λ u e.
      Does-modify {M = λ s. DoneAt last s × (find_task id s.tasks ≡ o)} _ _ (λ s q. q)
        (Does-pure _ λ s q _.
          let (t, found, accepted, delivered, reviewed) = q.0 in
          (ap (λ w. w.status) (some-injective (sym e ∙ sym q.1 ∙ found)) ∙ accepted, q.0))

  NotDone-end : (e : CycleEnd) (s : Builder) → NotDone e → EndDone e s
  NotDone-end (ended o) s n = λ h. absurd (n h)
  NotDone-end (continues last) s n = tt

  not_done : {Q : Builder → Type 0} (m : Action CycleEnd) → Returns NotDone m → Does Q EndDone m
  not_done m k = Does-implies m NotDone-end (Does-Returns m k)

  pub from_any :
      {A : Type 0} {Q : Builder → Type 0} {R : A → Builder → Type 0} (m : Action A)
      → Does Nothing R m
      → Does Q R m
  from_any m d = Does-weaken m (λ s q. tt) d

module _ (env : Runtime) (provider : Option Text) (id : ℕ) (cycle : Cycle) where
  pub stops :
      {Q : Builder → Type 0} (last : Last)
      → Does Q (EndDone id cycle) (stop_blocked env provider id last)
  stops last = not_done id cycle _ (stop_blocked-NotDone env provider id last)

  pub repairs :
      {Q : Builder → Type 0} (last : Last) (f : FailureClass)
      → Does Q (EndDone id cycle) (repair_or_stop env provider id last f)
  repairs last f = not_done id cycle _ (repair_or_stop-NotDone env provider id last f)

  act-done :
      (last : Last) (t : Task) (v : Verified) (d : OrchestrationDecision × Option FailureClass)
      → (v.result ≡ VerificationResult.pass → Delivered id cycle last)
      → (d.0 ≡ done
          → (v.result ≡ VerificationResult.pass)
            × (t.review_required ≡ true → Passed cycle.invoker))
      → Does (RowIs id t) (EndDone id cycle) (act env provider id last d)
  unfolding act
  act-done last t v (done, f) came k =
      Does-bind _ _ (update_task_status-status id env t TaskStatus.accepted) λ _.
        Does-bind _ _
          (Does-weaken _
            (λ s q.
              let (n, found, accepted, required) = q in
              (n, found, accepted, came (k refl).0, review_or_none n required))
            (finalize-done id cycle last))
          (λ o. Does-pure _ (λ s q. q))
    where
      review_or_none :
          (n : Task)
          → n.review_required ≡ t.review_required
          → (n.review_required ≡ false) ⊎ Passed cycle.invoker
      review_or_none n same = elim (Bool-cases t.review_required) [
        | inl asked ↦ inr ((k refl).1 asked)
        | inr free ↦ inl (same ∙ free)
      ]
  act-done last t v (retry, f) came k = repairs last _
  act-done last t v (needs_owner, f) came k = repairs last _
  act-done last t v (blocked, f) came k = Does-then _ _ λ _. Does-then _ _ λ _. stops last

  -- If the task's row asks for a review, one that allows stands on the reviewer's PASS.
  abbrev Clear : Option Reviewed → Builder → Type 0
  Clear reviewed s =
      (t : Task)
      → find_task id s.tasks ≡ some t
      → t.review_required ≡ true
      → Allows reviewed
      → Passed cycle.invoker

  decide_and_act-done :
      (last : Last) (v : Verified) (reviewed : Option Reviewed)
      → (v.result ≡ VerificationResult.pass → Delivered id cycle last)
      → Does (Clear reviewed) (EndDone id cycle) (decide_and_act env provider id last v reviewed)
  unfolding decide_and_act
  decide_and_act-done last v reviewed came = Does-bind _ _ (row_of-known id) λ t.
      Does-know _ (λ s q. q.0 t q.1)
        λ clear.
          Does-weaken _ (λ s q. q.1)
            (act-done last t v _ came λ h.
              let (passed, allows) = decide_after_gates-done t.review_required v reviewed h in
              (passed, λ r. clear r (allows r)))

  -- The same of a review that returned.
  abbrev Reviews : Reviewed → Builder → Type 0
  Reviews r s =
      (t : Task)
      → find_task id s.tasks ≡ some t
      → t.review_required ≡ true
      → r.gate.allowed ≡ true
      → Passed cycle.invoker

  true≢false : {b : Bool} → b ≡ true → b ≡ false → ⊥
  true≢false h k = cc

  review-Reviews :
      (v : Verified) (sha : Text)
      → Does
          (OnCandidates (TargetIs v.candidate.candidate_id id sha))
          Reviews
          (row_of (get_task id) >>= λ task. maybe_review env provider id task v cycle.invoker)
  review-Reviews v sha = Does-bind _ _ (row_of-known id) λ task.
      elim (Bool-cases task.review_required) [
        | inl asked ↦
            Does-implies _ (λ r s opens t at asks allowed. opens allowed)
              (Does-weaken _ (λ s q. (q.0, (task, q.1, asked)))
                (maybe_review-Opens env id provider task v cycle.invoker sha asked))
        | inr free ↦
            Does-implies _
              (λ r s kept t at asks allowed.
                let (u, there, free') = kept in
                absurd (
                  true≢false asks
                    (ap (λ x. x.review_required) (some-injective (sym at ∙ there)) ∙ free')))
              (Does-weaken _ (λ s q. (task, q.1, free))
                (Does-Keeps _ (maybe_review-Asks env id false provider task v cycle.invoker)))
      ]

  pub review_and_decide-done :
      (last : Last) (v : Verified) (sha : Text)
      → (v.result ≡ VerificationResult.pass → Delivered id cycle last)
      → Does
          (OnCandidates (TargetIs v.candidate.candidate_id id sha))
          (EndDone id cycle)
          (review_and_decide env provider id last v cycle.invoker)
  unfolding review_and_decide
  review_and_decide-done last v sha came =
      Does-if _ _ _
        (λ _.
          Does-weaken _ (λ s q t at asks allows. absurd (none≢some allows.1))
            (decide_and_act-done last v none came))
        λ _. Does-bind _ _ (attempt-Does {R = Reviews} _ (review-Reviews v sha)) λ r.
          Does-on_result r _ _
            (λ a e.
              Does-weaken _
                (λ s q t at asks allows.
                  subst (λ x. KnownAt Reviews x s) e q t at asks
                    (ap (λ b. b.gate.allowed) (some-injective allows.1) ∙ allows.2))
                (decide_and_act-done last v (some a) came))
            (λ e _. stops last)
