-- ===== src/Builder/Orchestrator/Asked.antt =====
-- The review of a candidate whose task asks for one (maybeReview, src/builder/orchestrator.js, over
-- reviewExactCandidate, src/builder/codex-review.js).
use jarvis_agencyos.Base.{
  inl, inr, Bool-cases, Option-cases, ==_iff, leb, ◌&&◌, update, ℕ, ◌≡◌, refl, sym, ap, ◌∙◌, true,
  not, Bool, Option, none, some, List, Text, ◌==◌, arith,
}
use jarvis_agencyos.Exec.{ok, ◌>>=◌}
use jarvis_agencyos.Exec.Keeps.{Keeps, Keeps-when, Keeps-bind, Keeps-pure}
use jarvis_agencyos.Exec.Returns.{Returns, Returns-bind, Returns-pure, Returns-bind_known}
use jarvis_agencyos.Exec.Does.{
  Does, Does-weaken, Does-implies, Does-pure, Does-know, Does-if, Does-Keeps, Does-Returns,
  Does-bind, Does-then, Does-gets, Does-lift, Does-some, Does-require, Does-and,
}
use jarvis_agencyos.Builder.Contracts.{Runtime, TaskStatus, ReviewStatus}
use jarvis_agencyos.Builder.State.{Task, Candidate, Verification, Review, Builder}
use jarvis_agencyos.Builder.Store.{
  find_task, find_candidate, get_candidate, get_task, get_run, insert_review, update_task,
}
use jarvis_agencyos.Builder.Runs.{update_task_status}
use jarvis_agencyos.Builder.Review.Gate.{evaluate_review_gate-allowed}
use jarvis_agencyos.Builder.Review.Exact.{
  Invoked, invoke_failed, output, Invoker, Reviewed, gated, add_review, block_task, settle_review,
  ask_reviewer, review_exact_candidate,
}
use jarvis_agencyos.Builder.Landed.{Verified}
use jarvis_agencyos.Builder.Orchestrator.{maybe_review}
use jarvis_agencyos.Builder.FinishLine.Rows.{find_task-id, find_task-update}
use jarvis_agencyos.Builder.Frame.Tasks.{OnTasks, task_frame}
use jarvis_agencyos.Builder.Frame.TaskCandidates.{candidate_rules}
use jarvis_agencyos.Builder.Frame.TaskStatuses.{WorkStatus}
use jarvis_agencyos.Builder.Frame.TaskReviews.{
  add_review-tasks, review_event-tasks, stored_verification-tasks, review_exact_candidate-status,
}
use jarvis_agencyos.Builder.Frame.CandidateTargets.{TargetIs}
use jarvis_agencyos.Builder.Orchestrator.Status.{some-injective}

-- The task's row asks for a review, or does not.
abbrev pub Asks : ℕ → Bool → List Task → Type 0
Asks id asked ts = (t : Task) × (find_task id ts ≡ some t) × (t.review_required ≡ asked)

Asks-update :
    (id : ℕ) (asked : Bool) (j : ℕ) (n u : Task) (ts : List Task)
    → find_task j ts ≡ some u
    → n.task_id ≡ j
    → n.review_required ≡ u.review_required
    → Asks id asked ts
    → Asks id asked (update (λ t. t.task_id == j) (λ _. n) ts)
Asks-update id asked j n u ts e own same (t, at, asks) = elim (Bool-cases (j == id)) [
  | inr other ↦ (t, find_task-update j id n ts own ∙ rw other at, asks)
  | inl here ↦
      let there : j ≡ id = (==_iff j id).0 here in
      let row : t ≡ u = cc in
      (
        n,
        find_task-update j id n ts own ∙ rw (here, at) refl,
        same ∙ sym (ap (λ x. x.review_required) row) ∙ asks,
      )
]

update_task-Asks :
    (id : ℕ) (asked : Bool) (j : ℕ) (f : Task → Task)
    → ((t : Task) → (f t).review_required ≡ t.review_required)
    → Keeps (OnTasks (Asks id asked)) (update_task j f)
unfolding update_task ◌>>=◌
update_task-Asks id asked j f k = record {
  at = λ s h. elim (Option-cases (find_task j s.tasks)) [
    | inl e ↦ rw (e, update_task) h
    | inr (t, e) ↦
        let next : Task = record (f t) { task_id = t.task_id; updated_at = s.now } in
        elim (Bool-cases (leb 1 next.intent_version && leb 1 next.max_attempts)) [
          | inl fits ↦
              rw (e, update_task, fits)
                (Asks-update id asked j next t s.tasks e (find_task-id j s.tasks t e) (k t) h)
          | inr unfit ↦ rw (e, update_task, unfit) h
        ]
  ];
}

pub update_task_status-Asks :
    (env : Runtime) (id : ℕ) (asked : Bool) (j : ℕ) (st : TaskStatus)
    → Keeps (OnTasks (Asks id asked)) (update_task_status env j st)
unfolding update_task_status get_task
update_task_status-Asks env id asked j st = search (task_frame, update_task-Asks) depth 20

-- The reviewer answered with the review PASS.
abbrev pub Passed : Invoker → Type 0
Passed i = i ≡ some (ok (output (some ReviewStatus.pass)))

-- The gate opens only for a review that passed.
abbrev OpensOnPass : Review → Reviewed → Type 0
OpensOnPass review r = r.gate.allowed ≡ true → review.review_status ≡ ReviewStatus.pass

gated-OpensOnPass :
    (t : Task) (v : Verification) (review : Review)
    → t.review_required ≡ true
    → OpensOnPass review (gated t v review)
gated-OpensOnPass t v review asks h =
    let (w, there, standing, passed, reviewed) =
      evaluate_review_gate-allowed t.review_required (some v) (some review) h in
    let p = reviewed asks in ap (λ x. x.review_status) (some-injective p.there) ∙ p.passed

insert_review-Returns : (r : Review) → Returns (λ u. u ≡ r) (insert_review r)
unfolding insert_review
insert_review-Returns r = Returns-bind _ _ λ _.
    Returns-bind _ _
      λ _. Returns-bind _ _ λ _. Returns-bind _ _ λ _. Returns-bind _ _ λ _. Returns-pure r refl

add_review-Returns :
    (id : ℕ) (sha : Text) (st : ReviewStatus) (v : Option ℕ)
    → Returns (λ r. r.review_status ≡ st) (add_review id sha st v)
unfolding add_review
add_review-Returns id sha st v = Returns-bind _ _ λ _. Returns-bind _ _ λ _.
    Returns-bind_known _ _ (insert_review-Returns _)
      λ r same. Returns-bind _ _ λ _. Returns-pure r (ap (λ x. x.review_status) same)

blocked≢pass : ReviewStatus.blocked ≡ ReviewStatus.pass → ⊥
blocked≢pass h = ground arith

module _ (env : Runtime) (id : ℕ) where
  abbrev Asking : Builder → Type 0
  Asking = OnTasks (Asks id true)

  -- An action after which an open gate means that the reviewer passed.
  abbrev Opens : Invoker → Reviewed → Builder → Type 0
  Opens i r s = r.gate.allowed ≡ true → Passed i

  -- A review is added, and the task still asks.
  added :
      (c : ℕ) (sha : Text) (st : ReviewStatus) (v : Option ℕ)
      → Does Asking (λ r s. Asking s × (r.review_status ≡ st)) (add_review c sha st v)
  added c sha st v =
      Does-and _ (Does-Keeps _ (add_review-tasks (Asks id true) c sha st v))
        (Does-Returns _ (add_review-Returns c sha st v))

  row_asks :
      (s : Builder) (t : Task) → Asking s → find_task id s.tasks ≡ some t → t.review_required ≡ true
  row_asks s t (u, at, asks) e = ap (λ x. x.review_required) (some-injective (sym e ∙ at)) ∙ asks

  -- A review that blocks opens no gate.
  block_task-Opens :
      (i : Invoker) (t : Task) (v : Verification) (r : Review)
      → t.task_id ≡ id
      → r.review_status ≡ ReviewStatus.blocked
      → Does Asking (Opens i) (block_task env t v r)
  unfolding block_task get_task
  block_task-Opens i t v r own shut =
      Does-bind _ _
        (Does-Keeps _ (
          Keeps-when _ _
            (Keeps-bind _ _ (update_task_status-Asks env id true _ _) (λ _. Keeps-pure _))))
        λ _. Does-gets _ _ λ o. Does-some o _ _ λ row e. Does-pure _ (λ s q h.
          let at = ap (λ j. find_task j s.tasks) (sym own) ∙ q.1 ∙ e in
          absurd (blocked≢pass (sym shut ∙ gated-OpensOnPass row v r (row_asks s row q.0 at) h)))

  settle_review-Opens :
      (t : Task) (c : Candidate) (sha : Text) (v : Verification) (i : Invoked)
      → t.task_id ≡ id
      → Does Asking (Opens (some (ok i))) (settle_review env t c sha v i)
  unfolding settle_review get_task
  settle_review-Opens t c sha v invoke_failed own = Does-bind _ _ (added _ _ _ _) λ r.
      Does-know _ (λ s q. q.1)
        λ shut.
          Does-bind _ _
            (Does-weaken _ (λ s q. q.0) (Does-Keeps _ (review_event-tasks (Asks id true) t c _ r)))
            λ _. block_task-Opens _ t v r own shut
  settle_review-Opens t c sha v (output none) own = Does-bind _ _ (added _ _ _ _) λ r.
      Does-know _ (λ s q. q.1)
        λ shut. Does-weaken _ (λ s q. q.0) (block_task-Opens _ t v r own shut)
  settle_review-Opens t c sha v (output (some st)) own = Does-bind _ _ (added _ _ _ _) λ r.
      Does-know _ (λ s q. q.1)
        λ given.
          Does-bind _ _
            (Does-weaken _ (λ s q. q.0) (Does-Keeps _ (review_event-tasks (Asks id true) t c _ r)))
            λ _. Does-gets _ _ λ o. Does-some o _ _ λ row e.
              Does-know _
                (λ s q. row_asks s row q.0 (ap (λ j. find_task j s.tasks) (sym own) ∙ q.1 ∙ e))
                λ asks. Does-then _ _ λ _. Does-pure _ (λ s q h.
                  ap (λ x. some (ok (output (some x))))
                    (sym given ∙ gated-OpensOnPass row v r asks h))

  ask_reviewer-Opens :
      (t : Task) (c : Candidate) (sha : Text) (v : Verification) (i : Invoker)
      → t.task_id ≡ id
      → t.review_required ≡ true
      → Does Asking (Opens i) (ask_reviewer env t c sha v i)
  unfolding ask_reviewer
  ask_reviewer-Opens t c sha v none own asks =
      Does-bind _ _ (added _ _ _ _)
        λ r. Does-pure _ (λ s q h. absurd (blocked≢pass (sym q.1 ∙ gated-OpensOnPass t v r asks h)))
  ask_reviewer-Opens t c sha v (some answer) own asks =
      Does-lift _ _
        λ i e. Does-implies _ (λ r s k h. ap some e ∙ k h) (settle_review-Opens t c sha v i own)

  -- The candidate's row is one of the task.
  abbrev Reviewing : ℕ → Text → Builder → Type 0
  Reviewing c sha s = TargetIs c id sha s.candidates × Asking s

  its_task :
      (cid : ℕ) (sha : Text) (s : Builder) (c : Candidate)
      → TargetIs cid id sha s.candidates
      → find_candidate cid s.candidates ≡ some c
      → c.task_id ≡ id
  its_task cid sha s c (d, at, mine, bound) e =
      ap (λ x. x.task_id) (some-injective (sym e ∙ at)) ∙ mine

  review_exact_candidate-Opens :
      (cid : ℕ) (sha : Text) (i : Invoker) (o : Option (Option ℕ))
      → Does (Reviewing cid sha) (Opens i) (review_exact_candidate env cid i o)
  unfolding review_exact_candidate get_candidate get_task get_run
  review_exact_candidate-Opens cid sha i o = Does-gets _ _ λ found. Does-some found _ _ λ c e.
      Does-know _ (λ s q. its_task cid sha s c q.0.0 (q.1 ∙ e))
        λ mine. Does-gets _ _ λ owner. Does-some owner _ _ λ t e'.
          Does-know _
            (λ s q.
              let at = q.1 ∙ e' in
              (
                find_task-id c.task_id s.tasks t at ∙ mine,
                row_asks s t q.0.0.1 (ap (λ j. find_task j s.tasks) (sym mine) ∙ at),
              ))
            λ (own, asks).
              Does-weaken _ (λ s q. q.0.0.1)
                (Does-gets _ _ λ row. Does-some row _ _ λ run _.
                  Does-weaken _ (λ s q. q.0)
                    (Does-bind _ _ (Does-Keeps _ (search task_frame depth 20)) λ _.
                      Does-bind _ _ (Does-Keeps _ (search candidate_rules depth 20)) λ sha'.
                        Does-require _ _ _ λ _.
                          Does-bind _ _ (Does-Keeps _ (stored_verification-tasks (Asks id true) c))
                            λ stored. Does-some stored _ _ λ ver _. Does-gets _ _ λ auth.
                              Does-require _ _ _ λ _. Does-require _ _ _ λ _.
                                Does-weaken _ (λ s q. q.0)
                                  (Does-if (not t.review_required) _ _
                                    (λ free. absurd (asked-free t.review_required asks free))
                                    (λ _. ask_reviewer-Opens t c sha' ver i own asks))))
    where
      asked-free : (b : Bool) → b ≡ true → not b ≡ true → ⊥
      asked-free b h k = ground arith

  pub maybe_review-Opens :
      (provider : Option Text) (t : Task) (v : Verified) (i : Invoker) (sha : Text)
      → t.review_required ≡ true
      → Does (Reviewing v.candidate.candidate_id sha) (Opens i) (maybe_review env provider id t v i)
  unfolding maybe_review
  maybe_review-Opens provider t v i sha asks =
      Does-if (not t.review_required) _ _ (λ free. absurd (asked-free t.review_required asks free))
        (λ _. Does-require _ _ _ λ _. review_exact_candidate-Opens v.candidate.candidate_id sha i _)
    where
      asked-free : (b : Bool) → b ≡ true → not b ≡ true → ⊥
      asked-free b h k = ground arith

-- A review keeps whether the task's row asks for one.
pub maybe_review-Asks :
    (env : Runtime) (id : ℕ) (asked : Bool) (provider : Option Text) (t : Task) (v : Verified)
    (i : Invoker)
    → Keeps (OnTasks (Asks id asked)) (maybe_review env provider id t v i)
unfolding maybe_review
maybe_review-Asks env id asked provider t v i =
    search (task_frame, review_exact_candidate-status, work-Asks) depth 20
  where
    work-Asks :
        (j : ℕ) (st : TaskStatus)
        → WorkStatus st
        → Keeps (OnTasks (Asks id asked)) (update_task_status env j st)
    work-Asks j st w = update_task_status-Asks env id asked j st
