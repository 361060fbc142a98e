-- ===== src/Builder/Orchestrator/Verdicts.antt =====
-- The verdict on a worker's landing, with what it stands on (registerAndVerify,
-- src/builder/orchestrator.js).
use jarvis_agencyos.Base.{
  ℕ, zero, suc, false, ◌≡◌, refl, sym, ap, subst, ◌∙◌, Option, some, Text, trim,
}
use jarvis_agencyos.Exec.{ok}
use jarvis_agencyos.Exec.Keeps.{Keeps}
use jarvis_agencyos.Exec.Does.{
  Does, Does-weaken, Does-pure, Does-know, Does-raise, Does-if, Does-Keeps, Does-bind, Does-then,
  Does-gets, Does-lift, Does-some, Does-require, Does-if_some,
}
use jarvis_agencyos.Builder.Contracts.{Runtime, VerificationResult}
use jarvis_agencyos.Builder.State.{Task, Run, Candidate, Builder, Action}
use jarvis_agencyos.Builder.Store.{
  find_candidate, get_candidate, get_task, get_run, list_candidates_for_task,
}
use jarvis_agencyos.Builder.Candidates.{CandidateInput, new_candidate, register_exact_candidate}
use jarvis_agencyos.Builder.CiWait.{WaitResult}
use jarvis_agencyos.Builder.Recovery.Rows.{verification_of-reads}
use jarvis_agencyos.Builder.Verifier.{Surroundings, verify_exact_candidate}
use jarvis_agencyos.Builder.Verifier.Passed.{Grounds, Basis, verify_exact_candidate-pass}
use jarvis_agencyos.Builder.Landed.{
  WorkerLanding, Surround, Verified, client_of, after_wait, is_head_changed, is_pr_mismatch,
  bind_candidate, verify_candidate, register_and_verify,
}
use jarvis_agencyos.Builder.Frame.Candidates.{OnCandidates, append_event-candidates}
use jarvis_agencyos.Builder.Frame.CandidateRows.{
  wait_for_ci-candidates, refresh_candidate_landing-candidates, verify_exact_candidate-candidates,
}
use jarvis_agencyos.Builder.Frame.CandidateTargets.{
  TargetIs, find_candidate-id, insert_candidate-row, update_candidate-TargetIs,
}
use jarvis_agencyos.Builder.Orchestrator.Status.{some-injective, Nothing}

-- What the verifier is given in a cycle: the cycle's host and reports, and no claim of success.
abbrev pub watched : Surround → Surroundings
watched w = record { client = client_of w.host; tests = w.tests; build = w.build; claimed = false }

-- The candidate, of this task and for this commit, as the verifier read it, with its grounds.
abbrev pub Behind : ℕ → ℕ → Text → Surround → Type 0
Behind id task_id sha w =
    (c : Candidate) × (c.candidate_id ≡ id)
    × (c.task_id ≡ task_id)
    × (c.commit_sha ≡ some sha)
    × Grounds c sha (watched w)

-- A verdict on a candidate of the task; PASS has its grounds.
abbrev pub Judged : ℕ → Surround → Verified → Builder → Type 0
Judged task_id w v s =
    (sha : Text) × (v.candidate.commit_sha ≡ some sha)
    × TargetIs v.candidate.candidate_id task_id sha s.candidates
    × (v.result ≡ VerificationResult.pass → Behind v.candidate.candidate_id task_id sha w)

module _ (env : Runtime) (id task_id : ℕ) (sha : Text) (w : Surround) where
  abbrev Target : Builder → Type 0
  Target = OnCandidates (TargetIs id task_id sha)

  abbrev Decided : VerificationResult → Builder → Type 0
  Decided r s = (r ≡ VerificationResult.pass → Behind id task_id sha w) × Target s

  behind : (s : Builder) → Target s → Basis s id (watched w) → Behind id task_id sha w
  behind s (c, at, mine, bound) b =
      let row : b.candidate ≡ c = some-injective (sym b.read ∙ at) in
      let same : b.sha ≡ sha = some-injective (sym b.own ∙ ap (λ x. x.commit_sha) row ∙ bound) in
      (
        b.candidate,
        find_candidate-id id s.candidates b.candidate b.read,
        ap (λ x. x.task_id) row ∙ mine,
        b.own ∙ ap some same,
        subst (λ t. Grounds b.candidate t (watched w)) same b.grounds,
      )

  verify-Decided : Does Target Decided (verify_exact_candidate env id (watched w))
  verify-Decided = record {
    at = λ s q r h. (
      (λ p. behind s q (verify_exact_candidate-pass env id (watched w) s (h ∙ ap ok p))),
      (verify_exact_candidate-candidates _ (update_candidate-TargetIs id task_id sha) env id
            (watched w)).at
          s q,
    );
  }

  verify_candidate-Judged : Does Target (Judged task_id w) (verify_candidate env id w)
  unfolding verify_candidate get_candidate
  verify_candidate-Judged = Does-bind _ _ verify-Decided λ r. Does-gets _ _ λ o.
      Does-some o _ _ λ c e.
        Does-know _ (λ s q. let (own, bound) = at_row s c q.0.1 (q.1 ∙ e) in (q.0.0, own, bound))
          λ known.
            let (passed, own, bound) = known in
            Does-bind _ _
              (Does-weaken _ (λ s q. q.0.1) (Does-Keeps _ (verification_of-reads Target _)))
              λ v. Does-pure _ (λ s q. (
                sha,
                bound,
                subst (λ i. TargetIs i task_id sha s.candidates) (sym own) q,
                λ p. subst (λ i. Behind i task_id sha w) (sym own) (passed p),
              ))
    where
      at_row :
          (s : Builder) (c : Candidate)
          → Target s
          → find_candidate id s.candidates ≡ some c
          → (c.candidate_id ≡ id) × (c.commit_sha ≡ some sha)
      at_row s c (d, at, mine, bound) e = (
        find_candidate-id id s.candidates c e,
        ap (λ x. x.commit_sha) (some-injective (sym e ∙ at)) ∙ bound,
      )

-- The row of a candidate is for this task and some commit.
abbrev OfTask : ℕ → ℕ → Builder → Type 0
OfTask id task_id s = (sha : Text) × TargetIs id task_id sha s.candidates

-- What is done for each commit is done for some commit.
some_commit :
    {A : Type 0} {R : A → Builder → Type 0} (id task_id : ℕ) (m : Action A)
    → ((sha : Text) → Does (OnCandidates (TargetIs id task_id sha)) R m)
    → Does (OfTask id task_id) R m
some_commit id task_id m k = record { at = λ s q. (k q.0).at s q.1 }

register-OfTask :
    (env : Runtime) (input : CandidateInput)
    → Does Nothing (λ c. OfTask c.candidate_id input.task_id) (register_exact_candidate env input)
unfolding register_exact_candidate get_task get_run list_candidates_for_task
register-OfTask env input = Does-gets _ _ λ found. Does-some _ _ _ λ task _. Does-lift _ _ λ _ _.
    Does-gets _ _ λ row. Does-some _ _ _ λ run _. Does-then _ _ λ _. Does-some _ _ _ λ branch _.
      Does-require _ _ _ λ _. Does-then _ _ λ sha. Does-gets _ _ λ prior. Does-then _ _ λ _.
        Does-then _ _ λ id. Does-gets _ _ λ time.
          let fresh = new_candidate input id run (trim branch) sha time in
          Does-bind _ _ (insert_candidate-row fresh) λ c.
            Does-bind _ _
              (Does-weaken _ (λ s q. (fresh, found_by s c fresh q.0 q.1, refl, refl))
                (Does-Keeps _
                  (append_event-candidates (TargetIs c.candidate_id input.task_id sha) _ _ _ _)))
              λ _. Does-pure c (λ s q. (sha, q))
  where
    found_by :
        (s : Builder) (c fresh : Candidate)
        → c ≡ fresh
        → find_candidate fresh.candidate_id s.candidates ≡ some fresh
        → find_candidate c.candidate_id s.candidates ≡ some fresh
    found_by s c fresh e at = ap (λ x. find_candidate x.candidate_id s.candidates) e ∙ at

module _ (env : Runtime) (w : Surround) where
  abbrev Bound : ℕ → Candidate × Option WaitResult → Builder → Type 0
  Bound task_id b = OfTask b.0.candidate_id task_id

  after_wait-Bound :
      (task_id left : ℕ) (c : Candidate) (wait : WaitResult)
      (rest : WorkerLanding → Action (Candidate × Option WaitResult))
      → ((l : WorkerLanding) → Does Nothing (Bound task_id) (rest l))
      → Does (OfTask c.candidate_id task_id) (Bound task_id) (after_wait left c wait rest)
  unfolding after_wait
  after_wait-Bound task_id left c wait rest k =
      Does-if (is_head_changed wait.outcome) _ _
        (λ _.
          Does-if_some wait.new_head_sha _ _ (λ head _. Does-then _ _ λ sha. k _)
            (λ _. Does-raise _))
        λ _.
          Does-if (is_pr_mismatch wait.outcome) _ _ (λ _. Does-raise _)
            (λ _. Does-pure _ (λ s q. q))

  bind_candidate-Bound :
      (left : ℕ) (task : Task) (run : Run) (l : WorkerLanding)
      → Does Nothing (Bound task.task_id) (bind_candidate env left task run w l)
  unfolding bind_candidate
  bind_candidate-Bound zero task run l = Does-raise _
  bind_candidate-Bound (suc left) task run l = Does-then _ _ λ sha. Does-then _ _ λ time.
      Does-bind _ _ (register-OfTask env _) λ c.
        Does-if_some w.host _ _
          (λ host _.
            Does-bind _ _
              (kept task.task_id c.candidate_id _ λ sha.
                refresh_candidate_landing-candidates _
                  (update_candidate-TargetIs c.candidate_id task.task_id sha) _ _)
              λ _.
                Does-bind _ _
                  (kept task.task_id c.candidate_id _ λ sha.
                    wait_for_ci-candidates _
                      (update_candidate-TargetIs c.candidate_id task.task_id sha) _ _)
                  λ wait.
                    after_wait-Bound task.task_id left c wait _
                      (λ m. bind_candidate-Bound left task run m))
          (λ _. Does-pure _ (λ s q. q))
    where
      kept :
          {A : Type 0} (task_id id : ℕ) (m : Action A)
          → ((sha : Text) → Keeps (OnCandidates (TargetIs id task_id sha)) m)
          → Does (OfTask id task_id) (λ _. OfTask id task_id) m
      kept task_id id m k = Does-Keeps m (record { at = λ s q. (q.0, (k q.0).at s q.1) })

  pub register_and_verify-Judged :
      (task : Task) (run : Run) (l : WorkerLanding)
      → Does Nothing (Judged task.task_id w) (register_and_verify env task run w l)
  unfolding register_and_verify
  register_and_verify-Judged task run l = Does-require _ _ _ λ _. Does-then _ _ λ resolved.
      Does-require _ _ _ λ _. Does-bind _ _ (bind_candidate-Bound 3 task run resolved) λ b.
        some_commit b.0.candidate_id task.task_id _
          (λ sha. verify_candidate-Judged env b.0.candidate_id task.task_id sha w)
