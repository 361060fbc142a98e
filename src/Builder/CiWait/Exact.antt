-- ===== src/Builder/CiWait/Exact.antt =====
-- What a wait for CI that succeeds has seen (src/builder/ci-wait.js).
use jarvis_agencyos.Base.{
  ℕ, zero, suc, ◌+◌, ◌≡◌, ◌≢◌, refl, sym, subst, ap, ◌∙◌, Bool, true, false, not, Option, none,
  some, List, Text, arith, text_eq, text_eq_sound, any, ltb,
}
use jarvis_agencyos.Exec.{ok}
use jarvis_agencyos.Exec.Returns.{
  Returns, Returns-pure, Returns-bind, Returns-bind_known, Returns-cases, Returns-bind_lift,
  Returns-bind_some, Returns-bind_require, Returns-if_some_known,
}
use jarvis_agencyos.Exec.Does.{
  Does, Does-Returns, Does-implies, Does-some, Does-require, Does-gets, Does-bind, Does-any,
  Does-know,
}
use jarvis_agencyos.Builder.State.{Candidate, Builder, Action}
use jarvis_agencyos.Builder.Store.{get_candidate, find_candidate}
use jarvis_agencyos.Builder.Authority.{same_text}
use jarvis_agencyos.Builder.Checks.{CiSummary, PullRequest}
use jarvis_agencyos.Builder.Landing.{CheckRun, Host, combined_state}
use jarvis_agencyos.Builder.Verifier.Passed.{assert_commit_sha-Returns}
use jarvis_agencyos.Builder.CiWait.Verdicts.{ci_passes, classify-summarize_ci}
use jarvis_agencyos.Builder.CiWait.{
  Waiting, WaitOutcome, succeeded, timeout, head_changed, pr_mismatch, WaitResult, Polled, finished,
  again, tagged_elsewhere, finish_wait, poll_ci, poll_pull_request, poll_once, expire, after_poll,
  wait_loop, wait_for_exact_candidate_ci,
}

-- The host knows the commit as the head of a pull request, and its CI passes.
abbrev pub Landed : Host → Text → Type 0
Landed h sha =
    (pr : PullRequest) × (number : ℕ) × (runs : List CheckRun) × (h.get_commit sha ≡ ok sha)
    × (h.get_pull_request number ≡ ok pr)
    × (pr.head_sha ≡ sha)
    × (h.get_check_runs_for_commit sha ≡ ok runs)
    × (any (tagged_elsewhere sha) runs ≡ false)
    × (ci_passes runs (combined_state (h.get_combined_status_for_commit sha)) ≡ true)

abbrev Seen : (ℕ → Host) → Text → WaitResult → Type 0
Seen host sha r = r.outcome ≡ succeeded → Landed (host r.polls) sha

abbrev PolledSeen : (ℕ → Host) → Text → Polled → Type 0
PolledSeen host sha (finished r) = Seen host sha r
PolledSeen host sha (again c summary) = Unit

timeout≢succeeded : timeout ≢ succeeded
timeout≢succeeded h = ground arith

head_changed≢succeeded : head_changed ≢ succeeded
head_changed≢succeeded h = ground arith

pr_mismatch≢succeeded : pr_mismatch ≢ succeeded
pr_mismatch≢succeeded h = ground arith

finish_wait-outcome :
    (id : ℕ) (c : Candidate) (sha : Text) (o : WaitOutcome) (n : ℕ) (summary : CiSummary)
    → Returns (λ r. (r.outcome ≡ o) × (r.polls ≡ n)) (finish_wait id c sha o n summary)
unfolding finish_wait
finish_wait-outcome id c sha o n summary = Returns-bind _ _ λ time.
    Returns-bind _ _ λ _. Returns-bind _ _ λ _. Returns-bind _ _ λ row. Returns-pure _ (refl, refl)

module _ (id : ℕ) (host : ℕ → Host) (sha : Text) where
  poll_ci-seen :
      (c : Candidate) (n : ℕ) (pr : PullRequest) (number : ℕ)
      → (host n).get_commit sha ≡ ok sha
      → (host n).get_pull_request number ≡ ok pr
      → pr.head_sha ≡ sha
      → Returns (PolledSeen host sha) (poll_ci id (host n) c sha n pr)
  unfolding poll_ci
  poll_ci-seen c n pr number commit request head = Returns-bind_lift _ _ λ runs listed.
      Returns-bind_require _ _ _ λ own. Returns-bind _ _ λ _. Returns-bind _ _ λ _.
        Returns-if_some_known _ _ _
          (λ o terminal. Returns-bind_known _ _ (finish_wait-outcome id c sha o n _) λ r e.
            Returns-pure _ λ good.
              subst (λ k. Landed (host k) sha) (sym e.1)
                (
                  pr,
                  number,
                  runs,
                  commit,
                  request,
                  head,
                  listed,
                  ground (arith, own),
                  (classify-summarize_ci runs _ _).0 (terminal ∙ ap some (sym e.0 ∙ good)),
                ))
          (λ _. Returns-pure _ tt)

  poll_pull_request-seen :
      (c : Candidate) (n : ℕ)
      → Returns (PolledSeen host sha) (poll_pull_request id (host n) c sha n)
  unfolding poll_pull_request
  poll_pull_request-seen c n = Returns-bind_lift _ _ λ commit known.
      Returns-bind_require _ _ _ λ exact. Returns-bind_some _ _ _ λ number _.
        Returns-bind_lift _ _ λ pr request.
          Returns-cases (not (same_text (some pr.head_ref) c.branch)) _ _
            (λ _. Returns-bind _ _ λ _.
              Returns-bind _ _ λ _. Returns-pure _ (λ good. absurd (pr_mismatch≢succeeded good)))
            λ _.
              Returns-cases (not (text_eq pr.head_sha sha)) _ _
                (λ _. Returns-bind _ _ λ _.
                  Returns-bind _ _
                    λ _. Returns-pure _ (λ good. absurd (head_changed≢succeeded good)))
                λ head.
                  poll_ci-seen c n pr number (known ∙ ap ok (text_eq_sound commit sha exact))
                    request (text_eq_sound pr.head_sha sha (ground (arith, head)))

  poll_once-seen : (n : ℕ) → Returns (PolledSeen host sha) (poll_once id (host n) sha n)
  unfolding poll_once
  poll_once-seen n = Returns-bind _ _ λ found. Returns-bind _ _ λ c. Returns-bind _ _ λ own.
      Returns-cases (not (text_eq own sha)) _ _
        (λ _. Returns-bind _ _ λ _. Returns-pure _ (λ good. absurd (head_changed≢succeeded good)))
        λ same.
          subst (λ t. Returns (PolledSeen host sha) (poll_pull_request id (host n) c t n))
            (sym (text_eq_sound own sha (ground (arith, same)))) (poll_pull_request-seen c n)

  abbrev EndSeen : Option WaitResult → Type 0
  EndSeen none = Unit
  EndSeen (some r) = Seen host sha r

  expire-seen :
      (c : Candidate) (n : ℕ) (summary : CiSummary) → Returns EndSeen (expire id c sha n summary)
  unfolding expire
  expire-seen c n summary =
      Returns-bind_known _ _ (finish_wait-outcome id c sha timeout n summary)
        λ r e. Returns-pure _ (λ good. absurd (timeout≢succeeded (sym e.0 ∙ good)))

  after_poll-seen :
      (n : ℕ) (late : Bool) (rest : Candidate → CiSummary → Action (Option WaitResult))
      → ((c : Candidate) (summary : CiSummary) → Returns EndSeen (rest c summary))
      → (p : Polled) → PolledSeen host sha p
      → Returns EndSeen (after_poll id sha n late rest p)
  after_poll-seen n late rest k (finished r) e = Returns-pure _ e
  after_poll-seen n true rest k (again c summary) e = expire-seen c n summary
  after_poll-seen n false rest k (again c summary) e = k c summary

module _ (id : ℕ) (w : Waiting) (sha : Text) where
  wait_loop-seen :
      (fuel n : ℕ) (c : Candidate) (last : Option CiSummary)
      → Returns (EndSeen id w.host sha) (wait_loop fuel w id sha n c last)
  unfolding wait_loop
  wait_loop-seen zero n c last = Returns-pure _ tt
  wait_loop-seen (suc fuel) n c last =
      Returns-cases (not (ltb (w.tested n) (w.started + w.timeout_ms))) _ _
        (λ _. expire-seen id w.host sha c n _)
        λ _. Returns-bind_known _ _ (poll_once-seen id w.host sha (suc n)) (
          after_poll-seen id w.host sha (suc n) _ _
            λ d summary. wait_loop-seen fuel (suc n) d (some summary))

same_row : {c d : Candidate} {o : Option Candidate} → o ≡ some c → o ≡ some d → c ≡ d
same_row h k = cc

same_waiting : {v w : Waiting} → ◌≡◌ {A = Option Waiting} (some w) (some v) → w ≡ v
same_waiting h = cc

module _ (w : Waiting) (id fuel : ℕ) (s : Builder) (c : Candidate)
    (found : find_candidate id s.candidates ≡ some c) where
  abbrev Ended : Option WaitResult → Builder → Type 0
  Ended none t = Unit
  Ended (some r) t =
      r.outcome ≡ succeeded → (sha : Text) × (c.commit_sha ≡ some sha) × Landed (w.host r.polls) sha

  for_sha :
      (sha : Text)
      → c.commit_sha ≡ some sha
      → (o : Option WaitResult) (t : Builder) → EndSeen id w.host sha o
      → Ended o t
  for_sha sha own none t e = tt
  for_sha sha own (some r) t e = λ good. (sha, own, e good)

  wait-Ended : Does (λ t. t ≡ s) Ended (wait_for_exact_candidate_ci fuel (some w) id)
  unfolding wait_for_exact_candidate_ci get_candidate
  wait-Ended = Does-some _ _ _ λ v given. Does-require _ _ _ λ _. Does-require _ _ _ λ _.
      Does-gets _ _ λ row. Does-some _ _ _ λ d read.
        Does-know _
          (λ t q. same_row (ap (λ u. find_candidate id u.candidates) (sym q.0) ∙ q.1 ∙ read) found)
          λ same. Does-bind _ _ (Does-Returns _ (assert_commit_sha-Returns d.commit_sha)) λ sha.
            Does-know _ (λ t own. own)
              λ own. Does-require _ _ _ λ _. Does-require _ _ _ λ _. Does-bind _ _ (Does-any _) λ _.
                Does-implies _ (for_sha sha (ap (λ x. x.commit_sha) (sym same) ∙ own)) (
                  Does-Returns _ (
                    subst (λ x. Returns (EndSeen id w.host sha) (wait_loop fuel x id sha 0 d none))
                      (same_waiting given) (wait_loop-seen id w sha fuel 0 d none)))

-- A wait for CI ends in SUCCESS only when, at its last poll, the host knows the candidate's own
-- commit as the head of a pull request, and the check runs of that same commit pass: all complete
-- with the conclusion success, neutral or skipped, or none at all and a combined status of success.
pub wait_for_exact_candidate_ci-succeeded :
    (w : Waiting) (id fuel : ℕ) (s : Builder) (c : Candidate) (r : WaitResult)
    → find_candidate id s.candidates ≡ some c
    → (wait_for_exact_candidate_ci fuel (some w) id s).0 ≡ ok (some r)
    → r.outcome ≡ succeeded
    → (sha : Text) × (c.commit_sha ≡ some sha) × Landed (w.host r.polls) sha
wait_for_exact_candidate_ci-succeeded w id fuel s c r found h good =
    (wait-Ended w id fuel s c found).at s refl (some r) h good
