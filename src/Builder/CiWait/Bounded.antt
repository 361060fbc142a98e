-- ===== src/Builder/CiWait/Bounded.antt =====
-- How long a wait for CI goes on (src/builder/ci-wait.js).
use jarvis_agencyos.Base.{
  ℕ, zero, suc, ◌+◌, ◌*◌, ◌≤◌, ◌<◌, ◌≡◌, ◌⊎◌, inl, inr, refl, true, false, not, Option, none, some,
  Text, text_eq, arith, ltb, leb, Bool-cases,
}
use jarvis_agencyos.Exec.{ok}
use jarvis_agencyos.Exec.Returns.{
  Returns, Returns-pure, Returns-bind, Returns-if, Returns-if_some, Returns-bind_known,
  Returns-bind_some, Returns-bind_require, Returns-bind_given,
}
use jarvis_agencyos.Builder.State.{Candidate, Builder, Action}
use jarvis_agencyos.Builder.Authority.{same_text}
use jarvis_agencyos.Builder.Checks.{CiSummary, PullRequest}
use jarvis_agencyos.Builder.Landing.{Host}
use jarvis_agencyos.Builder.CiWait.{
  Waiting, WaitOutcome, timeout, WaitResult, Polled, finish_wait, poll_ci, poll_pull_request,
  finished, again, poll_once, expire, after_poll, wait_loop, wait_for_exact_candidate_ci,
}

-- What the clock and the timers of the runtime give: readings do not go back, and a sleep of
-- `Math.min(poll_ms, remaining)` takes at least that long.
pub record Sleeps (w : Waiting) : Type 0 where
  pub first : w.started ≤ w.tested 0
  pub poll : (n : ℕ) → w.tested n ≤ w.polled (suc n)
  pub sleep :
      (n : ℕ)
      → (w.started + w.timeout_ms ≤ w.tested (suc n))
        ⊎ (w.polled (suc n) + w.poll_ms ≤ w.tested (suc n))

abbrev Reports : ℕ → WaitResult → Type 0
Reports n r = r.polls ≡ n

abbrev PolledReports : ℕ → Polled → Type 0
PolledReports n (finished r) = Reports n r
PolledReports n (again c summary) = Unit

finish_wait-Reports :
    (id : ℕ) (c : Candidate) (sha : Text) (o : WaitOutcome) (n : ℕ) (summary : CiSummary)
    → Returns (Reports n) (finish_wait id c sha o n summary)
unfolding finish_wait
finish_wait-Reports id c sha o n summary =
    Returns-bind _ _ λ time.
      Returns-bind _ _ λ _. Returns-bind _ _ λ _. Returns-bind _ _ λ row. Returns-pure _ refl

poll_ci-reports :
    (id : ℕ) (h : Host) (c : Candidate) (sha : Text) (n : ℕ) (pr : PullRequest)
    → Returns (PolledReports n) (poll_ci id h c sha n pr)
unfolding poll_ci
poll_ci-reports id h c sha n pr = Returns-bind _ _ λ runs. Returns-bind _ _ λ _.
    Returns-bind _ _ λ _. Returns-bind _ _ λ _.
      Returns-if_some _ _ _
        (λ o. Returns-bind_known _ _ (finish_wait-Reports id c sha o n _) λ r e. Returns-pure _ e)
        (Returns-pure _ tt)

poll_pull_request-reports :
    (id : ℕ) (h : Host) (c : Candidate) (sha : Text) (n : ℕ)
    → Returns (PolledReports n) (poll_pull_request id h c sha n)
unfolding poll_pull_request
poll_pull_request-reports id h c sha n = Returns-bind _ _ λ commit. Returns-bind _ _ λ _.
    Returns-bind _ _ λ number. Returns-bind _ _ λ pr.
      Returns-if (not (same_text (some pr.head_ref) c.branch)) _ _
        (Returns-bind _ _ λ _. Returns-bind _ _ λ _. Returns-pure _ refl)
        (Returns-if (not (text_eq pr.head_sha sha)) _ _
          (Returns-bind _ _ λ _. Returns-bind _ _ λ _. Returns-pure _ refl)
          (poll_ci-reports id h c sha n pr))

poll_once-reports :
    (id : ℕ) (h : Host) (bound : Text) (n : ℕ) → Returns (PolledReports n) (poll_once id h bound n)
unfolding poll_once
poll_once-reports id h bound n = Returns-bind _ _ λ found. Returns-bind _ _ λ c.
    Returns-bind _ _ λ sha.
      Returns-if (not (text_eq sha bound)) _ _ (Returns-bind _ _ λ _. Returns-pure _ refl)
        (poll_pull_request-reports id h c sha n)

-- There is a result, and every poll but the last was followed by a sleep.
abbrev Bounded : Waiting → Option WaitResult → Type 0
Bounded w none = ⊥
Bounded w (some r) = r.polls * w.poll_ms < w.timeout_ms + w.poll_ms

-- Before the test after `n` polls, with so much fuel: the deadline is reached, or the sleeps were
-- taken and the fuel covers the time that is left.
abbrev Ready : Waiting → ℕ → ℕ → Type 0
Ready w fuel n =
    (w.started + w.timeout_ms ≤ w.tested n)
    ⊎ ((w.started + n * w.poll_ms ≤ w.tested n) × (w.started + w.timeout_ms < w.tested n + fuel))

module _ (w : Waiting) (z : Sleeps w) (id : ℕ) (bound : Text) where
  expire-Bounded :
      (n : ℕ) (c : Candidate) (summary : CiSummary)
      → n * w.poll_ms < w.timeout_ms + w.poll_ms
      → Returns (Bounded w) (expire id c bound n summary)
  unfolding expire
  expire-Bounded n c summary h =
      Returns-bind_known _ _ (finish_wait-Reports id c bound timeout n summary)
        λ r e. Returns-pure _ (rw e h)

  after_poll-Bounded :
      (n : ℕ) (rest : Candidate → CiSummary → Action (Option WaitResult))
      → suc n * w.poll_ms < w.timeout_ms + w.poll_ms
      → ((c : Candidate) (summary : CiSummary)
          → leb (w.started + w.timeout_ms) (w.polled (suc n)) ≡ false
          → Returns (Bounded w) (rest c summary))
      → (p : Polled) → PolledReports (suc n) p
      → Returns
          (Bounded w)
          (after_poll id bound (suc n) (leb (w.started + w.timeout_ms) (w.polled (suc n))) rest p)
  after_poll-Bounded n rest h k (finished r) e = Returns-pure _ (rw e h)
  after_poll-Bounded n rest h k (again c summary) e =
      elim (Bool-cases (leb (w.started + w.timeout_ms) (w.polled (suc n)))) [
        | inl late ↦ rw late (expire-Bounded (suc n) c summary h)
        | inr early ↦ rw early (k c summary early)
      ]

  -- A poll that was begun was begun in time.
  polled_in_time :
      (fuel n : ℕ)
      → Ready w fuel n
      → ltb (w.tested n) (w.started + w.timeout_ms) ≡ true
      → suc n * w.poll_ms < w.timeout_ms + w.poll_ms
  polled_in_time fuel n (inl late) early = ground arith
  polled_in_time fuel n (inr ready) early =
      let before : w.tested n < w.started + w.timeout_ms = ground arith in
      omega (arith, ready, before)

  next :
      (fuel n : ℕ)
      → 1 ≤ w.poll_ms
      → Ready w (suc fuel) n
      → ltb (w.tested n) (w.started + w.timeout_ms) ≡ true
      → Ready w fuel (suc n)
  next fuel n one (inl late) early = ground arith
  next fuel n one (inr ready) early = elim (z.sleep n) [
    | inl late ↦ inl late
    | inr slept ↦
        let poll = z.poll n in
        inr (omega (arith, ready, slept, poll), omega (arith, ready, slept, poll, one))
  ]

  no_fuel : (n : ℕ) → Ready w 0 n → ltb (w.tested n) (w.started + w.timeout_ms) ≡ true → ⊥
  no_fuel n (inl late) early = ground arith
  no_fuel n (inr ready) early =
      let before : w.tested n < w.started + w.timeout_ms = ground arith in
      omega (arith, ready, before)

  -- A round of the loop, when what follows a poll that was begun in time is bounded.
  round-Bounded :
      (fuel n : ℕ) (c : Candidate) (last : Option CiSummary)
      → n * w.poll_ms < w.timeout_ms + w.poll_ms
      → Ready w fuel n
      → ((d : Candidate) (summary : CiSummary)
          → ltb (w.tested n) (w.started + w.timeout_ms) ≡ true
          → suc n * w.poll_ms < w.timeout_ms + w.poll_ms
          → Returns (Bounded w) (wait_loop fuel w id bound (suc n) d (some summary)))
      → Returns (Bounded w) (wait_loop (suc fuel) w id bound n c last)
  unfolding wait_loop
  round-Bounded fuel n c last h ready k =
      elim (Bool-cases (ltb (w.tested n) (w.started + w.timeout_ms))) [
        | inr late ↦ rw late (expire-Bounded n c _ h)
        | inl early ↦
            let in_time = polled_in_time fuel n ready early in
            rw early (
              Returns-bind_known _ _ (poll_once-reports id (w.host (suc n)) bound (suc n))
                (after_poll-Bounded n _ in_time λ d summary on_time. k d summary early in_time))
      ]

  wait_loop-Bounded :
      (fuel n : ℕ) (c : Candidate) (last : Option CiSummary)
      → 1 ≤ w.poll_ms
      → n * w.poll_ms < w.timeout_ms + w.poll_ms
      → Ready w fuel n
      → Returns (Bounded w) (wait_loop (suc fuel) w id bound n c last)
  wait_loop-Bounded zero n c last one h ready =
      round-Bounded 0 n c last h ready (λ d summary early t. absurd (no_fuel n ready early))
  wait_loop-Bounded (suc fuel) n c last one h ready =
      round-Bounded (suc fuel) n c last h ready (λ d summary early t.
        wait_loop-Bounded fuel (suc n) d (some summary) one t (next fuel n one ready early))

one_poll : (w : Waiting) → leb 1 w.poll_ms ≡ true → 1 ≤ w.poll_ms
one_poll w h = ground arith

no_polls : (w : Waiting) → 1 ≤ w.poll_ms → 0 * w.poll_ms < w.timeout_ms + w.poll_ms
no_polls w h = omega (arith, h)

module _ (w : Waiting) (z : Sleeps w) (id : ℕ) (fuel : ℕ) (covered : w.timeout_ms < fuel) where
  enough : Ready w fuel 0
  enough = inr (omega (arith, z.first), omega (arith, z.first, covered))

  wait-Bounded : Returns (Bounded w) (wait_for_exact_candidate_ci (suc fuel) (some w) id)
  unfolding wait_for_exact_candidate_ci
  wait-Bounded = Returns-bind_given _ _ _ (
      Returns-bind_require _ _ _ λ one. Returns-bind_require _ _ _ λ _. Returns-bind _ _ λ found.
        Returns-bind_some _ _ _ λ c _. Returns-bind _ _ λ bound. Returns-bind _ _ λ _.
          Returns-bind _ _ λ _. Returns-bind _ _ λ _.
            wait_loop-Bounded w z id bound fuel 0 c none (one_poll w one)
              (no_polls w (one_poll w one)) enough)

a_result :
    (w : Waiting) (o : Option WaitResult)
    → Bounded w o
    → (r : WaitResult) × (o ≡ some r) × (r.polls * w.poll_ms < w.timeout_ms + w.poll_ms)
a_result w none b = absurd b
a_result w (some r) b = (r, refl, b)

-- The wait comes to an end, when readings of the clock do not go back and each sleep takes the time
-- it is asked for: with one step of fuel per millisecond of its bound, and two more, a wait that
-- does not throw has a result. It then made less than timeout_ms / poll_ms + 1 polls.
pub wait_for_exact_candidate_ci-ends :
    (w : Waiting)
    → Sleeps w
    → (id fuel : ℕ) (s : Builder) (o : Option WaitResult) → w.timeout_ms < fuel
    → (wait_for_exact_candidate_ci (suc fuel) (some w) id s).0 ≡ ok o
    → (r : WaitResult) × (o ≡ some r) × (r.polls * w.poll_ms < w.timeout_ms + w.poll_ms)
wait_for_exact_candidate_ci-ends w z id fuel s o covered h =
    a_result w o ((wait-Bounded w z id fuel covered).at s o h)
