-- ===== src/Builder/Candidates/Superseded.antt =====
-- The loop of registerExactCandidate over the prior candidates (src/builder/candidate-registry.js).
use jarvis_agencyos.Base.{
  ℕ, ◌≡◌, ◌≢◌, refl, text_eq, text_eq_sound, ==_iff, sym, ap, Bool, true, false, ◌&&◌, not, inl,
  inr, some, List, [], ◌∷◌, Text, ◌==◌, arith, if◌then◌else◌, any, select, update, text_eq_refl,
  trim, All, All-append, All-map, Option-cases, Bool-cases,
}
use jarvis_agencyos.Exec.{ok}
use jarvis_agencyos.Exec.Does.{
  Does, Does-pure, Does-any, Does-when, Does-for_each, Does-weaken, Does-Keeps, Does-bind,
  Does-gets, Does-lift, Does-some, Does-require, Does-modify,
}
use jarvis_agencyos.Builder.Contracts.{Runtime, CandidateStatus}
use jarvis_agencyos.Builder.State.{Candidate, Builder}
use jarvis_agencyos.Builder.Store.{
  get_task, get_run, update_candidate, insert_candidate, list_candidates_for_task,
  list_approvals_for_task,
}
use jarvis_agencyos.Builder.Candidates.{
  is_superseded, is_replaced, supersede, quietly, new_candidate, register_exact_candidate,
  CandidateInput,
}
use jarvis_agencyos.Builder.Frame.Candidates.{
  OnCandidates, candidate_frame, new_id-candidates, append_event-candidates,
  invalidate_verification-candidates, invalidate_review-candidates, invalidate_approval-candidates,
}

calm : (b : Bool) → (b ≡ true → false ≡ true) → b ≡ false
calm true k = sym (k refl)
calm false k = refl

module _ (task : ℕ) (sha : Text) where
  -- A candidate of the task for another commit, not superseded.
  abbrev pub rival : Candidate → Bool
  rival c = (c.task_id == task) && is_replaced sha c

  -- It stands among those that the loop has still to treat.
  abbrev awaited : List Candidate → Candidate → Bool
  awaited rest c = any (λ o. (o.candidate_id == c.candidate_id) && is_replaced sha o) rest

  abbrev Awaited : List Candidate → List Candidate → Type 0
  Awaited rest = All (λ c. rival c ≡ true → awaited rest c ≡ true)

  longer :
      (b : Bool) (o : Candidate) (rest : List Candidate) (d : Candidate)
      → awaited rest d ≡ true
      → awaited (if b then o ∷ rest else rest) d ≡ true
  longer true o rest d h = ground (arith, h)
  longer false o rest d h = h

  chosen :
      (c : Candidate) (cs : List Candidate)
      → rival c ≡ true
      → awaited (select (λ e. e.task_id == task) (c ∷ cs)) c ≡ true
  chosen c cs r = elim (Bool-cases (c.task_id == task)) [
    | inl mine ↦ rw mine (ground arith)
    | inr other ↦ ground arith
  ]

  superseded-rival : (n : Candidate) → n.status ≡ CandidateStatus.superseded → rival n ≡ false
  superseded-rival n s = elim (Option-cases n.commit_sha) [
    | inl e ↦ rw e (ground arith)
    | inr (x, e) ↦ rw (e, s) (ground arith)
  ]

  true≢false : (b : Bool) → b ≡ true → b ≡ false → ⊥
  true≢false b h k = ground arith

  elsewhere :
      (old c : Candidate) (rest : List Candidate)
      → (c.candidate_id == old.candidate_id) ≡ false
      → awaited (old ∷ rest) c ≡ true
      → awaited rest c ≡ true
  elsewhere old c rest other h = ground arith

  -- The list that the loop starts from.
  listed : (cs : List Candidate) → Awaited (select (λ c. c.task_id == task) cs) cs
  listed [] = tt
  listed (c ∷ cs) = (
    λ r. chosen c cs r,
    All-map _ _ cs
        (λ d k r. longer (c.task_id == task) c (select (λ e. e.task_id == task) cs) d (k r))
        (listed cs),
  )

  -- A row that is superseded is awaited no more.
  treated :
      (old n : Candidate) (rest cs : List Candidate)
      → n.status ≡ CandidateStatus.superseded
      → Awaited (old ∷ rest) cs
      → Awaited rest (update (λ c. c.candidate_id == old.candidate_id) (λ _. n) cs)
  treated old n rest [] s h = tt
  treated old n rest (c ∷ cs) s h = elim (Bool-cases (c.candidate_id == old.candidate_id)) [
    | inl here ↦
        rw here (
          (λ r. absurd (true≢false (rival n) r (superseded-rival n s))),
          treated old n rest cs s h.1,
        )
    | inr there ↦ rw there ((λ r. elsewhere old c rest there (h.0 r)), treated old n rest cs s h.1)
  ]

  skipped :
      (old : Candidate) (rest cs : List Candidate)
      → is_replaced sha old ≡ false
      → Awaited (old ∷ rest) cs
      → Awaited rest cs
  skipped old rest cs e h = All-map _ _ cs (λ c k r. ground (arith, k r)) h

  update_candidate-Does :
      (old : Candidate) (rest : List Candidate) (patch : Candidate → Candidate)
      → ((c : Candidate) → (patch c).status ≡ CandidateStatus.superseded)
      → Does
          (OnCandidates (Awaited (old ∷ rest)))
          (λ _. OnCandidates (Awaited rest))
          (update_candidate old.candidate_id patch)
  unfolding update_candidate
  update_candidate-Does old rest patch k = Does-gets _ _ λ found. Does-some _ _ _ λ current _.
      let next : Candidate = record (patch current) { candidate_id = current.candidate_id } in
      Does-modify _ _ (λ s q. treated old next rest s.candidates (k current) q.0)
        (Does-pure next (λ s q. q))

  supersede-Does :
      (run : ℕ) (old : Candidate) (rest : List Candidate)
      → Does
          (OnCandidates (Awaited (old ∷ rest)))
          (λ _. OnCandidates (Awaited rest))
          (supersede task run sha old)
  unfolding supersede quietly list_approvals_for_task
  supersede-Does run old rest =
      Does-when _ _
        (λ replaced. Does-bind _ _ (update_candidate-Does old rest _ (λ c. refl)) λ _.
          Does-Keeps _ (
            search
              (
                candidate_frame, invalidate_verification-candidates, invalidate_review-candidates,
                invalidate_approval-candidates,
              )
              depth 30))
        (λ kept s q. skipped old rest s.candidates kept q)

  insert_candidate-Does :
      (c : Candidate)
      → rival c ≡ false
      → Does
          (OnCandidates (Awaited []))
          (λ d s. (d ≡ c) × Awaited [] s.candidates)
          (insert_candidate c)
  unfolding insert_candidate
  insert_candidate-Does c calm = Does-gets _ _ λ taken. Does-require _ _ _ λ _.
      Does-gets _ _ λ known. Does-require _ _ _ λ _.
        Does-modify {M = OnCandidates (Awaited [])} _ _
          (λ s q.
            All-append _ s.candidates (c ∷ []) q.0.0
              ((λ r. absurd (true≢false (rival c) r calm)), tt))
          (Does-pure c (λ s q. (refl, q)))

  own-rival : (c : Candidate) → c.commit_sha ≡ some sha → rival c ≡ false
  own-rival c e = rw e (rw (text_eq_refl sha) (ground arith))

-- What a registration establishes of the candidate and of the table.
abbrev pub Registered : CandidateInput → Candidate → Builder → Type 0
Registered input c s =
    (sha : Text) × (c.commit_sha ≡ some sha)
    × (c.task_id ≡ input.task_id)
    × All (λ d. rival input.task_id sha d ≡ false) s.candidates

pub register_exact_candidate-Does :
    (env : Runtime) (input : CandidateInput)
    → Does (λ _. Unit) (Registered input) (register_exact_candidate env input)
unfolding register_exact_candidate get_task get_run list_candidates_for_task
register_exact_candidate-Does env input = Does-gets _ _ λ found. Does-some _ _ _ λ task _.
    Does-lift _ _ λ _ _. Does-gets _ _ λ row. Does-some _ _ _ λ run _.
      Does-bind _ _ (Does-any _) λ _. Does-some _ _ _ λ branch _. Does-require _ _ _ λ _.
        Does-bind _ _ (Does-any _) λ sha. Does-gets _ _ λ prior.
          Does-bind _ _
            (Does-weaken _ (λ s q. rw (← q.1) (listed input.task_id sha s.candidates))
              (Does-for_each {I = λ rest. OnCandidates (Awaited input.task_id sha rest)} prior _
                (λ old rest. supersede-Does input.task_id sha input.factory_run_id old rest)))
            λ _.
              Does-bind _ _ (Does-Keeps _ (new_id-candidates (Awaited input.task_id sha []))) λ id.
                Does-gets _ _ λ time.
                  let fresh = new_candidate input id run (trim branch) sha time in
                  Does-bind _ _
                    (Does-weaken _ (λ s q. q.0)
                      (insert_candidate-Does input.task_id sha fresh
                        (own-rival input.task_id sha fresh refl)))
                    λ c.
                      Does-bind _ _
                        (Does-Keeps _ (
                          append_event-candidates
                            (λ cs. (c ≡ fresh) × Awaited input.task_id sha [] cs) _ _ _ _))
                        λ _. Does-pure c (λ s q. (
                          sha,
                          ap (λ x. x.commit_sha) q.0,
                          ap (λ x. x.task_id) q.0,
                          All-map _ _ s.candidates (λ d k. calm (rival input.task_id sha d) k) q.1,
                        ))

-- A candidate of the task for another commit than this one is superseded.
abbrev pub SupersededElsewhere : ℕ → Text → Candidate → Type 0
SupersededElsewhere task sha d =
    (other : Text)
    → d.task_id ≡ task
    → d.commit_sha ≡ some other
    → other ≢ sha
    → d.status ≡ CandidateStatus.superseded

is_superseded-status :
    (st : CandidateStatus) → is_superseded st ≡ true → st ≡ CandidateStatus.superseded
is_superseded-status st h = ground arith

rival-SupersededElsewhere :
    (task : ℕ) (sha : Text) (d : Candidate)
    → rival task sha d ≡ false
    → SupersededElsewhere task sha d
rival-SupersededElsewhere task sha d h other own has differs =
    is_superseded-status d.status (elim (Bool-cases (text_eq other sha)) [
      | inl same ↦ absurd (differs (text_eq_sound other sha same))
      | inr apart ↦
          let mine = (==_iff d.task_id task).1 own in rival-status mine apart (rw has at h)
    ])
  where
    rival-status :
        (d.task_id == task) ≡ true
        → text_eq other sha ≡ false
        → ((d.task_id == task) && (not (text_eq other sha) && not (is_superseded d.status))) ≡ false
        → is_superseded d.status ≡ true
    rival-status mine apart k = ground arith

-- After a candidate is registered, it is one of the task for a commit, and every candidate of that
-- task that has another commit has the status SUPERSEDED, whatever status it had before.
pub register_exact_candidate-superseded :
    (env : Runtime) (input : CandidateInput) (s : Builder) (c : Candidate)
    → (register_exact_candidate env input s).0 ≡ ok c
    → (sha : Text) × (c.commit_sha ≡ some sha)
      × (c.task_id ≡ input.task_id)
      × All
          (SupersededElsewhere input.task_id sha)
          (register_exact_candidate env input s).1.candidates
register_exact_candidate-superseded env input s c h =
    let (sha, own, task, calm_rows) = (register_exact_candidate-Does env input).at s tt c h in
    (
      sha,
      own,
      task,
      All-map _ _ (register_exact_candidate env input s).1.candidates
          (λ d k. rival-SupersededElsewhere input.task_id sha d k) calm_rows,
    )
