-- ===== src/Builder/Verifier/Overwrite.antt =====
-- Verdicts that arrive after the candidate's row has changed (src/builder/verifier.js).
use jarvis_agencyos.Base.{ℕ, ◌≡◌, refl, ◌∙◌, some, List, [], ◌∷◌, Text, find-update, arith}
use jarvis_agencyos.Exec.{ok}
use jarvis_agencyos.Exec.Keeps.{Keeps}
use jarvis_agencyos.Exec.Does.{
  Does, Does-pure, Does-any, Does-Keeps, Does-bind, Does-gets, Does-some, Does-modify,
}
use jarvis_agencyos.Builder.Contracts.{CandidateStatus, VerificationResult, Runtime}
use jarvis_agencyos.Builder.State.{Candidate, Builder}
use jarvis_agencyos.Builder.Store.{find_candidate, update_candidate, get_task}
use jarvis_agencyos.Builder.Checks.{decide}
use jarvis_agencyos.Builder.Verifier.{
  Surroundings, status_after, mark_verified, record_verdict, the_checks,
}
use jarvis_agencyos.Builder.Frame.Candidates.{
  OnCandidates, candidate_frame, update_task_status-candidates,
}

find_candidate-id :
    (id : ℕ) (cs : List Candidate) (c : Candidate)
    → find_candidate id cs ≡ some c
    → c.candidate_id ≡ id
find_candidate-id id [] c h = ground arith
find_candidate-id id (d ∷ cs) c h = ground (arith, find_candidate-id id cs c)

-- The row of the candidate has the status.
abbrev Standing : ℕ → CandidateStatus → List Candidate → Type 0
Standing id st cs = (u : Candidate) × (find_candidate id cs ≡ some u) × (u.status ≡ st)

update_candidate-Does :
    (id : ℕ) (st : CandidateStatus) (patch : Candidate → Candidate)
    → ((c : Candidate) → (patch c).status ≡ st)
    → Does (λ _. Unit) (λ _. OnCandidates (Standing id st)) (update_candidate id patch)
unfolding update_candidate
update_candidate-Does id st patch k = Does-gets _ _ λ found. Does-some _ _ _ λ c e.
    let next : Candidate = record (patch c) { candidate_id = c.candidate_id } in
    Does-modify {M = OnCandidates (Standing id st)} _ _
      (λ s q.
        let at : find_candidate id s.candidates ≡ some c = q.1 ∙ e in
        (
          next,
          find-update (λ d. d.candidate_id) id next s.candidates c at
              (find_candidate-id id s.candidates c at),
          k c,
        ))
      (Does-pure next (λ s q. q))

module _ (P : List Candidate → Type 0) where
  mark_verified-candidates :
      (env : Runtime) (id : ℕ) → Keeps (OnCandidates P) (mark_verified env id)
  unfolding mark_verified get_task
  mark_verified-candidates env id = search (candidate_frame, update_task_status-candidates) depth 20

record_verdict-Does :
    (env : Runtime) (c : Candidate) (sha : Text) (w : Surroundings)
    → Does
        (λ _. Unit)
        (λ r s. Standing c.candidate_id (status_after r) s.candidates)
        (record_verdict env c sha w)
unfolding record_verdict
record_verdict-Does env c sha w =
    let st = status_after (decide (the_checks w c sha)).0 in
    let P = Standing c.candidate_id st in
    Does-bind _ _ (Does-any _) λ _. Does-bind _ _ (Does-any _) λ id.
      Does-bind _ _ (Does-any _) λ time. Does-bind _ _ (Does-any _) λ v.
        Does-bind _ _ (update_candidate-Does c.candidate_id st _ (λ d. refl)) λ _.
          Does-bind _ _ (Does-Keeps _ (search (candidate_frame, mark_verified-candidates) depth 20))
            λ _.
              Does-bind _ _ (Does-Keeps _ (search candidate_frame depth 20))
                λ _. Does-pure _ (λ s q. q)

-- A verdict is written over whatever the candidate's row says by then: after it is recorded, the row
-- of the candidate that was read has the verdict's status, a row that was SUPERSEDED meanwhile too.
pub record_verdict-row :
    (env : Runtime) (c : Candidate) (sha : Text) (w : Surroundings) (s : Builder)
    (r : VerificationResult)
    → (record_verdict env c sha w s).0 ≡ ok r
    → (u : Candidate) × (find_candidate c.candidate_id (record_verdict env c sha w s).1.candidates
        ≡ some u)
      × (u.status ≡ status_after r)
record_verdict-row env c sha w s r h = (record_verdict-Does env c sha w).at s tt r h
