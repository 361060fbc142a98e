-- ===== src/Builder/Frame/Candidates.antt =====
-- Operations that write no candidate keep whatever holds of the candidates.
use jarvis_agencyos.Base.{ℕ, Option, List, [], ◌∷◌, Text}
use jarvis_agencyos.Exec.Keeps.{Keeps, keeps_rules, Keeps-modify}
use jarvis_agencyos.Builder.Contracts.{EventType, TaskStatus, Runtime}
use jarvis_agencyos.Builder.State.{
  Task, Run, Candidate, Verification, Review, Approval, Builder, Payload,
}
use jarvis_agencyos.Builder.Store.{
  new_id, get_task, update_task, get_candidate, get_verification, get_review, list_active_runs,
  update_verification, update_review, update_approval, append_event,
}
use jarvis_agencyos.Builder.Runs.{set_current, update_task_status, adopt, get_current_coding_run}
use jarvis_agencyos.Builder.Authority.{
  assert_commit_sha, invalidate_verification, invalidate_review,
}
use jarvis_agencyos.Builder.Candidates.{invalidate_approval}

module _ (P : List Candidate → Type 0) where
  abbrev pub OnCandidates : Builder → Type 0
  OnCandidates s = P s.candidates

  untouched : (s : Builder) → P s.candidates → P s.candidates
  untouched s h = h

  pub new_id-candidates : Keeps OnCandidates (new_id)
  unfolding new_id
  new_id-candidates = search (keeps_rules, Keeps-modify, untouched) depth 20

  pub set_current-candidates : (c : Option ℕ) → Keeps OnCandidates (set_current c)
  unfolding set_current
  set_current-candidates c = search (keeps_rules, Keeps-modify, untouched) depth 20

  pub append_event-candidates :
      (t r : Option ℕ) (e : EventType) (p : Payload) → Keeps OnCandidates (append_event t r e p)
  unfolding append_event
  append_event-candidates t r e p = search (keeps_rules, Keeps-modify, untouched) depth 20

  pub update_verification-candidates :
      (id : ℕ) (f : Verification → Verification) → Keeps OnCandidates (update_verification id f)
  unfolding update_verification
  update_verification-candidates id f = search (keeps_rules, Keeps-modify, untouched) depth 20

  pub update_review-candidates :
      (id : ℕ) (f : Review → Review) → Keeps OnCandidates (update_review id f)
  unfolding update_review
  update_review-candidates id f = search (keeps_rules, Keeps-modify, untouched) depth 20

  pub update_approval-candidates :
      (id : ℕ) (f : Approval → Approval) → Keeps OnCandidates (update_approval id f)
  unfolding update_approval
  update_approval-candidates id f = search (keeps_rules, Keeps-modify, untouched) depth 20

  pub update_task-candidates : (id : ℕ) (f : Task → Task) → Keeps OnCandidates (update_task id f)
  unfolding update_task
  update_task-candidates id f = search (keeps_rules, Keeps-modify, untouched) depth 20

pub ruleset candidate_frame = (
  update_task-candidates, keeps_rules, new_id-candidates, set_current-candidates,
  append_event-candidates, update_verification-candidates, update_review-candidates,
  update_approval-candidates,
)

module _ (P : List Candidate → Type 0) where
  adopt-candidates : (rs : List Run) → Keeps (OnCandidates P) (adopt rs)
  unfolding adopt
  adopt-candidates [] = search candidate_frame
  adopt-candidates (r ∷ []) = search candidate_frame
  adopt-candidates (r ∷ q ∷ rs) = search candidate_frame

  pub get_current_coding_run-candidates : Keeps (OnCandidates P) get_current_coding_run
  unfolding get_current_coding_run list_active_runs
  get_current_coding_run-candidates = search (candidate_frame, adopt-candidates) depth 20

  pub invalidate_verification-candidates :
      (id : ℕ) → Keeps (OnCandidates P) (invalidate_verification id)
  unfolding invalidate_verification get_verification get_candidate
  invalidate_verification-candidates id = search candidate_frame depth 20

  pub invalidate_review-candidates : (id : ℕ) → Keeps (OnCandidates P) (invalidate_review id)
  unfolding invalidate_review get_review get_candidate
  invalidate_review-candidates id = search candidate_frame depth 20

  pub invalidate_approval-candidates :
      (t r c : ℕ) (a : Approval) → Keeps (OnCandidates P) (invalidate_approval t r c a)
  unfolding invalidate_approval
  invalidate_approval-candidates t r c a = search candidate_frame depth 20

  pub assert_commit_sha-candidates :
      (o : Option Text) → Keeps (OnCandidates P) (assert_commit_sha o)
  unfolding assert_commit_sha
  assert_commit_sha-candidates o = search candidate_frame depth 20

  pub update_task_status-candidates :
      (env : Runtime) (id : ℕ) (st : TaskStatus)
      → Keeps (OnCandidates P) (update_task_status env id st)
  unfolding update_task_status get_task
  update_task_status-candidates env id st = search candidate_frame depth 20
