-- ===== src/Builder/Candidates/Authority.antt =====
-- Verifications of the older commits of a task (src/builder/candidate-registry.js, src/builder/verifier.js).
use jarvis_agencyos.Base.{
  ℕ, ◌≡◌, sym, ◌∙◌, true, false, not, ◌&&◌, inl, inr, Option, some, Text, ==_self, arith, text_eq,
  text_eq_sound, All-find, Option-cases, Bool-cases,
}
use jarvis_agencyos.Exec.{ok}
use jarvis_agencyos.Builder.Contracts.{Runtime, CandidateStatus}
use jarvis_agencyos.Builder.State.{Candidate, Verification, Builder}
use jarvis_agencyos.Builder.Store.{find_candidate, find_verification}
use jarvis_agencyos.Builder.Authority.{binds, is_verification_authoritative, is_verified}
use jarvis_agencyos.Builder.Candidates.{CandidateInput, register_exact_candidate, is_superseded}
use jarvis_agencyos.Builder.Candidates.Superseded.{rival, register_exact_candidate-Does}

not_verified : (st : CandidateStatus) → is_superseded st ≡ true → is_verified st ≡ false
not_verified st h = ground arith

-- The candidate has been superseded, or its commit is not the verification's.
unbound :
    (x y sha : Text) (st : CandidateStatus)
    → (not (text_eq x sha) && not (is_superseded st)) ≡ false
    → text_eq y sha ≡ false
    → (is_verified st && text_eq x y) ≡ false
unbound x y sha st h other = elim (Bool-cases (text_eq x y)) [
  | inr differ ↦ ground arith
  | inl same ↦
      let e : text_eq x sha ≡ false = rw (text_eq_sound x y same) other in
      let k = not_verified st (ground arith) in ground arith
]

binds-rival :
    (task : ℕ) (sha : Text) (id : ℕ) (v : Verification) (d : Candidate)
    → d.task_id ≡ task
    → rival task sha d ≡ false
    → text_eq v.commit_sha sha ≡ false
    → binds id v (some d) ≡ false
unfolding binds
binds-rival task sha id v d mine calm other = elim (Option-cases d.commit_sha) [
  | inl e ↦ rw e (ground arith)
  | inr (x, e) ↦
      let r : (not (text_eq x sha) && not (is_superseded d.status)) ≡ false =
        rw (e, mine, ==_self task) at calm in
      let b = unbound x v.commit_sha sha d.status r other in rw e (ground arith)
]

some-injective : {x y : Text} → ◌≡◌ {A = Option Text} (some x) (some y) → x ≡ y
some-injective h = cc

-- After a candidate is registered for a commit, no verification of another commit is authoritative
-- for a candidate of that task.
pub register_exact_candidate-other_commit :
    (env : Runtime) (input : CandidateInput) (s : Builder) (c : Candidate) (sha : Text)
    → (register_exact_candidate env input s).0 ≡ ok c
    → c.commit_sha ≡ some sha
    → (id : ℕ) (v : Verification) (d : Candidate)
    → find_verification id (register_exact_candidate env input s).1.verifications ≡ some v
    → find_candidate v.candidate_id (register_exact_candidate env input s).1.candidates ≡ some d
    → d.task_id ≡ input.task_id
    → text_eq v.commit_sha sha ≡ false
    → is_verification_authoritative (register_exact_candidate env input s).1 id ≡ false
unfolding is_verification_authoritative
register_exact_candidate-other_commit env input s c sha h own id v d found stands mine other =
    let (sha', own', task, all) = (register_exact_candidate-Does env input).at s tt c h in
    let same : sha' ≡ sha = some-injective (sym own' ∙ own) in
    let calm = All-find (λ e. rival input.task_id sha' e ≡ false) _ _ d all stands in
    let b = binds-rival input.task_id sha id v d mine (rw same at calm) other in
    rw (found, is_verification_authoritative, stands, b) (ground arith)
