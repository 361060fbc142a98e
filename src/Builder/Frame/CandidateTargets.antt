-- ===== src/Builder/Frame/CandidateTargets.antt =====
-- The row of a candidate is for one task and one commit, and stays so.
use jarvis_agencyos.Base.{
  ℕ, ◌≡◌, refl, sym, ap, subst, ◌∙◌, Bool, true, false, Option, none, some, List, [], ◌∷◌, Text,
  ◌==◌, ==_self, ==_iff, inl, inr, Bool-cases, Option-cases, update, is_some, not, arith,
  find-append_none, find-update,
}
use jarvis_agencyos.Exec.{◌>>=◌}
use jarvis_agencyos.Exec.Keeps.{Keeps}
use jarvis_agencyos.Exec.Does.{Does, Does-pure, Does-gets, Does-require, Does-modify}
use jarvis_agencyos.Builder.State.{Candidate, Builder}
use jarvis_agencyos.Builder.Store.{find_candidate, insert_candidate, update_candidate}
use jarvis_agencyos.Builder.Frame.Candidates.{OnCandidates}
use jarvis_agencyos.Builder.Frame.CandidateRows.{SameTarget}

pub find_candidate-id :
    (id : ℕ) (cs : List Candidate) (c : Candidate)
    → find_candidate id cs ≡ some c
    → c.candidate_id ≡ id
find_candidate-id id [] c h = ground arith
find_candidate-id id (d ∷ cs) c h = ground (arith, find_candidate-id id cs c)

-- The row of a candidate is for this task and this commit.
abbrev pub TargetIs : ℕ → ℕ → Text → List Candidate → Type 0
TargetIs id task_id sha cs =
    (c : Candidate) × (find_candidate id cs ≡ some c)
    × (c.task_id ≡ task_id)
    × (c.commit_sha ≡ some sha)

find_candidate-update :
    (j id : ℕ) (n : Candidate) (cs : List Candidate)
    → n.candidate_id ≡ j
    → (j == id) ≡ false
    → find_candidate id (update (λ c. c.candidate_id == j) (λ _. n) cs) ≡ find_candidate id cs
find_candidate-update j id n [] own other = refl
find_candidate-update j id n (c ∷ cs) own other = elim (Bool-cases (c.candidate_id == j)) [
  | inl here ↦ rw here (ground (arith, find_candidate-update j id n cs own other))
  | inr there ↦ rw there (ground (arith, find_candidate-update j id n cs own other))
]

TargetIs-update :
    (id task_id : ℕ) (sha : Text) (j : ℕ) (n d : Candidate) (cs : List Candidate)
    → find_candidate j cs ≡ some d
    → n.candidate_id ≡ j
    → n.task_id ≡ d.task_id
    → n.commit_sha ≡ d.commit_sha
    → TargetIs id task_id sha cs
    → TargetIs id task_id sha (update (λ c. c.candidate_id == j) (λ _. n) cs)
TargetIs-update id task_id sha j n d cs e own task commit (c, at, mine, bound) =
    elim (Bool-cases (j == id)) [
      | inr other ↦ (c, find_candidate-update j id n cs own other ∙ at, mine, bound)
      | inl same ↦
          let here : j ≡ id = (==_iff j id).0 same in
          let row : c ≡ d = cc in
          (
            n,
            subst (λ i. find_candidate i (update (λ c. c.candidate_id == j) (λ _. n) cs) ≡ some n)
                here (find-update (λ c. c.candidate_id) j n cs d e own),
            task ∙ sym (ap (λ x. x.task_id) row) ∙ mine,
            commit ∙ sym (ap (λ x. x.commit_sha) row) ∙ bound,
          )
    ]

pub update_candidate-TargetIs :
    (id task_id : ℕ) (sha : Text) (j : ℕ) (f : Candidate → Candidate)
    → SameTarget f
    → Keeps (OnCandidates (TargetIs id task_id sha)) (update_candidate j f)
unfolding update_candidate ◌>>=◌
update_candidate-TargetIs id task_id sha j f k = record {
  at = λ s h. elim (Option-cases (find_candidate j s.candidates)) [
    | inl e ↦ rw (e, update_candidate) h
    | inr (d, e) ↦
        let next : Candidate = record (f d) { candidate_id = d.candidate_id } in
        rw (e, update_candidate)
          (TargetIs-update id task_id sha j next d s.candidates e
            (find_candidate-id j s.candidates d e) (k d).0 (k d).1 h)
  ];
}

-- A candidate that is inserted stands in the table.
pub insert_candidate-row :
    {Q : Builder → Type 0} (c : Candidate)
    → Does Q
        (λ d s. (d ≡ c) × (find_candidate c.candidate_id s.candidates ≡ some c))
        (insert_candidate c)
unfolding insert_candidate
insert_candidate-row c = Does-gets _ _ λ taken. Does-require _ _ _ λ free. Does-gets _ _ λ known.
    Does-require _ _ _ λ _.
      Does-modify {M = λ s. find_candidate c.candidate_id s.candidates ≡ some c} _ _
        (λ s q.
          find-append_none _ s.candidates (c ∷ []) (
            is_some-none (find_candidate c.candidate_id s.candidates) (q.0.1 ∙ not-true taken free))
          ∙ rw (==_self c.candidate_id) refl)
        (Does-pure c (λ s q. (refl, q)))
  where
    is_some-none : (o : Option Candidate) → is_some o ≡ false → o ≡ none
    is_some-none none h = refl
    is_some-none (some d) h = ground arith

    not-true : (b : Bool) → not b ≡ true → b ≡ false
    not-true b h = ground arith
