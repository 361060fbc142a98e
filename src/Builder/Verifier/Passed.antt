-- ===== src/Builder/Verifier/Passed.antt =====
-- Verifications that passed (verifyExactCandidate, src/builder/verifier.js).
use jarvis_agencyos.Base.{
  ℕ, ◌≡◌, refl, sym, ap, codes, text_eq_sound, ◌∙◌, Bool, true, false, not, Option, none, some,
  Text, arith,
}
use jarvis_agencyos.Exec.{Result, ok, err, ◌>>=◌}
use jarvis_agencyos.Exec.Returns.{
  Returns, Returns-pure, Returns-bind, Returns-bind_known, Returns-implies, Returns-bind_some,
  Returns-bind_require, ok-injective, bind-returns,
}
use jarvis_agencyos.Builder.Contracts.{VerificationResult, Runtime}
use jarvis_agencyos.Builder.State.{Candidate, Builder, Error}
use jarvis_agencyos.Builder.Store.{find_candidate, get_candidate}
use jarvis_agencyos.Builder.Checks.{GithubClient, Landing, landing_evidence, CiSummary, decide}
use jarvis_agencyos.Builder.Verifier.{
  Surroundings, is_passed, the_checks, evidence, record_verdict, verify_exact_candidate,
  is_ineligible,
}
use jarvis_agencyos.Builder.Authority.{assert_commit_sha}
use jarvis_agencyos.Builder.Checks.Verdict.{decide-pass, not_failed, confirmed, concludes}

-- The summary of the CI reads `completed` and `success`.
abbrev pub Succeeded : CiSummary → Type 0
Succeeded summary =
    (summary.ci_status ≡ codes "completed") × (summary.ci_conclusion ≡ some (codes "success"))

-- Landing evidence for the commit was found, its CI completed with success, and neither the tests nor
-- the build failed.
pub record Grounds (c : Candidate) (sha : Text) (w : Surroundings) : Type 0 where
  pub host : GithubClient
  pub landing : Landing
  pub has_host : w.client ≡ some host
  pub found : landing_evidence host c sha ≡ ok landing
  pub ci_passed : Succeeded landing.summary
  pub tests_fine : not_failed w.tests ≡ true
  pub build_fine : not_failed w.build ≡ true

concludes-some : (t : Text) (o : Option Text) → concludes t o ≡ true → o ≡ some t
concludes-some t none h = ground arith
concludes-some t (some u) h = ap some (text_eq_sound u t h)

confirmed-landing :
    (o : Option (Result Error Landing))
    → confirmed o ≡ true
    → (l : Landing) × (o ≡ some (ok l)) × Succeeded l.summary
confirmed-landing none h = ground arith
confirmed-landing (some (err e)) h = ground arith
confirmed-landing (some (ok l)) h = (
  l,
  refl,
  (
    text_eq_sound l.summary.ci_status (codes "completed") (ground arith),
    concludes-some (codes "success") l.summary.ci_conclusion (ground arith),
  ),
)

evidence-host :
    (o : Option GithubClient) (c : Candidate) (sha : Text) (l : Landing)
    → evidence o c sha ≡ some (ok l)
    → (host : GithubClient) × (o ≡ some host) × (landing_evidence host c sha ≡ ok l)
evidence-host none c sha l h = ground arith
evidence-host (some host) c sha l h = (host, refl, cc)

-- A verdict is PASS only on these grounds.
verdict-Grounds :
    (c : Candidate) (sha : Text) (w : Surroundings)
    → is_passed (decide (the_checks w c sha)).0 ≡ true
    → Grounds c sha w
verdict-Grounds c sha w h =
    let e = sym (decide-pass w.claimed w.tests w.build (evidence w.client c sha)) ∙ h in
    let (l, landed, ci) = confirmed-landing (evidence w.client c sha) (ground arith) in
    let (host, has, found) = evidence-host w.client c sha l landed in
    record {
      host = host;
      landing = l;
      has_host = has;
      found = found;
      ci_passed = ci;
      tests_fine = ground arith;
      build_fine = ground arith;
    }

record_verdict-Returns :
    (env : Runtime) (c : Candidate) (sha : Text) (w : Surroundings)
    → Returns (λ r. r ≡ (decide (the_checks w c sha)).0) (record_verdict env c sha w)
unfolding record_verdict
record_verdict-Returns env c sha w = Returns-bind _ _ λ _. Returns-bind _ _ λ _.
    Returns-bind _ _ λ _.
      Returns-bind _ _
        λ _. Returns-bind _ _ λ _. Returns-bind _ _ λ _. Returns-bind _ _ λ _. Returns-pure _ refl

-- The candidate as it was read, and a commit.
pub record Basis (s : Builder) (id : ℕ) (w : Surroundings) : Type 0 where
  pub candidate : Candidate
  pub sha : Text
  pub read : find_candidate id s.candidates ≡ some candidate
  pub own : candidate.commit_sha ≡ some sha
  pub eligible : is_ineligible candidate.status ≡ false
  pub grounds : Grounds candidate sha w

pub assert_commit_sha-Returns :
    (value : Option Text) → Returns (λ sha. value ≡ some sha) (assert_commit_sha value)
unfolding assert_commit_sha
assert_commit_sha-Returns value =
    Returns-bind_some _ _ _ λ sha e. Returns-bind_require _ _ _ λ _. Returns-pure sha e

read_candidate :
    (id : ℕ) (s : Builder) (o : Option Candidate)
    → (get_candidate id s).0 ≡ ok o
    → find_candidate id s.candidates ≡ o
unfolding get_candidate ◌>>=◌
read_candidate id s o h = ok-injective h

not-true : (b : Bool) → not b ≡ true → b ≡ false
not-true b h = ground arith

-- A verification returns PASS only for a candidate that is neither superseded nor rejected, after
-- landing evidence was found for the candidate's commit, the summary of its CI has the status
-- `completed` and the conclusion `success`, and neither the tests nor the build failed.
pub verify_exact_candidate-pass :
    (env : Runtime) (id : ℕ) (w : Surroundings) (s : Builder)
    → (verify_exact_candidate env id w s).0 ≡ ok VerificationResult.pass
    → Basis s id w
unfolding verify_exact_candidate
verify_exact_candidate-pass env id w s h =
    let (o, e, h') = bind-returns (get_candidate id) _ s VerificationResult.pass h in
    let rest : Returns (λ r. r ≡ VerificationResult.pass → Basis s id w) _ =
      Returns-bind_some o _ _ λ c found. Returns-bind_require _ _ _ λ _.
        Returns-bind_require _ _ _ λ eligible. Returns-bind _ _ λ _.
          Returns-bind_some _ _ _ λ run _. Returns-bind _ _ λ _. Returns-bind _ _ λ _.
            Returns-bind _ _ λ _.
              Returns-bind_known _ _ (assert_commit_sha-Returns c.commit_sha) λ sha own.
                Returns-implies _ (record_verdict-Returns env c sha w) λ r verdict passed. record {
                  candidate = c;
                  sha = sha;
                  read = read_candidate id s o e ∙ found;
                  own = own;
                  eligible = not-true _ eligible;
                  grounds = verdict-Grounds c sha w (rw (← verdict, passed) refl);
                } in
    rest.at _ VerificationResult.pass h' refl
