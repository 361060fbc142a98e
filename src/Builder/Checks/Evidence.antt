-- ===== src/Builder/Checks/Evidence.antt =====
-- The landing evidence of a commit (verifyExactCandidate, src/builder/verifier.js).
use jarvis_agencyos.Base.{
  ℕ, ◌≡◌, refl, ap, Bool, true, false, Option, none, some, Text, text_eq, text_eq_sound,
}
use jarvis_agencyos.Exec.{◌▹◌, Result, ok, err}
use jarvis_agencyos.Exec.Returns.{err≢ok, ok-injective}
use jarvis_agencyos.Builder.State.{Candidate, Error}
use jarvis_agencyos.Builder.Checks.{
  GithubClient, Landing, PullRequest, CiSummary, landing_evidence, pr_number_of, need, ensure,
}

step :
    {A B : Type 0} (r : Result Error A) (f : A → Result Error B) (b : B)
    → (r ▹ f) ≡ ok b
    → (a : A) × (r ≡ ok a) × (f a ≡ ok b)
step (ok a) f b h = (a, refl, h)
step (err e) f b h = absurd (err≢ok h)

needed : {A : Type 0} (o : Option A) (e : Error) (a : A) → need o e ≡ ok a → o ≡ some a
needed none e a h = absurd (err≢ok h)
needed (some b) e a h = rw (ok-injective h) refl

ensured : (b : Bool) (e : Error) (u : Unit {0}) → ensure b e ≡ ok u → b ≡ true
ensured true e u h = refl
ensured false e u h = absurd (err≢ok h)

conclude :
    (client : GithubClient) (c : Candidate) (sha : Text) (l : Landing) (commit branch : Text)
    (number : ℕ) (pr : PullRequest) (summary : CiSummary)
    → (client.get_commit sha ≡ ok commit)
      × (commit ≡ sha)
      × (c.branch ≡ some branch)
      × (client.get_pull_request number ≡ ok pr)
    → (pr.head_sha ≡ sha) × (pr.head_ref ≡ branch) × (client.ci sha ≡ ok summary)
    → (branch ≡ l.branch) × (pr ≡ l.pull_request) × (summary ≡ l.summary)
    → (client.get_commit sha ≡ ok sha)
      × (c.branch ≡ some l.branch)
      × ((n : ℕ) × (client.get_pull_request n ≡ ok l.pull_request))
      × (l.pull_request.head_sha ≡ sha)
      × (l.pull_request.head_ref ≡ l.branch)
      × (client.ci sha ≡ ok l.summary)
conclude client c sha l commit branch number pr summary (g, same, b, p) (hs, hr, ci) (eb, ep, es) =
    (cc, cc, (number, cc), rw (← ep) hs, rw (← ep, ← eb) hr, cc)

-- Landing evidence for a commit is about that commit alone: the host gives the commit under this SHA;
-- the pull request was read from the host, its head is this SHA and its branch is the candidate's; and
-- the CI summary is the one of this SHA.
pub landing_evidence-exact :
    (client : GithubClient) (c : Candidate) (sha : Text) (l : Landing)
    → landing_evidence client c sha ≡ ok l
    → (client.get_commit sha ≡ ok sha)
      × (c.branch ≡ some l.branch)
      × ((n : ℕ) × (client.get_pull_request n ≡ ok l.pull_request))
      × (l.pull_request.head_sha ≡ sha)
      × (l.pull_request.head_ref ≡ l.branch)
      × (client.ci sha ≡ ok l.summary)
unfolding landing_evidence
landing_evidence-exact client c sha l h =
    let (commit, e1, h1) = step (client.get_commit sha) _ l h in
    let (u1, e2, h2) = step (ensure (text_eq commit sha) _) _ l h1 in
    let (branch, e3, h3) = step (need c.branch _) _ l h2 in
    let (number, e4, h4) = step (pr_number_of client branch c.pr_number) _ l h3 in
    let (pr, e5, h5) = step (client.get_pull_request number) _ l h4 in
    let (u2, e6, h6) = step (ensure (text_eq pr.head_sha sha) _) _ l h5 in
    let (u3, e7, h7) = step (ensure (text_eq pr.head_ref branch) _) _ l h6 in
    let (summary, e8, h8) = step (client.ci sha) _ l h7 in
    let same = text_eq_sound commit sha (ensured _ _ u1 e2) in
    let all = ok-injective h8 in
    conclude client c sha l commit branch number pr summary
      (e1, same, needed c.branch _ branch e3, e5)
      (
        text_eq_sound pr.head_sha sha (ensured _ _ u2 e6),
        text_eq_sound pr.head_ref branch (ensured _ _ u3 e7),
        e8,
      )
      (ap (λ x. x.branch) all, ap (λ x. x.pull_request) all, ap (λ x. x.summary) all)
