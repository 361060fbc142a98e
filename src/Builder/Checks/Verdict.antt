-- ===== src/Builder/Checks/Verdict.antt =====
-- The verdict on the checks (verifyExactCandidate, src/builder/verifier.js).
use jarvis_agencyos.Base.{
  ◌≡◌, refl, Bool, true, false, not, ◌&&◌, ◌||◌, Option, none, some, List, [], ◌∷◌, ◌++◌, Text,
  codes, arith, any, select, text_eq, Option-cases, inl, inr,
}
use jarvis_agencyos.Exec.{Result, ok, err}
use jarvis_agencyos.Builder.State.{Error}
use jarvis_agencyos.Builder.Checks.{
  Landing, Report, Check, report_check, ci_ok, landing_error_ok, landing_checks, gather_checks,
  decide, decide_authoritative, is_fail, is_unknown, is_ok, passes, github_ci, github_landing,
}
use jarvis_agencyos.Builder.Verifier.{is_passed}

-- The summary names the conclusion, and it is this text.
abbrev pub concludes : Text → Option Text → Bool
concludes t none = false
concludes t (some u) = text_eq u t

-- The landing evidence was found, and its summary reads `completed` and `success`.
abbrev pub confirmed : Option (Result Error Landing) → Bool
confirmed none = false
confirmed (some (err e)) = false
confirmed (some (ok l)) =
    text_eq l.summary.ci_status (codes "completed")
    && concludes (codes "success") l.summary.ci_conclusion

-- A command that was run has passed.
abbrev pub not_failed : Option Report → Bool
not_failed none = true
not_failed (some r) = r.passed

any-append :
    {A : Type 0} (p : A → Bool) (xs ys : List A) → any p (xs ++ ys) ≡ (any p xs || any p ys)
any-append p [] ys = refl
any-append p (x ∷ xs) ys = ground (arith, any-append p xs ys)

abbrev verdict_test : List Check → Bool
verdict_test cs =
    not (any is_fail cs)
    && passes cs github_landing
    && passes cs github_ci
    && not (any is_unknown cs)
    && any is_ok cs

decide_authoritative-pass :
    (cs : List Check) → is_passed (decide_authoritative cs).0 ≡ verdict_test cs
unfolding decide_authoritative
decide_authoritative-pass cs = ground arith

authoritative_checks :
    (claimed : Bool) (tests build : Option Report) (landing : Option (Result Error Landing))
    → select (λ c. c.authoritative) (gather_checks claimed tests build landing)
      ≡ report_check (codes "task_tests") tests
        ++ (report_check (codes "build_typecheck_lint") build ++ landing_checks landing)
unfolding gather_checks landing_checks
authoritative_checks claimed tests build landing = ground arith

-- The two landing checks alone.
landing_test : Option (Result Error Landing) → Bool
landing_test l = verdict_test (landing_checks l)

landing_checks-test :
    (l : Option (Result Error Landing)) → verdict_test (landing_checks l) ≡ confirmed l
unfolding landing_checks ci_ok landing_error_ok
landing_checks-test none = refl
landing_checks-test (some (err e)) = ground arith
landing_checks-test (some (ok l)) = elim (Option-cases l.summary.ci_conclusion) [
  | inl e ↦ rw e (ground arith)
  | inr (t, e) ↦ rw e (ground arith)
]

-- Without a failure and an unknown check, the landing checks are there and pass.
abbrev settled : List Check → Bool
settled cs =
    any is_fail cs
    || any is_unknown cs
    || (passes cs github_landing && passes cs github_ci && any is_ok cs)

landing_checks-settled : (l : Option (Result Error Landing)) → settled (landing_checks l) ≡ true
unfolding landing_checks ci_ok landing_error_ok
landing_checks-settled none = refl
landing_checks-settled (some (err e)) = ground arith
landing_checks-settled (some (ok l)) = ground arith

-- One more report, under any name.
module _ (name : Text) (l : List Check) (h : settled l ≡ true) where
  report-settled : (r : Option Report) → settled (report_check name r ++ l) ≡ true
  report-settled none = h
  report-settled (some r) = ground arith

  report-test :
      (r : Option Report)
      → verdict_test (report_check name r ++ l) ≡ (not_failed r && verdict_test l)
  report-test none = refl
  report-test (some r) = ground arith

-- The verdict is PASS exactly when the landing evidence of the commit was found, the summary of its CI
-- has the status `completed` and the conclusion `success`, and neither the tests nor the build failed. What the reports call themselves and what the
-- worker claims has no part in it.
pub decide-pass :
    (claimed : Bool) (tests build : Option Report) (landing : Option (Result Error Landing))
    → is_passed (decide (gather_checks claimed tests build landing)).0
      ≡ (not_failed tests && (not_failed build && confirmed landing))
unfolding decide
decide-pass claimed tests build landing =
    let l = landing_checks landing in
    let b = report_check (codes "build_typecheck_lint") build ++ l in
    let settled_l = landing_checks-settled landing in
    let settled_b = report-settled (codes "build_typecheck_lint") l settled_l build in
    rw (authoritative_checks claimed tests build landing) (
      rw
        (
          decide_authoritative-pass (report_check (codes "task_tests") tests ++ b),
          report-test (codes "task_tests") b settled_b tests,
          report-test (codes "build_typecheck_lint") l settled_l build,
          landing_checks-test landing,
        )
        refl)
