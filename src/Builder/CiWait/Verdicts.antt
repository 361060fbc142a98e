-- ===== src/Builder/CiWait/Verdicts.antt =====
-- Which check runs make a wait succeed (src/builder/github-landing.js, src/builder/ci-wait.js).
use jarvis_agencyos.Base.{
  ℕ, ◌≡◌, ◌↔◌, inl, inr, refl, subst, sym, ◌∙◌, Bool, true, false, not, ◌&&◌, Option, none, some,
  List, [], ◌∷◌, Text, codes, arith, text_eq, text_eq_sound, has_text, any, all, All, Bool-cases,
}
use jarvis_agencyos.Builder.Landing.{
  CheckRun, summarize_check_runs, summarize_state, summarize_ci, state_of, summary_of, incomplete,
  concluded_in, concludes, bad_conclusions, good_conclusions, completed, success, neutral, pending,
}
use jarvis_agencyos.Builder.CiWait.{succeeded, classify_ci_summary}
use jarvis_agencyos.Builder.Authority.{same_text}

-- A check run that is complete and whose conclusion is good.
abbrev pub passed : CheckRun → Bool
passed r = text_eq r.status completed && concludes good_conclusions r

-- What makes a commit pass: every check run, or the combined status of a commit without check runs.
abbrev pub ci_passes : List CheckRun → Option Text → Bool
ci_passes [] combined = same_text combined (some success)
ci_passes (r ∷ rs) combined = all passed (r ∷ rs)

all-and :
    {A : Type 0} (p q : A → Bool) (xs : List A) → all (λ x. p x && q x) xs ≡ (all p xs && all q xs)
all-and p q [] = refl
all-and p q (x ∷ xs) = ground (arith, all-and p q xs)

any-not : {A : Type 0} (p : A → Bool) (xs : List A) → any (λ x. not (p x)) xs ≡ not (all p xs)
any-not p [] = refl
any-not p (x ∷ xs) = ground (arith, any-not p xs)

-- What holds of each text of a list holds of a text found in it.
has_text-cases :
    (P : Text → Type 0) (t : Text) (us : List Text) → All P us → has_text t us ≡ true → P t
has_text-cases P t [] all_of h = ground arith
has_text-cases P t (u ∷ us) all_of h = elim (Bool-cases (text_eq u t)) [
  | inl here ↦ subst P (text_eq_sound u t here) all_of.0
  | inr there ↦ has_text-cases P t us all_of.1 (rw there at h)
]

-- Good and bad conclusions exclude one another.
good-not_bad :
    (c : Option Text)
    → concluded_in good_conclusions c ≡ true
    → concluded_in bad_conclusions c ≡ false
good-not_bad none h = refl
good-not_bad (some t) h =
    has_text-cases (λ u. has_text u bad_conclusions ≡ false) t good_conclusions
      (refl, (refl, (refl, tt))) h

any-false :
    {A : Type 0} (p q : A → Bool) (xs : List A)
    → ((x : A) → p x ≡ true → q x ≡ false)
    → all p xs ≡ true
    → any q xs ≡ false
any-false p q [] k h = refl
any-false p q (x ∷ xs) k h = ground (arith, k x, any-false p q xs k)

flags-succeeded :
    (waiting bad good : Bool) (time : ℕ)
    → (good ≡ true → bad ≡ false)
    → let (status, conclusion) = summary_of waiting bad good in
      (classify_ci_summary
          (record { ci_status = status; ci_conclusion = conclusion; captured_at = time })
        ≡ some succeeded)
      ↔ ((not waiting && good) ≡ true)
unfolding classify_ci_summary
flags-succeeded true bad good time k = (λ h. ground arith, λ h. ground arith)
flags-succeeded false true true time k = (λ h. refl, λ h. ground (arith, k))
flags-succeeded false true false time k = (λ h. ground arith, λ h. ground arith)
flags-succeeded false false true time k = (λ h. refl, λ h. refl)
flags-succeeded false false false time k = (λ h. ground arith, λ h. ground arith)

state_flags-succeeded :
    (waiting good bad : Bool) (time : ℕ)
    → (good ≡ true → waiting ≡ false)
    → let (status, conclusion) = state_of waiting good bad in
      (classify_ci_summary
          (record { ci_status = status; ci_conclusion = conclusion; captured_at = time })
        ≡ some succeeded)
      ↔ (good ≡ true)
unfolding classify_ci_summary
state_flags-succeeded true true bad time k = (λ h. ground (arith, k), λ h. ground (arith, k))
state_flags-succeeded true false bad time k = (λ h. ground arith, λ h. ground arith)
state_flags-succeeded false true bad time k = (λ h. refl, λ h. refl)
state_flags-succeeded false false true time k = (λ h. ground arith, λ h. ground arith)
state_flags-succeeded false false false time k = (λ h. ground arith, λ h. ground arith)

success-not_pending : (t : Text) → text_eq t success ≡ true → text_eq t pending ≡ false
success-not_pending t h =
    subst (λ u. text_eq u pending ≡ false) (sym (text_eq_sound t success h)) refl

state-succeeded :
    (combined : Option Text) (time : ℕ)
    → let (status, conclusion) = summarize_state combined in
      (classify_ci_summary
          (record { ci_status = status; ci_conclusion = conclusion; captured_at = time })
        ≡ some succeeded)
      ↔ (same_text combined (some success) ≡ true)
unfolding summarize_state classify_ci_summary
state-succeeded none time = (λ h. ground arith, λ h. ground arith)
state-succeeded (some []) time = (λ h. ground arith, λ h. ground arith)
state-succeeded (some (c ∷ t)) time = state_flags-succeeded _ _ _ time (success-not_pending (c ∷ t))

all_passed :
    (rs : List CheckRun)
    → (not (any incomplete rs) && all (concludes good_conclusions) rs) ≡ all passed rs
all_passed rs =
    rw
      (
        any-not (λ q. text_eq q.status completed) rs,
        all-and (λ q. text_eq q.status completed) (concludes good_conclusions) rs,
      )
      (ground arith)

-- A wait for CI succeeds on a summary exactly when the commit has check runs, all of them complete
-- with the conclusion success, neutral or skipped, or has none and its combined status is success.
pub classify-summarize_ci :
    (runs : List CheckRun) (combined : Option Text) (time : ℕ)
    → (classify_ci_summary (summarize_ci runs combined time) ≡ some succeeded)
      ↔ (ci_passes runs combined ≡ true)
unfolding summarize_ci summarize_check_runs
classify-summarize_ci [] combined time = state-succeeded combined time
classify-summarize_ci (r ∷ rs) combined time =
    subst
      (λ b.
        (classify_ci_summary (summarize_ci (r ∷ rs) combined time) ≡ some succeeded) ↔ (b ≡ true))
      (all_passed (r ∷ rs))
      (flags-succeeded _ _ _ time
        (λ h. any-false (concludes good_conclusions) _ (r ∷ rs) (λ q. good-not_bad q.conclusion) h))

-- A check run that was not a success: neutral or skipped.
abbrev pub not_run : CheckRun → Bool
not_run r = concludes (neutral ∷ codes "skipped" ∷ []) r

all-implies :
    {A : Type 0} (p q : A → Bool) (xs : List A)
    → ((x : A) → p x ≡ true → q x ≡ true)
    → all p xs ≡ true
    → all q xs ≡ true
all-implies p q [] k h = refl
all-implies p q (x ∷ xs) k h = ground (arith, k x, all-implies p q xs k)

not_run-good :
    (c : Option Text)
    → concluded_in (neutral ∷ codes "skipped" ∷ []) c ≡ true
    → concluded_in good_conclusions c ≡ true
not_run-good none h = h
not_run-good (some t) h = ground (arith, h)

-- So a suite succeeds of which no check succeeded: complete check runs, at least one, that are all
-- neutral or skipped.
pub classify-skipped :
    (r : CheckRun) (rs : List CheckRun) (combined : Option Text) (time : ℕ)
    → any incomplete (r ∷ rs) ≡ false
    → all not_run (r ∷ rs) ≡ true
    → classify_ci_summary (summarize_ci (r ∷ rs) combined time) ≡ some succeeded
classify-skipped r rs combined time complete skipped =
    let good : all (concludes good_conclusions) (r ∷ rs) ≡ true =
      all-implies not_run _ (r ∷ rs) (λ q. not_run-good q.conclusion) skipped in
    (classify-summarize_ci (r ∷ rs) combined time).1
      (sym (all_passed (r ∷ rs)) ∙ rw (complete, good) refl)
