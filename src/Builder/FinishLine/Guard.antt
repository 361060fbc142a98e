-- ===== src/Builder/FinishLine/Guard.antt =====
-- Locked finish lines and the guard `assertTaskMutable` (src/builder/task-lock.js).
use jarvis_agencyos.Base.{
  ℕ, ◌≡◌, refl, Bool, true, false, ◌&&◌, Option, none, some, List, [], ◌∷◌, Text, ◌==◌, arith,
  text_eq, text_eq_sound, same_id, get_or, sym,
}
use jarvis_agencyos.Exec.{ok}
use jarvis_agencyos.Builder.Contracts.{Manifest, is_draft}
use jarvis_agencyos.Builder.State.{Task, FinishLine}
use jarvis_agencyos.Builder.Patch.{
  TaskPatch, patch_line, apply_patch, texts_eq, manifest_eq, bool_eq, unchanged, line_unchanged,
  assert_task_mutable,
}
use jarvis_agencyos.Builder.Calls.{to_draft}

texts_eq_sound : (s t : List Text) → texts_eq s t ≡ true → s ≡ t
unfolding texts_eq
texts_eq_sound [] [] h = refl
texts_eq_sound [] (b ∷ t) h = ground arith
texts_eq_sound (a ∷ s) [] h = ground arith
texts_eq_sound (a ∷ s) (b ∷ t) h = ground (arith, texts_eq_sound s t, text_eq_sound a b)

manifest_eq_sound : (m n : Manifest) → manifest_eq m n ≡ true → m ≡ n
unfolding manifest_eq
manifest_eq_sound m n h = ground (
  arith,
  texts_eq_sound m.providers n.providers,
  texts_eq_sound m.tools n.tools,
  text_eq_sound m.mode n.mode,
)

bool_eq_sound : (a b : Bool) → bool_eq a b ≡ true → a ≡ b
bool_eq_sound a b h = ground arith

same_id_sound : (a b : Option ℕ) → same_id a b ≡ true → a ≡ b
same_id_sound a b h = ground arith

number_sound : (a b : ℕ) → (a == b) ≡ true → a ≡ b
number_sound a b h = ground arith

unchanged-get_or :
    {A : Type 0} (eq : A → A → Bool)
    → ((a b : A) → eq a b ≡ true → a ≡ b)
    → (new : Option A) (old : A) → unchanged eq new old ≡ true
    → get_or new old ≡ old
unchanged-get_or eq sound none old h = refl
unchanged-get_or eq sound (some new) old h = sym (sound old new h)

and-both : (a b : Bool) → (a && b) ≡ true → (a ≡ true) × (b ≡ true)
and-both a b h = ground arith

line_unchanged-patch_line :
    (p : TaskPatch) (l : FinishLine) → line_unchanged p l ≡ true → patch_line p l ≡ l
unfolding line_unchanged patch_line
line_unchanged-patch_line p l h =
    let (r10, e10) = and-both _ _ h in
    let (r9, e9) = and-both _ _ r10 in
    let (r8, e8) = and-both _ _ r9 in
    let (r7, e7) = and-both _ _ r8 in
    let (r6, e6) = and-both _ _ r7 in
    let (r5, e5) = and-both _ _ r6 in
    let (r4, e4) = and-both _ _ r5 in
    let (r3, e3) = and-both _ _ r4 in
    let (r2, e2) = and-both _ _ r3 in
    let (r1, e1) = and-both _ _ r2 in
    let e0 : unchanged text_eq p.intent l.intent ≡ true = r1 in
    λ i. record {
      terms = record {
        intent = unchanged-get_or text_eq text_eq_sound p.intent l.intent e0 i;
        intent_version = unchanged-get_or ◌==◌ number_sound p.intent_version l.intent_version e1 i;
        acceptance_ref =
            unchanged-get_or text_eq text_eq_sound p.acceptance_ref l.acceptance_ref e2 i;
        allowed_paths =
            unchanged-get_or texts_eq texts_eq_sound p.allowed_paths l.allowed_paths e3 i;
        tool_manifest =
            unchanged-get_or manifest_eq manifest_eq_sound p.tool_manifest l.tool_manifest e4 i;
        review_required =
            unchanged-get_or bool_eq bool_eq_sound p.review_required l.review_required e5 i;
      };
      max_attempts = unchanged-get_or ◌==◌ number_sound p.max_attempts l.max_attempts e6 i;
      max_runtime_ms = unchanged-get_or ◌==◌ number_sound p.max_runtime_ms l.max_runtime_ms e7 i;
      cost_budget_status =
          unchanged-get_or text_eq text_eq_sound p.cost_budget_status l.cost_budget_status e8 i;
      proposal_id = unchanged-get_or same_id same_id_sound p.proposal_id l.proposal_id e9 i;
      content_hash = unchanged-get_or same_id same_id_sound p.content_hash l.content_hash e10 i;
    }

guard_passed :
    (t : Task) (p : TaskPatch)
    → assert_task_mutable t p ≡ ok tt
    → is_draft t.status ≡ false
    → line_unchanged p t.line ≡ true
unfolding assert_task_mutable
guard_passed t p h d = ground arith

pub assert_task_mutable-line :
    (t : Task) (p : TaskPatch)
    → assert_task_mutable t p ≡ ok tt
    → to_draft p.status ≡ false
    → is_draft t.status ≡ false
    → ((apply_patch p t).line ≡ t.line) × (is_draft (apply_patch p t).status ≡ false)
unfolding apply_patch
assert_task_mutable-line t p h k d =
    (line_unchanged-patch_line p t.line (guard_passed t p h d), ground arith)
