-- ===== src/Builder/Tools.antt =====
-- The tool policy (src/builder/tool-policy.js): default deny, and no authority from tool output.
pub mod Policy
use jarvis_agencyos.Base.{
  ℕ, zero, suc, Bool, true, false, not, ◌&&◌, ◌||◌, Option, none, some, List, [], ◌∷◌, ◌++◌, Text,
  codes, if◌then◌else◌, is_some, has_text, text_eq, select,
}
use jarvis_agencyos.Exec.{Result, ok, err}
use jarvis_agencyos.Json.{
  Json, Items, Fields, null, bool, num, str, arr, obj, nil, cons, end, field,
}
use jarvis_agencyos.Builder.Contracts.{Manifest, normalize_tool_manifest, as_input}
use jarvis_agencyos.Builder.State.{
  Task, Error, unauthorized_tool, provider_unavailable, provider_fallback_ambiguous,
  research_authority_violation,
}

-- `getAllowedToolManifest`
unfoldable pub get_allowed_tool_manifest : Task → Manifest
unfolding normalize_tool_manifest
get_allowed_tool_manifest t = normalize_tool_manifest (as_input t.tool_manifest)

-- A request names a provider, a tool, or both.
pub record Request : Type 0 where
  pub provider : Option Text
  pub tool : Option Text

abbrev pub permits : List Text → Option Text → Bool
permits allowed none = true
permits allowed (some t) = has_text t allowed

-- `isToolAllowed`
unfoldable pub is_tool_allowed : Task → Request → Bool
is_tool_allowed t r =
    let m = get_allowed_tool_manifest t in
    permits m.providers r.provider
    && permits m.tools r.tool
    && (is_some r.provider || is_some r.tool)

-- `assertToolAllowed`
unfoldable pub assert_tool_allowed : Task → Request → Result Error Manifest
assert_tool_allowed t r =
    if is_tool_allowed t r then ok (get_allowed_tool_manifest t) else err unauthorized_tool

pub record Resolved : Type 0 where
  pub provider : Text
  pub fallback : Bool

-- The one other permitted provider that is available.
abbrev pub only_alternate : List Text → Result Error Resolved
only_alternate [] = err provider_unavailable
only_alternate (p ∷ []) = ok (record { provider = p; fallback = true })
only_alternate (p ∷ q ∷ ps) = err provider_fallback_ambiguous

-- `manifest.providers.filter((p) => p !== requested && availability[p] !== false)`
abbrev pub alternates : (Text → Bool) → Text → List Text → List Text
alternates available requested = select (λ p. not (text_eq p requested) && available p)

-- `resolvePermittedProvider`; `available p` is `availability[p] !== false`, and the empty text is no
-- provider.
unfoldable pub resolve_permitted_provider :
    Task → Option Text → (Text → Bool) → Result Error Resolved
resolve_permitted_provider t none available = err unauthorized_tool
resolve_permitted_provider t (some requested) available =
    let m = get_allowed_tool_manifest t in
    if not (has_text requested m.providers)
    then err unauthorized_tool
    else if available requested
    then ok (record { provider = requested; fallback = false })
    else only_alternate (alternates available requested m.providers)

-- `RESEARCH_FORBIDDEN_AUTHORITY_KEYS`
unfoldable pub research_forbidden_authority_keys : List Text
research_forbidden_authority_keys =
    codes "intent"
    ∷ codes "intent_version"
    ∷ codes "acceptance_ref"
    ∷ codes "allowed_paths"
    ∷ codes "tool_manifest"
    ∷ codes "allowed_tool_manifest"
    ∷ codes "credentials"
    ∷ codes "api_key"
    ∷ codes "secret"
    ∷ codes "approval"
    ∷ codes "approval_status"
    ∷ codes "grant_approval"
    ∷ codes "max_attempts"
    ∷ codes "max_runtime_ms"
    ∷ codes "cost_budget_status"
    ∷ codes "status"
    ∷ codes "mark_done"
    ∷ codes "done"
    ∷ codes "task_status"
    ∷ codes "proposal_id"
    ∷ codes "content_hash"
    ∷ codes "review_required"
    ∷ []

abbrev pub is_forbidden_key : Text → Bool
is_forbidden_key k = has_text k research_forbidden_authority_keys

-- `collectForbiddenAuthorityKeys`: `budget` is the number of levels still looked at, 7 for depths 0
-- to 6, so a key that stands deeper is not seen.
unfoldable mutual
  pub collect_forbidden : ℕ → Json → List Text
  collect_forbidden budget null = []
  collect_forbidden budget (bool b) = []
  collect_forbidden budget (num n) = []
  collect_forbidden budget (str s) = []
  collect_forbidden budget (arr xs) = elim budget [ zero ↦ [] | suc b ↦ collect_items b xs ]
  collect_forbidden budget (obj fs) = elim budget [ zero ↦ [] | suc b ↦ collect_fields b fs ]

  pub collect_items : ℕ → Items → List Text
  collect_items budget nil = []
  collect_items budget (cons x xs) = collect_forbidden budget x ++ collect_items budget xs

  pub collect_fields : ℕ → Fields → List Text
  collect_fields budget end = []
  collect_fields budget (field k v fs) =
      (if is_forbidden_key k then k ∷ [] else [])
      ++ (collect_forbidden budget v ++ collect_fields budget fs)

abbrev pub none_collected : List Text → Result Error Unit
none_collected [] = ok tt
none_collected (k ∷ ks) = err research_authority_violation

-- `assertResearchCannotMutateAuthority`
unfoldable pub assert_research_cannot_mutate_authority : Json → Result Error Unit
assert_research_cannot_mutate_authority v = none_collected (collect_forbidden 7 v)
