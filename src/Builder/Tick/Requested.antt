-- ===== src/Builder/Tick/Requested.antt =====
-- Which reviews make a tick repair a task (`findChangesRequestedWork`, src/builder/tick.js).
use jarvis_agencyos.Base.{◌≡◌, refl, Option, none, some, List, [], ◌∷◌, find, ◌==◌, select}
use jarvis_agencyos.Exec.{Result, ok, err, lift, pure, if_some, ◌>>=◌}
use jarvis_agencyos.Builder.State.{Task, Candidate, Review, Builder, Action, Error}
use jarvis_agencyos.Builder.Store.{list_tasks, list_candidates_for_task, list_reviews_for_candidate}
use jarvis_agencyos.Builder.Tick.{
  GithubReview, first_found, open_tasks, handed_over, requests_changes, requested_in,
  stored_requests, find_changes_requested_work,
}

-- The action finds nothing and changes nothing.
abbrev FindsNothing : {A : Type 0} → Action (Option A) → Type 0
FindsNothing m = (s : Builder) → m s ≡ (ok none, s)

first_found-nothing :
    {A B : Type 0} (xs : List A) (look : A → Action (Option B))
    → ((x : A) → FindsNothing (look x))
    → FindsNothing (first_found xs look)
unfolding first_found ◌>>=◌
first_found-nothing [] look k s = refl
first_found-nothing (x ∷ xs) look k s = rw (k x s) (first_found-nothing xs look k s)

none_requests : (reviews : List Review) → find requests_changes reviews ≡ none
none_requests [] = refl
none_requests (r ∷ rs) = none_requests rs

requested_in-nothing : (task : Task) (c : Candidate) → FindsNothing (requested_in task c)
unfolding requested_in list_reviews_for_candidate ◌>>=◌
requested_in-nothing task c s =
    rw (none_requests (select (λ r. r.candidate_id == c.candidate_id) s.reviews)) refl

stored_requests-nothing : FindsNothing stored_requests
unfolding stored_requests open_tasks list_tasks list_candidates_for_task ◌>>=◌
stored_requests-nothing s = first_found-nothing _ _ in_task s
  where
    in_task :
        (task : Task)
        → FindsNothing (
            list_candidates_for_task task.task_id >>= λ candidates.
            first_found candidates (requested_in task))
    in_task task t = first_found-nothing _ _ (requested_in-nothing task) t

module _ {A : Type 0} (rest : Action (Option A)) (nothing : FindsNothing rest) where
  settled :
      (r : Result Error (Option A)) (s : Builder)
      → (lift r >>= λ found. if_some found (λ a. pure (some a)) rest) s ≡ (r, s)
  unfolding ◌>>=◌
  settled (ok none) s = nothing s
  settled (ok (some a)) s = refl
  settled (err e) s = refl

  found_before :
      (m : Action (Option A)) (s : Builder)
      → (m >>= λ found. if_some found (λ a. pure (some a)) rest) s ≡ m s
  unfolding ◌>>=◌
  found_before m s = let (r, t) = m s in settled r t

-- The search for requested changes answers and changes what its first loop, over the reviews that the
-- trigger hands over, answers and changes: no stored review, of whatever status, makes it find work.
pub find_changes_requested_work-handed_over :
    (reviews : List GithubReview) (s : Builder)
    → find_changes_requested_work reviews s ≡ first_found reviews handed_over s
unfolding find_changes_requested_work
find_changes_requested_work-handed_over reviews s =
    found_before stored_requests stored_requests-nothing (first_found reviews handed_over) s
