-- ===== src/Builder/Leases/Claims.antt =====
-- Claims of logical work (`claimLogicalWork`, src/builder/store.js).
use jarvis_agencyos.Base.{
  ℕ, ◌≡◌, refl, sym, ap, subst, ◌∙◌, true, Option, none, some, [], ◌∷◌, ◌++◌, leb, arith, ==_self,
  find-append_none,
}
use jarvis_agencyos.Exec.{ok, ◌>>=◌}
use jarvis_agencyos.Exec.Returns.{ok-injective}
use jarvis_agencyos.Exec.Keeps.{Keeps, keeps_rules}
use jarvis_agencyos.Exec.Does.{
  Does, Does-weaken, Does-implies, Does-pure, Does-know, Does-raise, Does-if_some, Does-Keeps,
  Does-bind, Does-gets, Does-lift, Does-some, Does-require, Does-modify, Does-catch,
}
use jarvis_agencyos.Builder.Contracts.{Runtime, is_draft}
use jarvis_agencyos.Builder.State.{Task, Builder, Error, unique_violation}
use jarvis_agencyos.Builder.Store.{find_task, get_task, insert_task}
use jarvis_agencyos.Builder.Lock.{
  OwnerIntent, id_or_new, create_draft_task, lock_task, create_and_lock_task,
}
use jarvis_agencyos.Builder.Lock.Binding.{locked_row, lock_task-ok, lock_task-row}
use jarvis_agencyos.Builder.Frame.Tasks.{append_event-tasks}
use jarvis_agencyos.Builder.Leases.{
  Claimed, claimed, already_claimed, find_claimed, get_task_by_logical_work_id, transaction,
  check_and_claim, clash_of_work, on_unique, claim_logical_work,
}
use jarvis_agencyos.Builder.Leases.Transactions.{Unwritten, Does-transaction, transaction-throws}

module _ (id : ℕ) where
  abbrev Free : Builder → Type 0
  Free s = find_task id s.tasks ≡ none

  -- A draft row that may be locked.
  abbrev Lockable : Task → Type 0
  Lockable t =
      (t.task_id ≡ id)
      × (is_draft t.status ≡ true)
      × (leb 1 t.intent_version ≡ true)
      × (leb 1 t.max_attempts ≡ true)

  abbrev Stands : Task → Builder → Type 0
  Stands t s = find_task id s.tasks ≡ some t

  insert_task-Stands :
      (t : Task)
      → t.task_id ≡ id
      → is_draft t.status ≡ true
      → Does Free (λ a s. Lockable a × Stands a s) (insert_task t)
  unfolding insert_task
  insert_task-Stands t own d = Does-gets _ _ λ taken. Does-require _ _ _ λ _.
      Does-require _ _ _ λ valid.
        Does-modify {M = Stands t} (λ s. record s { tasks = s.tasks ++ (t ∷ []) }) _
          (λ s q. find-append_none _ s.tasks (t ∷ []) q.0 ∙ rw (own, ==_self id) refl)
          (Does-pure t (λ s q. ((own, d, ground arith, ground arith), q)))

  lock_task-Stands :
      (env : Runtime) (t : Task) → Lockable t → Does (Stands t) Stands (lock_task env t.task_id)
  lock_task-Stands env t l = record {
    at = λ s q a h.
        let found : find_task t.task_id s.tasks ≡ some t = ap (λ i. find_task i s.tasks) l.0 ∙ q in
        let row : locked_row env s t ≡ a =
          ok-injective (sym (lock_task-ok env s t found l.1 l.2 l.3) ∙ h) in
        subst (λ i. find_task i (lock_task env t.task_id s).1.tasks ≡ some a) l.0
          (lock_task-row env s t found l.1 l.2 l.3 ∙ ap some row);
  }

  module _ (env : Runtime) (input : OwnerIntent) (given : input.task_id ≡ some id) where
    id_or_new-given : Does Free (λ i s. (i ≡ id) × Free s) (id_or_new input.task_id)
    unfolding id_or_new
    id_or_new-given = rw given (Does-pure _ (λ s q. (refl, q)))

    create_draft_task-Stands : Does Free (λ t s. Lockable t × Stands t s) (create_draft_task input)
    unfolding create_draft_task
    create_draft_task-Stands = Does-lift _ _ λ n _. Does-bind _ _ id_or_new-given λ i.
        Does-know _ (λ s q. q.0)
          λ same. Does-gets _ _ λ time.
            Does-bind _ _ (Does-weaken _ (λ s q. q.0.1) (insert_task-Stands _ same refl)) λ t.
              Does-bind _ _
                (Does-Keeps _
                  (append_event-tasks (λ ts. Lockable t × (find_task id ts ≡ some t)) _ _ _ _))
                λ _. Does-pure t (λ s q. q)

    create_and_lock_task-Stands : Does Free Stands (create_and_lock_task env input)
    unfolding create_and_lock_task
    create_and_lock_task-Stands =
        Does-bind _ _ create_draft_task-Stands
          λ t. Does-know _ (λ s q. q.0) λ l. Does-weaken _ (λ s q. q.1) (lock_task-Stands env t l)

get_task_by_logical_work_id-Keeps :
    {Inv : Builder → Type 0} (o : Option ℕ) → Keeps Inv (get_task_by_logical_work_id o)
unfolding get_task_by_logical_work_id
get_task_by_logical_work_id-Keeps none = search keeps_rules
get_task_by_logical_work_id-Keeps (some id) = search keeps_rules

module _ (env : Runtime) (input : OwnerIntent) (s : Builder) where
  abbrev Start : Builder → Type 0
  Start t = t ≡ s

  -- No row stands in the way of the identifier asked for.
  abbrev Nothing : Option Task → Type 0
  Nothing o = o ≡ none → (id : ℕ) × (input.task_id ≡ some id) × (find_task id s.tasks ≡ none)

  some≢none : {t : Task} → ◌≡◌ {A = Option Task} (some t) none → ⊥
  some≢none h = cc

  find_claimed-Start : Does Start (λ o t. Start t × Nothing o) (find_claimed input)
  unfolding find_claimed get_task
  find_claimed-Start = Does-some _ _ _ λ id given. Does-gets _ _ λ row.
      Does-if_some _ _ _ (λ u e. Does-pure _ (λ t q. (q.0, λ h. absurd (some≢none h))))
        λ e.
          Does-know _ (λ t q. ap (λ u. find_task id u.tasks) (sym q.0) ∙ q.1 ∙ e)
            λ free.
              Does-implies _ (λ o t q. (q, λ h. (id, given, free)))
                (Does-weaken _ (λ t q. q.0)
                  (Does-Keeps _ (get_task_by_logical_work_id-Keeps input.logical_work_id)))

  unwritten : (t : Builder) → Start t → Unwritten s t
  unwritten t q = subst (Unwritten s) (sym q) refl

  -- A task that was claimed stands in the table; otherwise nothing was written.
  abbrev Outcome : Claimed → Builder → Type 0
  Outcome (claimed t) s' = (id : ℕ) × (input.task_id ≡ some id) × Stands id t s'
  Outcome (already_claimed o) s' = Unwritten s s'

  check_and_claim-outcome : Does Start Outcome (check_and_claim env input)
  unfolding check_and_claim
  check_and_claim-outcome = Does-bind _ _ find_claimed-Start λ o.
      Does-if_some _ _ _ (λ u e. Does-pure _ (λ t q. unwritten t q.0))
        λ e.
          Does-know _ (λ t q. q.1 e)
            λ free.
              let (id, given, none_there) = free in
              Does-bind _ _
                (Does-weaken _ (λ t q. ap (λ u. find_task id u.tasks) q.0 ∙ none_there)
                  (create_and_lock_task-Stands id env input given))
                λ t. Does-pure _ (λ u q. (id, given, q))

  find_claimed-Unwritten : Keeps (Unwritten s) (find_claimed input)
  unfolding find_claimed get_task
  find_claimed-Unwritten = search (keeps_rules, get_task_by_logical_work_id-Keeps) depth 20

  clash-outcome : (e : Error) → Does (Unwritten s) Outcome (on_unique (clash_of_work env input) e)
  unfolding clash_of_work
  clash-outcome unique_violation =
      Does-bind _ _ (Does-Keeps _ find_claimed-Unwritten) λ o. Does-pure _ (λ t q. q)
  clash-outcome _ = Does-raise _

  claim_logical_work-outcome : Does Start Outcome (claim_logical_work env input)
  unfolding claim_logical_work
  claim_logical_work-outcome =
      Does-catch _ _ (Does-transaction _ check_and_claim-outcome)
        (λ t q e h.
          subst (λ u. Unwritten u (transaction (check_and_claim env input) t).1) q
            (transaction-throws _ t e h))
        clash-outcome

second_claim :
    (env : Runtime) (input : OwnerIntent) (s : Builder) (id : ℕ) (t : Task)
    → input.task_id ≡ some id
    → find_task id s.tasks ≡ some t
    → claim_logical_work env input s ≡ (ok (already_claimed (some t)), s)
unfolding claim_logical_work check_and_claim find_claimed transaction get_task ◌>>=◌
second_claim env input s id t given found =
    rw (claim_logical_work, check_and_claim, find_claimed, given, get_task, found) refl

-- Claims are idempotent: once a claim has made a task, the same claim is answered ALREADY_CLAIMED
-- with that task and changes nothing.
pub claim_logical_work-again :
    (env : Runtime) (input : OwnerIntent) (s : Builder) (t : Task)
    → (claim_logical_work env input s).0 ≡ ok (claimed t)
    → let s' = (claim_logical_work env input s).1 in
      claim_logical_work env input s' ≡ (ok (already_claimed (some t)), s')
claim_logical_work-again env input s t h =
    let (id, given, found) = (claim_logical_work-outcome env input s).at s refl (claimed t) h in
    second_claim env input (claim_logical_work env input s).1 id t given found
