-- ===== src/Builder/Leases/Insertion.antt =====
-- What tryInsertActiveRun writes (src/builder/store.js).
use jarvis_agencyos.Base.{
  ℕ, ◌==◌, ◌≡◌, refl, subst, ap, sym, ◌∙◌, Bool, true, false, not, Option, none, some, List, [],
  ◌∷◌, ◌++◌, Text, arith, first, select, select-append, ==_self, text_eq, text_eq_sound,
  find-append_none, find-update_row,
}
use jarvis_agencyos.Exec.{ok}
use jarvis_agencyos.Exec.Keeps.{Keeps, Keeps-modify, keeps_rules}
use jarvis_agencyos.Exec.Does.{
  Does, Does-weaken, Does-pure, Does-know, Does-raise, Does-if_some, Does-Keeps, Does-bind,
  Does-gets, Does-if, Does-require, Does-modify, Does-modify_last, Does-catch,
}
use jarvis_agencyos.Builder.Contracts.{RunStatus, is_active}
use jarvis_agencyos.Builder.State.{Run, Lease, Builder, Error, unique_violation}
use jarvis_agencyos.Builder.Store.{
  new_id, get_run, insert_run, list_active_runs, list_runs_for_task,
}
use jarvis_agencyos.Builder.Lock.{id_or_new}
use jarvis_agencyos.Builder.Leases.{
  NewRun, RefusedRun, Inserted, inserted, not_inserted, active_coding_lease_key, find_lease,
  held_by, get_control_lease, insert_lease, write_lease, bind_lease, run_of_lease, add_active_run,
  transaction, check_and_insert, clash_of_runs, try_insert_active_run, on_unique,
}
use jarvis_agencyos.Builder.Leases.Transactions.{Unwritten, Does-transaction, transaction-throws}

-- The active runs of one task.
abbrev pub active_of : ℕ → Builder → List Run
active_of task_id s = select (λ r. is_active r.status) (select (λ r. r.task_id == task_id) s.runs)

-- The lease of the active coding run.
abbrev pub coding_lease : Builder → Option Lease
coding_lease s = find_lease active_coding_lease_key s.leases

-- The lease is the owner's, and names the run.
abbrev pub Leased : Text → ℕ → ℕ → Option Lease → Type 0
Leased owner task_id run_id o =
    (l : Lease) × (o ≡ some l)
    × (l.owner ≡ owner)
    × (l.task_id ≡ some task_id)
    × (l.factory_run_id ≡ some run_id)

module _ (rs : List Run) (ls : List Lease) where
  abbrev Rows : Builder → Type 0
  Rows s = (s.runs ≡ rs) × (s.leases ≡ ls)

  same-Rows : (s : Builder) → Rows s → Rows s
  same-Rows s h = h

  id_or_new-Rows : (id : Option ℕ) → Keeps Rows (id_or_new id)
  unfolding id_or_new new_id
  id_or_new-Rows none = search (keeps_rules, Keeps-modify, same-Rows) depth 20
  id_or_new-Rows (some id) = search keeps_rules

insert_run-Rows :
    (rs : List Run) (ls : List Lease) (r : Run)
    → Does (Rows rs ls) (λ a s. (a ≡ r) × Rows (rs ++ (r ∷ [])) ls s) (insert_run r)
unfolding insert_run
insert_run-Rows rs ls r = Does-gets _ _ λ taken. Does-require _ _ _ λ _. Does-gets _ _ λ known.
    Does-require _ _ _ λ _. Does-require _ _ _ λ _.
      Does-modify (λ s. record s { runs = s.runs ++ (r ∷ []) }) _
        (λ s q. (ap (λ qs. qs ++ (r ∷ [])) q.0.0.0, q.0.0.1)) (Does-pure r (λ s q. (refl, q)))

module _ (owner : Text) (task_id run_id : ℕ) (rs : List Run) (ls : List Lease) where
  abbrev Bound : Builder → Type 0
  Bound s = (s.runs ≡ rs) × Leased owner task_id run_id (coding_lease s)

  write_lease-Bound :
      (l : Lease)
      → find_lease active_coding_lease_key ls ≡ some l
      → text_eq l.owner owner ≡ true
      → Does
          (Rows rs ls)
          (λ _. Bound)
          (write_lease active_coding_lease_key (some task_id) (some run_id))
  unfolding write_lease
  write_lease-Bound l found own = Does-modify_last _ λ s q. (
    q.0,
    (
      _,
      find-update_row _ _ s.leases l (λ x h. h)
          (ap (find_lease active_coding_lease_key) q.1 ∙ found),
      text_eq_sound l.owner owner own,
      refl,
      refl,
    ),
  )

  abbrev lease_at : ℕ → Lease
  lease_at time = record {
    lease_key = active_coding_lease_key;
    owner = owner;
    task_id = some task_id;
    factory_run_id = some run_id;
    acquired_at = time;
  }

  insert_lease-Bound :
      (time : ℕ)
      → find_lease active_coding_lease_key ls ≡ none
      → Does (λ s. Rows rs ls s × (s.now ≡ time)) (λ _. Bound) (insert_lease (lease_at time))
  unfolding insert_lease
  insert_lease-Bound time free = Does-gets _ _ λ taken. Does-require _ _ _ λ _.
      Does-modify_last _ λ s q. (
        q.0.0.0,
        (
          lease_at time,
          find-append_none _ s.leases (lease_at time ∷ [])
              (ap (find_lease active_coding_lease_key) q.0.0.1 ∙ free),
          refl,
          refl,
          refl,
        ),
      )

  bind_lease-Bound :
      (lease : Option Lease)
      → find_lease active_coding_lease_key ls ≡ lease
      → held_by owner lease ≡ true
      → Does (Rows rs ls) (λ _. Bound) (bind_lease lease owner task_id run_id)
  unfolding bind_lease
  bind_lease-Bound none free own = Does-gets _ _ λ time. insert_lease-Bound time free
  bind_lease-Bound (some l) found own = rw own (write_lease-Bound l found own)

-- What an insertion finds and leaves, when it inserts and when it does not.
abbrev pub Outcome : ℕ → Text → Builder → Inserted → Builder → Type 0
Outcome task_id owner s (inserted r) s' =
    (active_of task_id s ≡ [])
    × (held_by owner (coding_lease s) ≡ true)
    × (r.task_id ≡ task_id)
    × (r.status ≡ RunStatus.pending)
    × (s'.runs ≡ s.runs ++ (r ∷ []))
    × Leased owner task_id r.factory_run_id (coding_lease s')
Outcome task_id owner s (not_inserted why run) s' = Unwritten s s'

not-false : {b : Bool} → not b ≡ false → b ≡ true
not-false {b} h = ground arith

first-none : (rs : List Run) → first rs ≡ none → rs ≡ []
first-none [] h = refl
first-none (r ∷ rs) h = ground arith

module _ (task_id : ℕ) (provider owner : Text) (given : NewRun) (s : Builder) where
  abbrev After : Inserted → Builder → Type 0
  After = Outcome task_id owner s

  add_active_run-outcome :
      (lease : Option Lease)
      → coding_lease s ≡ lease
      → held_by owner lease ≡ true
      → active_of task_id s ≡ []
      → Does (Rows s.runs s.leases) After (add_active_run task_id provider owner given lease)
  unfolding add_active_run list_runs_for_task
  add_active_run-outcome lease found own idle = Does-gets _ _ λ existing.
      Does-bind _ _
        (Does-weaken _ (λ t q. q.0)
          (Does-Keeps _ (id_or_new-Rows s.runs s.leases given.factory_run_id)))
        λ id. Does-gets _ _ λ time.
          Does-bind _ _ (Does-weaken _ (λ t q. q.0) (insert_run-Rows s.runs s.leases _)) λ r.
            Does-know _ (λ t q. q.0)
              λ same.
                Does-bind _ _
                  (Does-weaken _ (λ t q. q.1)
                    (bind_lease-Bound owner task_id r.factory_run_id (s.runs ++ (_ ∷ [])) s.leases
                      lease found own))
                  λ _. Does-pure _ (λ t q. (
                    idle,
                    ap (held_by owner) found ∙ own,
                    ap (λ x. x.task_id) same,
                    ap (λ x. x.status) same,
                    q.0 ∙ ap (λ x. s.runs ++ (x ∷ [])) (sym same),
                    q.1,
                  ))

  abbrev Start : Builder → Type 0
  Start t = t ≡ s

  unwritten : (t : Builder) → Start t → Unwritten s t
  unwritten t q = subst (Unwritten s) (sym q) refl

  run_of_lease-Start : (lease : Option Lease) → Keeps Start (run_of_lease lease)
  unfolding run_of_lease list_active_runs get_run
  run_of_lease-Start none = search keeps_rules
  run_of_lease-Start (some l) = search keeps_rules

  facts :
      (t : Builder) (runs : List Run)
      → Start t
      → select (λ r. r.task_id == task_id) t.runs ≡ runs
      → first (select (λ r. is_active r.status) runs) ≡ none
      → active_of task_id s ≡ []
  facts t runs start read idle =
      ap (active_of task_id) (sym start)
      ∙ ap (select (λ r. is_active r.status)) read
      ∙ first-none _ idle

  body-outcome : Does Start After (check_and_insert task_id provider owner given)
  unfolding check_and_insert get_control_lease list_runs_for_task
  body-outcome = Does-gets _ _ λ lease.
      Does-if (not (held_by owner lease)) _ _
        (λ other.
          Does-bind _ _ (Does-weaken _ (λ t q. q.0) (Does-Keeps _ (run_of_lease-Start lease)))
            λ r. Does-pure _ (λ t q. unwritten t q))
        (λ own. Does-gets _ _ λ runs.
          Does-if_some _ _ _ (λ r e. Does-pure _ (λ t q. unwritten t q.0.0))
            λ idle.
              Does-know _ (λ t q. ap coding_lease (sym q.0.0) ∙ q.0.1)
                λ found.
                  Does-know _ (λ t q. facts t runs q.0.0 q.1 idle)
                    λ none_active.
                      Does-weaken _ (λ t q. (ap (λ u. u.runs) q.0.0, ap (λ u. u.leases) q.0.0))
                        (add_active_run-outcome lease found (not-false own) none_active))

  clash-outcome : (e : Error) → Does (Unwritten s) After (on_unique (clash_of_runs task_id) e)
  unfolding clash_of_runs list_active_runs list_runs_for_task
  clash-outcome unique_violation =
      Does-gets _ _ λ active. Does-gets _ _ λ runs. Does-pure _ λ t q. q.0.0
  clash-outcome _ = Does-raise _

  -- What is returned and what was written, on every branch.
  try_insert-outcome : Does Start After (try_insert_active_run task_id provider owner given)
  unfolding try_insert_active_run
  try_insert-outcome =
      Does-catch _ _ (Does-transaction _ body-outcome)
        (λ t q e h.
          subst (λ u. Unwritten u (transaction (check_and_insert task_id provider owner given) t).1)
            q (transaction-throws _ t e h))
        clash-outcome

-- The run that was inserted is then the only active one of its task.
only_active_of :
    (task_id : ℕ) (s s' : Builder) (r : Run)
    → active_of task_id s ≡ []
    → r.task_id ≡ task_id
    → r.status ≡ RunStatus.pending
    → s'.runs ≡ s.runs ++ (r ∷ [])
    → active_of task_id s' ≡ r ∷ []
only_active_of task_id s s' r idle own p e =
    let of_task : select (λ q. q.task_id == task_id) (r ∷ []) ≡ r ∷ [] =
      rw (own, ==_self task_id) refl in
    let is_on : select (λ q. is_active q.status) (r ∷ []) ≡ r ∷ [] = simp p in
    rw
      (
        e,
        select-append (λ q. q.task_id == task_id) s.runs (r ∷ []),
        of_task,
        select-append (λ q. is_active q.status) (select (λ q. q.task_id == task_id) s.runs)
            (r ∷ []),
        idle,
        is_on,
      )
      refl

module _ (s : Builder) (task_id : ℕ) (provider owner : Text) (given : NewRun) where
  -- A run is inserted only when the task has no active run and no other owner holds the coding
  -- lease. It is appended to the table as the only active run of its task, and the coding lease is
  -- then the caller's and names it.
  pub try_insert_active_run-inserted :
      (r : Run)
      → (try_insert_active_run task_id provider owner given s).0 ≡ ok (inserted r)
      → let s' = (try_insert_active_run task_id provider owner given s).1 in
        (active_of task_id s ≡ [])
        × (held_by owner (coding_lease s) ≡ true)
        × (s'.runs ≡ s.runs ++ (r ∷ []))
        × (active_of task_id s' ≡ r ∷ [])
        × Leased owner task_id r.factory_run_id (coding_lease s')
  try_insert_active_run-inserted r h =
      let (idle, own, task, p, e, leased) =
        (try_insert-outcome task_id provider owner given s).at s refl (inserted r) h in
      (
        idle,
        own,
        e,
        only_active_of task_id s (try_insert_active_run task_id provider owner given s).1 r idle
            task p e,
        leased,
      )

  -- An insertion that is refused, whichever the reason, has written no row at all.
  pub try_insert_active_run-not_inserted :
      (why : RefusedRun) (found : Option Run)
      → (try_insert_active_run task_id provider owner given s).0 ≡ ok (not_inserted why found)
      → Unwritten s (try_insert_active_run task_id provider owner given s).1
  try_insert_active_run-not_inserted why found h =
      (try_insert-outcome task_id provider owner given s).at s refl (not_inserted why found) h
