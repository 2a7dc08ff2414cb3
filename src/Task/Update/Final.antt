-- ===== src/Task/Update/Final.antt =====
-- The updates that end a task: when they are accepted, and what they write.
use hwmgmt_device_mgr_device.Base.{String, ◌≡◌, refl, ◌≢◌, ◌⊎◌, inl, inr, arith, eq_iff, ap, ◌∙◌}
use hwmgmt_device_mgr_device.Base.Exec.{ok, Outcome-ok}
use hwmgmt_device_mgr_device.Task.Model.{Task, UpdateTaskRequest}
use hwmgmt_device_mgr_device.Task.Update.Apply.{Case, case_of, Change, apply_case, apply_update}
use hwmgmt_device_mgr_device.Task.Update.Rules.{Admits, apply_update-Admits, Admits-apply_update}

-- The statuses with which each of the four final states may be entered.
abbrev pub MayEnd : String → String → Type 0
MayEnd state status =
    ((state ≡ "Completed") × ((status ≡ "Critical") ⊎ ((status ≡ "Warning") ⊎ (status ≡ "OK"))))
    ⊎ (((state ≡ "Killed") ⊎ ((state ≡ "Cancelled") ⊎ (state ≡ "Exception")))
        × ((status ≡ "Critical") ⊎ (status ≡ "Warning")))

abbrev pub IsFinal : String → Type 0
IsFinal state =
    (state ≡ "Completed") ⊎ ((state ≡ "Killed") ⊎ ((state ≡ "Cancelled") ⊎ (state ≡ "Exception")))

-- What a final update writes.
pub record Ended (r : UpdateTaskRequest) (t : Task) : Type 0 where
  pub task_state : t.task_state ≡ r.task_state
  pub task_status : t.task_status ≡ r.task_status
  pub end_time : t.end_time ≡ r.end_time
  pub percent_complete : t.percent_complete ≡ r.percent_complete

case_of-completed : case_of "Completed" ≡ Case.completed
unfolding case_of
case_of-completed = refl

module _ (r : UpdateTaskRequest) (t : Task) where
  completed-Ended :
      {c : Change}
      → apply_case Case.completed r t ≡ ok c
      → Ended r c.task
        × (r.end_time ≢ 0)
        × ((r.task_status ≡ "Critical") ⊎ ((r.task_status ≡ "Warning") ⊎ (r.task_status ≡ "OK")))
  unfolding apply_case
  completed-Ended h = ground (
    arith,
    eq_iff r.task_status "Critical",
    eq_iff r.task_status "Warning",
    eq_iff r.task_status "OK",
  )

  -- The three final states that report a failure.
  data Failing : Case → Type 0 where
    killed : Failing Case.killed
    cancelled : Failing Case.cancelled
    exception : Failing Case.exception

  failing-Ended :
      {k : Case} {c : Change}
      → Failing k
      → apply_case k r t ≡ ok c
      → Ended r c.task
        × (r.end_time ≢ 0)
        × ((r.task_status ≡ "Critical") ⊎ (r.task_status ≡ "Warning"))
  unfolding apply_case
  failing-Ended killed h =
      ground (arith, eq_iff r.task_status "Critical", eq_iff r.task_status "Warning")
  failing-Ended cancelled h =
      ground (arith, eq_iff r.task_status "Critical", eq_iff r.task_status "Warning")
  failing-Ended exception h =
      ground (arith, eq_iff r.task_status "Critical", eq_iff r.task_status "Warning")

  completed-accepted :
      (r.task_status ≡ "Critical") ⊎ ((r.task_status ≡ "Warning") ⊎ (r.task_status ≡ "OK"))
      → r.end_time ≢ 0
      → (c : Change) × (apply_case Case.completed r t ≡ ok c)
  unfolding apply_case
  completed-accepted s e =
      Outcome-ok (apply_case Case.completed r t)
        (λ x h. ground (
          arith,
          eq_iff r.task_status "Critical",
          eq_iff r.task_status "Warning",
          eq_iff r.task_status "OK",
        ))
        (λ x h. ground arith)

  failing-accepted :
      {k : Case}
      → Failing k
      → (r.task_status ≡ "Critical") ⊎ (r.task_status ≡ "Warning")
      → r.end_time ≢ 0
      → (c : Change) × (apply_case k r t ≡ ok c)
  unfolding apply_case
  failing-accepted killed s e =
      Outcome-ok (apply_case Case.killed r t)
        (λ x h. ground (arith, eq_iff r.task_status "Critical", eq_iff r.task_status "Warning"))
        (λ x h. ground arith)
  failing-accepted cancelled s e =
      Outcome-ok (apply_case Case.cancelled r t)
        (λ x h. ground (arith, eq_iff r.task_status "Critical", eq_iff r.task_status "Warning"))
        (λ x h. ground arith)
  failing-accepted exception s e =
      Outcome-ok (apply_case Case.exception r t)
        (λ x h. ground (arith, eq_iff r.task_status "Critical", eq_iff r.task_status "Warning"))
        (λ x h. ground arith)

  case_of-Failing :
      (r.task_state ≡ "Killed") ⊎ ((r.task_state ≡ "Cancelled") ⊎ (r.task_state ≡ "Exception"))
      → Failing (case_of r.task_state)
  unfolding case_of
  case_of-Failing (inl e) = rw e killed
  case_of-Failing (inr (inl e)) = rw e cancelled
  case_of-Failing (inr (inr e)) = rw e exception

  Failing-MayEnd :
      {k : Case} {c : Change}
      → (r.task_state ≡ "Killed") ⊎ ((r.task_state ≡ "Cancelled") ⊎ (r.task_state ≡ "Exception"))
      → Failing k
      → apply_case k r t ≡ ok c
      → MayEnd r.task_state r.task_status × (r.end_time ≢ 0) × Ended r c.task
  Failing-MayEnd states f h = let (e, n, s) = failing-Ended f h in (inr (states, s), n, e)

  -- A task is ended only with a status that goes with its final state and with an end time, and the
  -- status, the end time and the progress of the request are what it then holds.
  pub final-ok :
      {c : Change}
      → IsFinal r.task_state
      → apply_update r t ≡ ok c
      → MayEnd r.task_state r.task_status × (r.end_time ≢ 0) × Ended r c.task
  final-ok (inl s) h =
      let k = (apply_update-Admits r t h).1 in
      let (e, n, st) = completed-Ended (rw (ap case_of s ∙ case_of-completed) at k) in
      (inl (s, st), n, e)
  final-ok (inr s) h = Failing-MayEnd s (case_of-Failing s) (apply_update-Admits r t h).1

  -- Conversely, a task that may still change is ended by every request that has a status which goes
  -- with its final state and an end time.
  pub final-accepted :
      Admits r t
      → MayEnd r.task_state r.task_status
      → r.end_time ≢ 0
      → (c : Change) × (apply_update r t ≡ ok c)
  final-accepted a (inl (s, st)) n =
      rw (Admits-apply_update r t a)
        (rw (ap case_of s ∙ case_of-completed) (completed-accepted st n))
  final-accepted a (inr (s, st)) n =
      rw (Admits-apply_update r t a) (failing-accepted (case_of-Failing s) st n)
