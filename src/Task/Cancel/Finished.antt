-- ===== src/Task/Cancel/Finished.antt =====
-- What `taskCancelCallBack`, `deleteCompletedTask` and `asyncTaskDelete` have achieved when they end.
use hwmgmt_device_mgr_device.Base.{
  String, ◌≡◌, refl, ap, ◌∙◌, ◌≢◌, inl, inr, false, none, some, List, [], ◌∷◌, ◌==◌, arith, eq_iff,
  eq_refl, Bool-cases, ◌++◌, sym,
}
use hwmgmt_device_mgr_device.Base.Exec.{Outcome, ok, err, panic, bind-ok, pure, ◌>>◌, then-ok}
use hwmgmt_device_mgr_device.Task.Model.{Task, cancelling}
use hwmgmt_device_mgr_device.Task.Service.{TasksRpc, TaskStore, Store, put, remove}
use hwmgmt_device_mgr_device.Task.Cancel.Operations.{
  Poll, ignore, settled, delete_sub_tasks, delete_completed_task, cancel_task, cancel_sub_tasks,
  cancel_stored, task_cancel_call_back, poll, async_task_delete,
}
use hwmgmt_device_mgr_device.Task.Cancel.Narrowed.{as_cancelling}

module _ (ts : TasksRpc) (st : TaskStore ts) where
  abbrev after_get : String → ts.World → ts.World
  after_get id w = (ts.get_task_status_model id w).1

  removed :
      (id : String) (w : ts.World) {t : Task}
      → (ts.get_task_status_model id w).0 ≡ ok t
      → (ts.delete_task_from_db_model t (after_get id w)).0 ≡ ok tt
      → st.tasks (ts.delete_task_from_db_model t (after_get id w)).1 ≡ remove id (st.tasks w)
  removed id w {t} h d =
      st.delete-ok t (after_get id w) d
      ∙ ap (λ k. remove k (st.tasks (after_get id w))) (st.get-id id w h)
      ∙ ap (remove id) (st.get-tasks id w)

  poll-unread :
      (id : String) (w : ts.World)
      → ((t : Task) → (ts.get_task_status_model id w).0 ≢ ok t)
      → (poll ts id w).0 ≢ ok Poll.again
  unfolding poll
  poll-unread id w n = from_read (ts.get_task_status_model id w).0 refl
    where
      from_read :
          (o : Outcome String Task)
          → (ts.get_task_status_model id w).0 ≡ o
          → (poll ts id w).0 ≢ ok Poll.again
      from_read (ok t) e = absurd (n t e)
      from_read (err x) e = rw e (λ k. cc)
      from_read (panic x) e = rw e (λ k. cc)

  poll-running :
      (id : String) (w : ts.World) {t : Task}
      → (ts.get_task_status_model id w).0 ≡ ok t
      → t.task_state ≢ "Cancelled"
      → poll ts id w ≡ (ok Poll.again, after_get id w)
  unfolding poll
  poll-running id w {t} h n = elim (Bool-cases (t.task_state == "Cancelled")) [
    | inl hit ↦ absurd (n ((eq_iff t.task_state "Cancelled").0 hit))
    | inr miss ↦ rw (h, miss)
  ]

  poll-cancelled :
      (id : String) (w : ts.World) {t : Task}
      → (ts.get_task_status_model id w).0 ≡ ok t
      → t.task_state ≡ "Cancelled"
      → poll ts id w ≡ (ignore (ts.delete_task_from_db_model t) >> pure Poll.done) (after_get id w)
  unfolding poll
  poll-cancelled id w h s = rw (h, s)

  poll-again :
      (id : String) (w : ts.World)
      → (poll ts id w).0 ≡ ok Poll.again
      → (t : Task) × (st.tasks (poll ts id w).1 id ≡ some t) × (t.task_state ≢ "Cancelled")
  poll-again id w h = from_read (ts.get_task_status_model id w).0 refl
    where
      not_done :
          (t : Task)
          → ((ignore (ts.delete_task_from_db_model t) >> pure Poll.done) (after_get id w)).0
            ≢ ok Poll.again
      not_done t k =
          let (_, _, e) = bind-ok (ignore (ts.delete_task_from_db_model t)) _ (after_get id w) k in
          cc

      from_read :
          (o : Outcome String Task)
          → (ts.get_task_status_model id w).0 ≡ o
          → (t : Task) × (st.tasks (poll ts id w).1 id ≡ some t) × (t.task_state ≢ "Cancelled")
      from_read (ok t) e = elim (Bool-cases (t.task_state == "Cancelled")) [
        | inl hit ↦
            absurd (
              not_done t
                (rw (poll-cancelled id w e ((eq_iff t.task_state "Cancelled").0 hit)) at h))
        | inr miss ↦
            let n : t.task_state ≢ "Cancelled" = ground (arith, eq_iff t.task_state "Cancelled") in
            (t, rw (poll-running id w e n) (rw (st.get-tasks id w) (st.get-ok id w e)), n)
      ]
      from_read (err x) e = absurd (poll-unread id w (λ t k. cc) h)
      from_read (panic x) e = absurd (poll-unread id w (λ t k. cc) h)

  -- Where the loop of `asyncTaskDelete` is still polling after some sleeps, whatever the rest of the
  -- system did during them, the task is stored and is not Cancelled.
  pub async_task_delete-again :
      (id : String) (sleeps : List (ts.World → ts.World)) (w : ts.World)
      → (async_task_delete ts id sleeps w).0 ≡ ok Poll.again
      → (t : Task) × (st.tasks (async_task_delete ts id sleeps w).1 id ≡ some t)
        × (t.task_state ≢ "Cancelled")
  unfolding async_task_delete
  async_task_delete-again id [] w h = poll-again id w h
  async_task_delete-again id (sleep ∷ sleeps) w h =
      from_poll (poll ts id w).0 refl (async_task_delete-again id sleeps (sleep (poll ts id w).1))
    where
      from_poll :
          (o : Outcome String Poll)
          → (poll ts id w).0 ≡ o
          → (let w' = sleep (poll ts id w).1 in
              (async_task_delete ts id sleeps w').0 ≡ ok Poll.again
              → (t : Task) × (st.tasks (async_task_delete ts id sleeps w').1 id ≡ some t)
                × (t.task_state ≢ "Cancelled"))
          → (t : Task) × (st.tasks (async_task_delete ts id (sleep ∷ sleeps) w).1 id ≡ some t)
            × (t.task_state ≢ "Cancelled")
      from_poll (ok Poll.again) e ih = rw e (ih (rw (e, async_task_delete) at h))
      from_poll (ok Poll.done) e ih = cc (rw (e, async_task_delete) at h)
      from_poll (err x) e ih = cc (rw (e, async_task_delete) at h)
      from_poll (panic x) e ih = cc (rw (e, async_task_delete) at h)

  async_task_delete-first :
      (id : String) (sleeps : List (ts.World → ts.World)) (w : ts.World)
      → (poll ts id w).0 ≡ ok Poll.done
      → async_task_delete ts id sleeps w ≡ poll ts id w
  unfolding async_task_delete
  async_task_delete-first id [] w h = refl
  async_task_delete-first id (sleep ∷ sleeps) w h =
      let e : poll ts id w ≡ (ok Poll.done, (poll ts id w).1) = λ i. (h i, (poll ts id w).1) in
      then-ok (poll ts id) _ w (poll ts id w).1 e ∙ sym e

  -- A loop that is still polling after some sleeps goes on with the next one.
  async_task_delete-resumed :
      (id : String) (before after : List (ts.World → ts.World)) (sleep : ts.World → ts.World)
      (w : ts.World)
      → (async_task_delete ts id before w).0 ≡ ok Poll.again
      → async_task_delete ts id (before ++ sleep ∷ after) w
        ≡ async_task_delete ts id after (sleep (async_task_delete ts id before w).1)
  unfolding async_task_delete
  async_task_delete-resumed id [] after sleep w h = rw h refl
  async_task_delete-resumed id (s ∷ before) after sleep w h =
      from_poll (poll ts id w).0 refl
        (async_task_delete-resumed id before after sleep (s (poll ts id w).1))
    where
      from_poll :
          (o : Outcome String Poll)
          → (poll ts id w).0 ≡ o
          → (let w' = s (poll ts id w).1 in
              (async_task_delete ts id before w').0 ≡ ok Poll.again
              → async_task_delete ts id (before ++ sleep ∷ after) w'
                ≡ async_task_delete ts id after (sleep (async_task_delete ts id before w').1))
          → async_task_delete ts id (s ∷ before ++ sleep ∷ after) w
            ≡ async_task_delete ts id after (sleep (async_task_delete ts id (s ∷ before) w).1)
      from_poll (ok Poll.again) e ih = rw e (ih (rw (e, async_task_delete) at h))
      from_poll (ok Poll.done) e ih = cc (rw (e, async_task_delete) at h)
      from_poll (err x) e ih = cc (rw (e, async_task_delete) at h)
      from_poll (panic x) e ih = cc (rw (e, async_task_delete) at h)

  -- Whatever has happened before, and whatever sleeps would be to come: where the loop of
  -- `asyncTaskDelete` is still polling, and the rest of the system leaves the task Cancelled during the
  -- next sleep, the loop ends with the round after that sleep, if the database then reads and deletes
  -- the task. The task is then gone, and all others are as that sleep left them.
  pub async_task_delete-remove :
      (id : String) (before after : List (ts.World → ts.World)) (sleep : ts.World → ts.World)
      (w : ts.World) {t : Task}
      → (async_task_delete ts id before w).0 ≡ ok Poll.again
      → let woken = sleep (async_task_delete ts id before w).1 in
        (ts.get_task_status_model id woken).0 ≡ ok t
        → t.task_state ≡ "Cancelled"
        → (ts.delete_task_from_db_model t (after_get id woken)).0 ≡ ok tt
        → let (o, w') = async_task_delete ts id (before ++ sleep ∷ after) w in
          (o ≡ ok Poll.done) × (st.tasks w' ≡ remove id (st.tasks woken))
  async_task_delete-remove id before after sleep w {t} polling h s d =
      let woken = sleep (async_task_delete ts id before w).1 in
      let ends : poll ts id woken
          ≡ (ok Poll.done, (ts.delete_task_from_db_model t (after_get id woken)).1) =
        poll-cancelled id woken h s ∙ (rw d refl) in
      let whole =
        async_task_delete-resumed id before after sleep w polling
        ∙ async_task_delete-first id after woken
            (ap (λ (z : Outcome String Poll × ts.World). z.0) ends)
        ∙ ends in
      (
        ap (λ (z : Outcome String Poll × ts.World). z.0) whole,
        ap (λ (z : Outcome String Poll × ts.World). st.tasks z.1) whole ∙ removed id woken h d,
      )

  delete_stored-lem :
      (id : String) (t : Task) (w : ts.World)
      → let deletion =
          delete_sub_tasks ts t.child_task_ids
          >> ts.delete_task_from_db_model t
          >> ts.delete_task_index id in
        (deletion w).0 ≡ ok tt
        → st.tasks (deletion w).1
          ≡ remove t.id (st.tasks (delete_sub_tasks ts t.child_task_ids w).1)
  delete_stored-lem id t w k =
      let children = delete_sub_tasks ts t.child_task_ids in
      let (_, e, _) = bind-ok (children >> ts.delete_task_from_db_model t) _ w k in
      let (_, e₁, e₂) = bind-ok children _ w e in
      rw (e₁, e₂) (st.index-tasks id _ ∙ st.delete-ok t (children w).1 e₂)

  put-at : (t : Task) (s : Store) (id : String) → t.id ≡ id → put t s id ≡ some t
  put-at t s id key = rw ((eq_iff t.id id).1 key)

  -- After a successful deletion of a task that could be read, the database no longer holds it.
  pub delete_completed_task-none :
      (id : String) (w : ts.World) {t : Task}
      → (ts.get_task_status_model id w).0 ≡ ok t
      → (delete_completed_task ts id w).0 ≡ ok tt
      → st.tasks (delete_completed_task ts id w).1 id ≡ none
  unfolding delete_completed_task
  delete_completed_task-none id w {t} h k = rw h (
      rw (delete_stored-lem id t (after_get id w) (rw (h, delete_completed_task) at k))
        (rw (st.get-id id w h, eq_refl id)))

  cancel_task-marked :
      (id : String) (t : Task) (w : ts.World)
      → t.id ≡ id
      → t.task_state ≢ "Cancelling"
      → (cancel_task ts id t w).0 ≡ ok tt
      → st.tasks (cancel_task ts id t w).1 id ≡ some (as_cancelling t)
  cancel_task-marked id t w key m k = elim (Bool-cases (t.task_state == cancelling)) [
    | inl hit ↦ absurd (m ((eq_iff t.task_state cancelling).0 hit))
    | inr miss ↦
        let (_, u, _) =
          bind-ok (ts.update_task_status_model (as_cancelling t)) _ w (rw miss at k) in
        rw (miss, u)
          (rw (st.spawn-tasks, st.update-ok (as_cancelling t) w u)
            (put-at (as_cancelling t) (st.tasks w) id key))
  ]

  -- A cancel request that succeeds has marked its task as Cancelling, where the task could be read and
  -- was in none of the states Completed, Exception, Pending and Cancelling; the states Cancelled and
  -- Killed are no exception.
  pub task_cancel_call_back-cancelling :
      (id : String) (w : ts.World) {t : Task}
      → (ts.get_task_status_model id w).0 ≡ ok t
      → settled t ≡ false
      → t.task_state ≢ "Cancelling"
      → (task_cancel_call_back ts id w).0 ≡ ok tt
      → st.tasks (task_cancel_call_back ts id w).1 id ≡ some (as_cancelling t)
  unfolding task_cancel_call_back cancel_stored
  task_cancel_call_back-cancelling id w {t} h n m k =
      let (_, e, k₂) =
        bind-ok (cancel_sub_tasks ts t.child_task_ids) _ (after_get id w)
          (rw (h, n, task_cancel_call_back, cancel_stored) at k) in
      rw (h, n, e) (cancel_task-marked id t _ (st.get-id id w h) m k₂)
