-- ===== src/Task/Update/Stored.antt =====
-- What `updateTaskUtil` does to the stored tasks.
use hwmgmt_device_mgr_device.Base.{String, ◌≡◌, refl, ap, ◌∙◌, ◌⊎◌, inl, inr, some}
use hwmgmt_device_mgr_device.Base.Exec.{Outcome, ok, err, panic}
use hwmgmt_device_mgr_device.Task.Model.{Task, UpdateTaskRequest}
use hwmgmt_device_mgr_device.Task.Service.{TasksRpc, TaskStore, Store, put}
use hwmgmt_device_mgr_device.Task.Update.Apply.{Change, apply_update}
use hwmgmt_device_mgr_device.Task.Update.Operation.{update_task_util}

module _ (ts : TasksRpc) where
  -- The stored task, the change that was accepted for it, and the store with that change.
  abbrev pub Changed : Store → UpdateTaskRequest → Store → Type 0
  Changed before r after =
      (t : Task) × (c : Change) × (before r.task_id ≡ some t)
      × (t.id ≡ r.task_id)
      × (apply_update r t ≡ ok c)
      × (after ≡ put c.task before)

  module _ (st : TaskStore ts) where
    abbrev pub OutcomeOf : Outcome String (Unit {0}) → Store → UpdateTaskRequest → Store → Type 0
    OutcomeOf (ok _) before r after = Changed before r after
    OutcomeOf (err _) before r after = (after ≡ before) ⊎ Changed before r after
    OutcomeOf (panic _) before r after = (after ≡ before) ⊎ Changed before r after

    module _ (r : UpdateTaskRequest) (w : ts.World) where
      abbrev read_world : ts.World
      read_world = (ts.get_task_status_model r.task_id w).1

      abbrev Goal : Type 0
      Goal = let (o, w') = update_task_util ts r w in OutcomeOf o (st.tasks w) r (st.tasks w')

      written :
          (t : Task) (c : Change)
          → (ts.get_task_status_model r.task_id w).0 ≡ ok t
          → apply_update r t ≡ ok c
          → st.tasks (ts.update_task_status_model c.task read_world).1
            ≡ put c.task (st.tasks read_world)
          → Changed (st.tasks w) r (st.tasks (ts.update_task_status_model c.task read_world).1)
      written t c h k e = (
        t,
        c,
        st.get-ok r.task_id w h,
        st.get-id r.task_id w h,
        k,
        e ∙ ap (put c.task) (st.get-tasks r.task_id w),
      )

      from_write :
          (t : Task) (c : Change)
          → (ts.get_task_status_model r.task_id w).0 ≡ ok t
          → apply_update r t ≡ ok c
          → (o : Outcome String (Unit {0})) → (ts.update_task_status_model c.task read_world).0 ≡ o
          → Goal
      unfolding update_task_util
      from_write t c h k (ok _) e =
          rw (h, k, e, st.publish-tasks) (written t c h k (st.update-ok c.task read_world e))
      from_write t c h k (err x) e =
          rw (h, k, e)
            (elim (st.update-any c.task read_world) [
              | inl same ↦ inl (same ∙ st.get-tasks r.task_id w)
              | inr new ↦ inr (written t c h k new)
            ])
      from_write t c h k (panic p) e =
          rw (h, k, e)
            (elim (st.update-any c.task read_world) [
              | inl same ↦ inl (same ∙ st.get-tasks r.task_id w)
              | inr new ↦ inr (written t c h k new)
            ])

      from_change :
          (t : Task)
          → (ts.get_task_status_model r.task_id w).0 ≡ ok t
          → (o : Outcome String Change) → apply_update r t ≡ o
          → Goal
      unfolding update_task_util
      from_change t h (ok c) k =
          from_write t c h k (ts.update_task_status_model c.task read_world).0 refl
      from_change t h (err x) k = rw (h, k) (inl (st.get-tasks r.task_id w))
      from_change t h (panic p) k = rw (h, k) (inl (st.get-tasks r.task_id w))

      from_read : (o : Outcome String Task) → (ts.get_task_status_model r.task_id w).0 ≡ o → Goal
      unfolding update_task_util
      from_read (ok t) h = from_change t h (apply_update r t) refl
      from_read (err e) h = rw h (inl (st.get-tasks r.task_id w))
      from_read (panic p) h = rw h (inl (st.get-tasks r.task_id w))

    -- A successful update has stored exactly the change that the rules accept for the stored task; one
    -- that fails has stored this change or nothing.
    pub update_task_util-Changed :
        (r : UpdateTaskRequest) (w : ts.World)
        → let (o, w') = update_task_util ts r w in OutcomeOf o (st.tasks w) r (st.tasks w')
    update_task_util-Changed r w = from_read r w (ts.get_task_status_model r.task_id w).0 refl
