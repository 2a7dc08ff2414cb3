-- ===== src/Task/Cancel/Effects.antt =====
-- The effect of `taskCancelCallBack`, `deleteCompletedTask` and `asyncTaskDelete` on the stored tasks.
use hwmgmt_device_mgr_device.Base.{
  String, ◌≡◌, refl, ap, ◌∙◌, ◌⊎◌, inl, inr, true, Option, none, some, List, [], ◌∷◌, ◌==◌, arith,
  eq_iff, eq_refl, Bool-cases, contains, if◌then◌else◌,
}
use hwmgmt_device_mgr_device.Base.Exec.{Outcome, ok, err, panic, Exec, bind-world, pure, ◌>>=◌}
use hwmgmt_device_mgr_device.Task.Model.{Task, cancelling}
use hwmgmt_device_mgr_device.Task.Service.{TasksRpc, TaskStore, Store}
use hwmgmt_device_mgr_device.Task.Cancel.Operations.{
  ignore, settled, try_get, delete_sub_task, delete_sub_tasks, cancel_task, cancel_sub_task,
  cancel_sub_tasks, cancel_stored, task_cancel_call_back,
}
use hwmgmt_device_mgr_device.Task.Cancel.Narrowed.{
  as_cancelling, Narrowed, same-Narrowed, Narrowed-trans, remove-Narrowed, put-Narrowed,
}

-- An id that a cancel request for the task concerns: its own, or that of a child.
abbrev pub Concerned : String → Task → String → Type 0
Concerned id t k = contains (id ∷ t.child_task_ids) k ≡ true

-- The task `t` that `id` names is stored, and only it and its children have been deleted or marked.
abbrev pub CancelRequested : String → Store → Store → Type 0
CancelRequested id s s' = (t : Task) × (s id ≡ some t) × Narrowed (Concerned id t) Unit s s'

module _ (ts : TasksRpc) (st : TaskStore ts) where
  pub try_get-some :
      (id : String) (w : ts.World) {t : Task}
      → (try_get ts id w).0 ≡ ok (some t)
      → (ts.get_task_status_model id w).0 ≡ ok t
  try_get-some id w {t} h = from_read (ts.get_task_status_model id w).0 h
    where
      from_read :
          (o : Outcome String Task)
          → (let r : Outcome String (Option Task) = elim o [
            | ok x ↦ ok (some x)
            | err _ ↦ ok none
            | panic p ↦ panic p
          ] in
              r)
            ≡ ok (some t)
          → o ≡ ok t
      from_read (ok x) h = ground arith
      from_read (err x) h = cc
      from_read (panic x) h = cc

  module _ (P : String → Type 0) (C : Type 0) where
    abbrev Keeps : ts.World → ts.World → Type 0
    Keeps w w' = Narrowed P C (st.tasks w) (st.tasks w')

    Keeps-trans : {a b c : ts.World} → Keeps a b → Keeps b c → Keeps a c
    Keeps-trans p q = Narrowed-trans P C p q

    delete-Keeps : (t : Task) (w : ts.World) → P t.id → Keeps w (ts.delete_task_from_db_model t w).1
    delete-Keeps t w p = elim (st.delete-any t w) [
      | inl same ↦ same-Narrowed P C same
      | inr gone ↦ remove-Narrowed P C (st.tasks w) t.id p gone
    ]

    -- A read, and what is done with the task that it found.
    read-Keeps :
        {A : Type 0} (id : String) (f : Option Task → Exec ts.World String A) (w : ts.World)
        → (let w₁ = (ts.get_task_status_model id w).1 in Keeps w₁ (f none w₁).1)
        → ((t : Task)
            → st.tasks (ts.get_task_status_model id w).1 id ≡ some t
            → t.id ≡ id
            → (let w₁ = (ts.get_task_status_model id w).1 in Keeps w₁ (f (some t) w₁).1))
        → Keeps w ((try_get ts id >>= f) w).1
    read-Keeps id f w miss found =
        bind-world (try_get ts id) f w (Keeps w) read (λ o e. Keeps-trans read (go o e))
      where
        w₁ : ts.World
        w₁ = (ts.get_task_status_model id w).1

        read : Keeps w w₁
        read = same-Narrowed P C (st.get-tasks id w)

        go : (o : Option Task) → (try_get ts id w).0 ≡ ok o → Keeps w₁ (f o w₁).1
        go none e = miss
        go (some t) e =
            found t (rw (st.get-tasks id w) (st.get-ok id w (try_get-some id w e)))
              (st.get-id id w (try_get-some id w e))

    delete_sub_tasks-Keeps :
        (ids : List String) (w : ts.World)
        → ((k : String) → contains ids k ≡ true → P k)
        → Keeps w (delete_sub_tasks ts ids w).1
    unfolding delete_sub_tasks
    delete_sub_tasks-Keeps [] w h = same-Narrowed P C refl
    delete_sub_tasks-Keeps (id ∷ ids) w h =
        bind-world (delete_sub_task ts id) (λ _. delete_sub_tasks ts ids) w (Keeps w) first
          (λ _ _.
            Keeps-trans first
              (delete_sub_tasks-Keeps ids (delete_sub_task ts id w).1 (λ k m. h k (ground arith))))
      where
        first : Keeps w (delete_sub_task ts id w).1
        first =
            read-Keeps id _ w (same-Narrowed P C refl)
              (λ t _ key. delete-Keeps t _ (h t.id (ground (arith, eq_iff t.id id))))

    -- The task is marked as it was read; other tasks may have been narrowed in between.
    cancel_task-Keeps :
        (id : String) (t : Task) (w w' : ts.World)
        → C
        → P t.id
        → st.tasks w t.id ≡ some t
        → Keeps w w'
        → Keeps w (cancel_task ts id t w').1
    cancel_task-Keeps id t w w' c p stored h = elim (Bool-cases (t.task_state == cancelling)) [
      | inl hit ↦ rw hit h
      | inr miss ↦ rw miss (
          bind-world (ts.update_task_status_model (as_cancelling t)) _ w' (Keeps w) written
            (λ _ _. Keeps-trans written (same-Narrowed P C (st.spawn-tasks id _))))
    ]
      where
        written : Keeps w (ts.update_task_status_model (as_cancelling t) w').1
        written = elim (st.update-any (as_cancelling t) w') [
          | inl same ↦ Keeps-trans h (same-Narrowed P C same)
          | inr new ↦ put-Narrowed P C t c p stored h new
        ]

    cancel_sub_task-Keeps :
        (id : String) (w : ts.World) → C → P id → Keeps w (cancel_sub_task ts id w).1
    cancel_sub_task-Keeps id w c p = read-Keeps id _ w (same-Narrowed P C refl) found
      where
        w₁ : ts.World
        w₁ = (ts.get_task_status_model id w).1

        found :
            (t : Task)
            → st.tasks w₁ id ≡ some t
            → t.id ≡ id
            → Keeps w₁
                ((if settled t
                    then ignore (ts.delete_task_from_db_model t)
                    else cancel_task ts id t)
                  w₁).1
        found t stored key = elim (Bool-cases (settled t)) [
          | inl hit ↦ rw hit (delete-Keeps t w₁ (rw key p))
          | inr miss ↦ rw miss (
              cancel_task-Keeps id t w₁ w₁ c (rw key p) (ap (st.tasks w₁) key ∙ stored)
                (same-Narrowed P C refl))
        ]

    cancel_sub_tasks-Keeps :
        (ids : List String) (w : ts.World)
        → C
        → ((k : String) → contains ids k ≡ true → P k)
        → Keeps w (cancel_sub_tasks ts ids w).1
    unfolding cancel_sub_tasks
    cancel_sub_tasks-Keeps [] w c h = same-Narrowed P C refl
    cancel_sub_tasks-Keeps (id ∷ ids) w c h =
        bind-world (cancel_sub_task ts id) (λ _. cancel_sub_tasks ts ids) w (Keeps w) first
          (λ _ _.
            Keeps-trans first (
              cancel_sub_tasks-Keeps ids (cancel_sub_task ts id w).1 c (λ k m. h k (ground arith))))
      where
        first : Keeps w (cancel_sub_task ts id w).1
        first = cancel_sub_task-Keeps id w c (h id (ground (arith, eq_refl id)))

    cancel_stored-Keeps :
        (id : String) (t : Task) (w : ts.World)
        → C
        → st.tasks w id ≡ some t
        → t.id ≡ id
        → ((k : String) → contains (id ∷ t.child_task_ids) k ≡ true → P k)
        → Keeps w (cancel_stored ts id t w).1
    unfolding cancel_stored
    cancel_stored-Keeps id t w c stored key h = elim (Bool-cases (settled t)) [
      | inl hit ↦ rw hit (
          bind-world (delete_sub_tasks ts t.child_task_ids) _ w (Keeps w) deleted
            (λ _ _. Keeps-trans deleted (delete-Keeps t _ own)))
      | inr miss ↦ rw miss (
          bind-world (cancel_sub_tasks ts t.child_task_ids) _ w (Keeps w) marked
            (λ _ _. cancel_task-Keeps id t w _ c own (ap (st.tasks w) key ∙ stored) marked))
    ]
      where
        own : P t.id
        own = h t.id (ground (arith, eq_iff t.id id))

        child : (k : String) → contains t.child_task_ids k ≡ true → P k
        child k m = h k (ground arith)

        deleted : Keeps w (delete_sub_tasks ts t.child_task_ids w).1
        deleted = delete_sub_tasks-Keeps t.child_task_ids w child

        marked : Keeps w (cancel_sub_tasks ts t.child_task_ids w).1
        marked = cancel_sub_tasks-Keeps t.child_task_ids w c child

  abbrev MayBeRequested : String → ts.World → ts.World → Type 0
  MayBeRequested id w w' =
      (st.tasks w' ≡ st.tasks w) ⊎ CancelRequested id (st.tasks w) (st.tasks w')

  -- A cancel request, whether it succeeds or fails, concerns the task that it names and the children
  -- of that task alone: each of them is left as it is, deleted, or marked as Cancelling with
  -- nothing else of it changed. Every other task is left as it is.
  pub task_cancel_call_back-CancelRequested :
      (id : String) (w : ts.World)
      → let s' = st.tasks (task_cancel_call_back ts id w).1 in
        (s' ≡ st.tasks w) ⊎ CancelRequested id (st.tasks w) s'
  unfolding task_cancel_call_back
  task_cancel_call_back-CancelRequested id w =
      bind-world (try_get ts id) _ w (MayBeRequested id w) (inl read) go
    where
      w₁ : ts.World
      w₁ = (ts.get_task_status_model id w).1

      read : st.tasks w₁ ≡ st.tasks w
      read = st.get-tasks id w

      go :
          (o : Option Task)
          → (try_get ts id w).0 ≡ ok o
          → (let f : Option Task → Exec ts.World String (Unit {0}) = elim [
            | none ↦ pure tt
            | some t ↦ cancel_stored ts id t
          ] in
              MayBeRequested id w (f o w₁).1)
      go none e = inl read
      go (some t) e =
          let got = try_get-some id w e in
          let P = Concerned id t in
          inr (
            t,
            st.get-ok id w got,
            Keeps-trans P Unit (same-Narrowed P Unit read) (
                cancel_stored-Keeps P Unit id t w₁ tt (rw read (st.get-ok id w got))
                  (st.get-id id w got) (λ k m. m)),
          )
