-- ===== src/Task/Update/Irrevocable.antt =====
-- Cancellation under any sequence of update requests.
use hwmgmt_device_mgr_device.Base.{
  String, ◌≡◌, sym, ◌∙◌, ◌⊎◌, inl, inr, true, Option, some, List, [], ◌∷◌, ◌==◌, eq_iff, Bool-cases,
}
use mathlib.Core.Option.{some-injective}
use hwmgmt_device_mgr_device.Base.Exec.{Outcome, ok, err, panic}
use hwmgmt_device_mgr_device.Task.Model.{Task, UpdateTaskRequest}
use hwmgmt_device_mgr_device.Task.Service.{TasksRpc, TaskStore, Store, put}
use hwmgmt_device_mgr_device.Task.Update.Apply.{Change, apply_update}
use hwmgmt_device_mgr_device.Task.Update.Rules.{apply_update-ok, apply_update-Admits}
use hwmgmt_device_mgr_device.Task.Update.Operation.{update_task_util}
use hwmgmt_device_mgr_device.Task.Update.Stored.{Changed, OutcomeOf, update_task_util-Changed}

-- At one id: the task is as it was, or it is the one that the request names, with its change.
abbrev AtId : Task → UpdateTaskRequest → Option Task → Type 0
AtId t r o = (o ≡ some t) ⊎ ((c : Change) × (apply_update r t ≡ ok c) × (o ≡ some c.task))

put-AtId :
    (s : Store) (r : UpdateTaskRequest) (id : String) {t t' : Task} (c : Change)
    → s id ≡ some t
    → s r.task_id ≡ some t'
    → apply_update r t' ≡ ok c
    → c.task.id ≡ r.task_id
    → AtId t r (put c.task s id)
put-AtId s r id {t} {t'} c h stored k key = elim (Bool-cases (c.task.id == id)) [
  | inl hit ↦ inr (c, rw (some-injective _ _ (sym (rw (same hit) at stored) ∙ h)) at k, rw hit)
  | inr miss ↦ inl (rw miss h)
]
  where
    same : (c.task.id == id) ≡ true → r.task_id ≡ id
    same e = sym key ∙ (eq_iff c.task.id id).0 e

abbrev pub IsStopping : Task → Type 0
IsStopping t = (t.task_state ≡ "Cancelling") ⊎ (t.task_state ≡ "Cancelled")

module _ (ts : TasksRpc) (st : TaskStore ts) where
  -- A sequence of update requests, each served whatever came of the one before.
  pub updates : List UpdateTaskRequest → ts.World → ts.World
  updates [] w = w
  updates (r ∷ rs) w = updates rs (update_task_util ts r w).1

  from_outcome :
      (o : Outcome String (Unit {0})) (before after : Store) (r : UpdateTaskRequest)
      → OutcomeOf ts st o before r after
      → (after ≡ before) ⊎ Changed ts before r after
  from_outcome (ok _) before after r h = inr h
  from_outcome (err _) before after r h = h
  from_outcome (panic _) before after r h = h

  update_task_util-AtId :
      (r : UpdateTaskRequest) (w : ts.World) (id : String) {t : Task}
      → st.tasks w id ≡ some t
      → AtId t r (st.tasks (update_task_util ts r w).1 id)
  update_task_util-AtId r w id h =
      elim (from_outcome _ _ _ r (update_task_util-Changed ts st r w)) [
        | inl same ↦ inl (rw same h)
        | inr (t', c, stored, key, new, e) ↦
            rw e (put-AtId (st.tasks w) r id c h stored new ((apply_update-ok r t' new).1.id ∙ key))
      ]

  -- A task whose stored state is Cancelled is never changed again by updates, whatever they ask for.
  pub updates-cancelled :
      (rs : List UpdateTaskRequest) (w : ts.World) (id : String) {t : Task}
      → st.tasks w id ≡ some t
      → t.task_state ≡ "Cancelled"
      → st.tasks (updates rs w) id ≡ some t
  unfolding updates
  updates-cancelled [] w id h s = h
  updates-cancelled (r ∷ rs) w id {t} h s =
      updates-cancelled rs (update_task_util ts r w).1 id
        (elim (update_task_util-AtId r w id h) [
          | inl same ↦ same
          | inr (c, new, _) ↦ absurd ((apply_update-Admits r t new).0.not_cancelled s)
        ])
        s

  -- A task whose stored state is Cancelling or Cancelled stays in the store under any updates, and its
  -- state stays one of these two.
  pub updates-IsStopping :
      (rs : List UpdateTaskRequest) (w : ts.World) (id : String) {t : Task}
      → st.tasks w id ≡ some t
      → IsStopping t
      → (t' : Task) × (st.tasks (updates rs w) id ≡ some t') × IsStopping t'
  unfolding updates
  updates-IsStopping [] w id {t} h s = (t, h, s)
  updates-IsStopping (r ∷ rs) w id {t} h s = elim (update_task_util-AtId r w id h) [
    | inl same ↦ updates-IsStopping rs (update_task_util ts r w).1 id same s
    | inr (c, new, stored) ↦
        updates-IsStopping rs (update_task_util ts r w).1 id stored (still c new s)
  ]
    where
      still : (c : Change) → apply_update r t ≡ ok c → IsStopping t → IsStopping c.task
      still c new (inl e) =
          inr ((apply_update-ok r t new).0 ∙ (apply_update-Admits r t new).0.only_cancelled e)
      still c new (inr e) = absurd ((apply_update-Admits r t new).0.not_cancelled e)
