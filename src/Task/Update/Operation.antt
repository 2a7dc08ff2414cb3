-- ===== src/Task/Update/Operation.antt =====
-- `updateTaskUtil` and `UpdateTask` of svc-task/thandle/thandle.go: the change to the stored task.
use hwmgmt_device_mgr_device.Base.{String}
use hwmgmt_device_mgr_device.Base.Text.{◌<>◌}
use hwmgmt_device_mgr_device.Base.Exec.{ok, err, panic, Exec, lift, ◌>>=◌, ◌>>◌}
use hwmgmt_device_mgr_device.Task.Model.{UpdateTaskRequest}
use hwmgmt_device_mgr_device.Task.Service.{TasksRpc}
use hwmgmt_device_mgr_device.Task.Update.Apply.{Change, apply_update}

-- `fmt.Errorf(prefix + err.Error())` around a call that failed.
abbrev pub wrap : {W A : Type 0} → String → Exec W String A → Exec W String A
wrap prefix m w =
    let (r, w') = m w in
    (elim r [ ok a ↦ ok a | err e ↦ err (prefix <> e) | panic p ↦ panic p ], w')

module _ (ts : TasksRpc) where
  abbrev publish : String → Change → Exec ts.World String (Unit {0})
  publish uri c w = (ok tt, ts.publish_to_message_bus uri c.message_id "StatusChange" c.text w)

  unfoldable pub update_task_util : UpdateTaskRequest → Exec ts.World String (Unit {0})
  update_task_util r = do
    task ←
        wrap "error while retrieving the task details from db: "
          (ts.get_task_status_model r.task_id)
    c ← lift (apply_update r task)
    wrap "error while updating the task in to In-memory DB: " (ts.update_task_status_model c.task)
    publish c.task.uri c
