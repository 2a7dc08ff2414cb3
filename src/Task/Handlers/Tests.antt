-- ===== src/Task/Handlers/Tests.antt =====
-- Handlers at concrete stores: the collection of alice, where task2 is of another user, and a deletion.
use hwmgmt_device_mgr_device.Base.{pos, eq_ℤ, if◌then◌else◌, ◌≡◌, refl, none, [], ◌∷◌}
use hwmgmt_device_mgr_device.Response.{Rpc, view, empty}
use hwmgmt_device_mgr_device.Response.Messages.{status_no_content, status_accepted}
use hwmgmt_device_mgr_device.Task.Model.{Task, GetTaskRequest}
use hwmgmt_device_mgr_device.Task.Cancel.{delete_completed_task, delete_sub_tasks}
use hwmgmt_device_mgr_device.Task.Handlers.Deletion.{delete_task-Granted}
use hwmgmt_device_mgr_device.Task.Views.{View, CollectionView}
use hwmgmt_device_mgr_device.Task.Service.{Store, put}
use hwmgmt_device_mgr_device.Task.Sample.{sample, sample_store, task1}
use hwmgmt_device_mgr_device.Task.Handlers.Build.{blank}
use hwmgmt_device_mgr_device.Task.Handlers.Access.{is_ok, access, validate_and_autherize}
use hwmgmt_device_mgr_device.Task.Handlers.Build.{collection_view}
use hwmgmt_device_mgr_device.Task.Handlers.Operations.{
  own_tasks, task_collection, delete_task, delete_finished,
}
use hwmgmt_device_mgr_device.Task.Handlers.Granted.{Holds, Granted}
use hwmgmt_device_mgr_device.Task.Handlers.Owned.{owned, task_collection-owned}

abbrev others_task : Task
others_task = record task1 { id = "task2"; user_name = "bob" }

abbrev two_tasks : Store
two_tasks = put task1 (put others_task (λ _. none))

abbrev request : GetTaskRequest
request = record { task_id = ""; sub_task_id = ""; session_token = "t" }

abbrev shown : Rpc View
shown = record {
  status_code = pos 200;
  status_message = "Base.1.11.0.Success";
  header = ("Date", "") ∷ [];
  body = view (
      View.collection (record {
        response = record blank {
          name = "Task Collection";
          odata_context = "/redfish/v1/$metadata#TaskCollection.TaskCollection";
          odata_id = "/redfish/v1/TaskService/Tasks";
          odata_type = "#TaskCollection.TaskCollection";
        };
        members_count = 1;
        members = "/redfish/v1/TaskService/Tasks/task1" ∷ [];
      }));
}

task_collection-owned_example :
    Holds sample "t" ("Login" ∷ []) two_tasks
    × (c : CollectionView) × (shown.body ≡ view (View.collection c))
    × (c.members ≡ owned two_tasks "alice" ("task1" ∷ "task2" ∷ []))
unfolding task_collection own_tasks is_ok collection_view
task_collection-owned_example =
    task_collection-owned sample sample_store request two_tasks ("task1" ∷ "task2" ∷ []) "alice"
      {rpc = shown} refl refl refl refl

abbrev complete : Task
complete = record task1 { percent_complete = pos 100 }

abbrev deletion : GetTaskRequest
deletion = record { task_id = "task1"; sub_task_id = ""; session_token = "t" }

abbrev deleted : Rpc View
deleted = record {
  status_code = pos 204;
  status_message = "";
  header = ("Date", "") ∷ ("Allow", "DELETE") ∷ [];
  body = empty;
}

delete_task-Granted_example :
    (t : Task) × Granted sample "t" "task1" (put complete (λ _. none)) t
    × Holds sample "t"
        ("ConfigureManager" ∷ [])
        (access sample "t" "task1" (put complete (λ _. none))).1
    × (pos 204 ≡ (if eq_ℤ t.percent_complete (pos 100) then status_no_content else status_accepted))
unfolding delete_task validate_and_autherize access is_ok delete_finished delete_completed_task
    delete_sub_tasks
delete_task-Granted_example =
    delete_task-Granted sample deletion (put complete (λ _. none)) {rpc = deleted} refl
