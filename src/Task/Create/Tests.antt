-- ===== src/Task/Create/Tests.antt =====
-- The theorems on creation, in a system that generates the id 9.
use hwmgmt_device_mgr_device.Base.{refl}
use hwmgmt_device_mgr_device.Base.Text.{split}
use hwmgmt_device_mgr_device.Task.Sample.{sample, sample_store, task1, one_task}
use hwmgmt_device_mgr_device.Task.Create.Operations.{
  new_task, child_id_of_uri, create_task_util, link_child, adopt, create_child_task_util,
}
use hwmgmt_device_mgr_device.Task.Create.Created.{Created, create_task_util-Created}
use hwmgmt_device_mgr_device.Task.Create.Linked.{Linked, create_child_task_util-Linked}

create_task_util-Created_example :
    Created sample sample_store "alice" "/redfish/v1/TaskService/Tasks/task9"
      (one_task task1)
      (create_task_util sample "alice" (one_task task1)).1
unfolding create_task_util new_task
create_task_util-Created_example =
    create_task_util-Created sample sample_store "alice" (one_task task1) refl

create_child_task_util-Linked_example :
    Linked "task1" "/redfish/v1/TaskService/Tasks/task9"
      (one_task task1)
      (create_child_task_util sample "alice" "task1" (one_task task1)).1
unfolding create_child_task_util create_task_util new_task adopt link_child child_id_of_uri split
create_child_task_util-Linked_example =
    create_child_task_util-Linked sample sample_store "alice" "task1" (one_task task1) (λ v. refl)
      refl
