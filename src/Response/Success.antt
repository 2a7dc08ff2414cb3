-- ===== src/Response/Success.antt =====
-- successresponse.go: the message that a success response carries.
use hwmgmt_device_mgr_device.Base.{String, List, [], ◌∷◌, length, ◌==◌, if◌then◌else◌}
use hwmgmt_device_mgr_device.Base.Text.{◌<>◌}
use hwmgmt_device_mgr_device.Base.Exec.{ok, panic}
use hwmgmt_device_mgr_device.Response.Messages.{
  success, created, resource_removed, resource_created, task_started,
}
use hwmgmt_device_mgr_device.Response.Types.{Response}
use hwmgmt_device_mgr_device.Response.Errors.{Total}

-- The message of `TaskStarted` names the first argument: without one the index panics.
abbrev started : Response → List String → Total Response
started r [] = panic "index out of range"
started r (a ∷ rest) = ok (record r {
  number_of_args = length r.message_args;
  message = "The task with id " <> a <> " has started.";
})

-- `CreateGenericResponse`.
unfoldable pub create_generic_response : Response → String → Total Response
create_generic_response r status =
    let r' = record r { message_id = status; severity = "OK" } in
    if status == success
    then ok (record r' { message = "Successfully Completed Request" })
    else if status == created
    then ok (record r' { message = "The resource has been created successfully" })
    else if status == "Base.1.11.0.AccountRemoved"
    then ok (record r' { message = "The account was successfully removed." })
    else if status == "Base.1.11.0.AccountModified"
    then ok (record r' { message = "The account was successfully modified." })
    else if status == resource_removed
    then ok (record r' { message = "The resource has been removed successfully." })
    else if status == resource_created
    then ok (record r' { message = "The resource has been created successfully." })
    else if status == task_started
    then started r' r.message_args
    else ok r'
