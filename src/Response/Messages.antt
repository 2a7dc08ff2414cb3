-- ===== src/Response/Messages.antt =====
-- The status messages of lib-utilities/response/response.go, and the HTTP status codes used.
use hwmgmt_device_mgr_device.Base.{String, ℤ, pos}

abbrev pub created : String
created = "Base.1.11.0.Created"

abbrev pub success : String
success = "Base.1.11.0.Success"

abbrev pub general_error_code : String
general_error_code = "Base.1.11.0.GeneralError"

abbrev pub insufficient_privilege : String
insufficient_privilege = "Base.1.11.0.InsufficientPrivilege"

abbrev pub internal_error : String
internal_error = "Base.1.11.0.InternalError"

abbrev pub property_missing : String
property_missing = "Base.1.11.0.PropertyMissing"

abbrev pub property_unknown : String
property_unknown = "Base.1.11.0.PropertyUnknown"

abbrev pub resource_not_found : String
resource_not_found = "Base.1.11.0.ResourceNotFound"

abbrev pub malformed_json : String
malformed_json = "Base.1.11.0.MalformedJSON"

abbrev pub property_value_not_in_list : String
property_value_not_in_list = "Base.1.11.0.PropertyValueNotInList"

abbrev pub no_valid_session : String
no_valid_session = "Base.1.11.0.NoValidSession"

abbrev pub resource_in_use : String
resource_in_use = "Base.1.11.0.ResourceInUse"

abbrev pub property_value_format_error : String
property_value_format_error = "Base.1.11.0.PropertyValueFormatError"

abbrev pub property_value_type_error : String
property_value_type_error = "Base.1.11.0.PropertyValueTypeError"

abbrev pub resource_at_uri_unauthorized : String
resource_at_uri_unauthorized = "Base.1.11.0.ResourceAtUriUnauthorized"

abbrev pub could_not_establish_connection : String
could_not_establish_connection = "Base.1.11.0.CouldNotEstablishConnection"

abbrev pub query_combination_invalid : String
query_combination_invalid = "Base.1.11.0.QueryCombinationInvalid"

abbrev pub query_not_supported : String
query_not_supported = "Base.1.11.0.QueryNotSupported"

abbrev pub resource_removed : String
resource_removed = "ResourceEvent.1.0.3.ResourceRemoved"

abbrev pub resource_created : String
resource_created = "ResourceEvent.1.0.3.ResourceCreated"

abbrev pub task_started : String
task_started = "TaskEvent.1.0.3.TaskStarted"

abbrev pub action_not_supported : String
action_not_supported = "Base.1.11.0.ActionNotSupported"

abbrev pub resource_already_exists : String
resource_already_exists = "Base.1.11.0.ResourceAlreadyExists"

abbrev pub action_parameter_not_supported : String
action_parameter_not_supported = "Base.1.11.0.ActionParameterNotSupported"

abbrev pub resource_cannot_be_deleted : String
resource_cannot_be_deleted = "Base.1.11.0.ResourceCannotBeDeleted"

abbrev pub property_value_conflict : String
property_value_conflict = "Base.1.11.0.PropertyValueConflict"

abbrev pub no_operation : String
no_operation = "Base.1.11.0.NoOperation"

abbrev pub status_ok : ℤ
status_ok = pos 200

abbrev pub status_created : ℤ
status_created = pos 201

abbrev pub status_accepted : ℤ
status_accepted = pos 202

abbrev pub status_no_content : ℤ
status_no_content = pos 204

abbrev pub status_bad_request : ℤ
status_bad_request = pos 400

abbrev pub status_unauthorized : ℤ
status_unauthorized = pos 401

abbrev pub status_forbidden : ℤ
status_forbidden = pos 403

abbrev pub status_not_found : ℤ
status_not_found = pos 404

abbrev pub status_method_not_allowed : ℤ
status_method_not_allowed = pos 405

abbrev pub status_conflict : ℤ
status_conflict = pos 409

abbrev pub status_internal_server_error : ℤ
status_internal_server_error = pos 500

abbrev pub status_service_unavailable : ℤ
status_service_unavailable = pos 503

abbrev pub account_removed : String
account_removed = "Base.1.11.0.AccountRemoved"

abbrev pub account_modified : String
account_modified = "Base.1.11.0.AccountModified"
