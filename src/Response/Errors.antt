-- ===== src/Response/Errors.antt =====
-- errorresponse.go: the body of an error response. A list of message arguments of the wrong length
-- or of the wrong types is a panic.
use hwmgmt_device_mgr_device.Base.{
  String, ℤ, ℕ, Bool, true, false, ◌&&◌, List, [], ◌∷◌, ◌++◌, map, length, eq_ℕ, ◌==◌,
  if◌then◌else◌,
}
use hwmgmt_device_mgr_device.Base.Text.{◌<>◌}
use hwmgmt_device_mgr_device.Base.Exec.{Outcome, ok, err, panic}
use hwmgmt_device_mgr_device.Response.Messages.{
  general_error_code, status_internal_server_error, success, resource_removed,
  insufficient_privilege, internal_error, property_missing, property_unknown,
  property_value_not_in_list, property_value_type_error, malformed_json, resource_not_found,
  no_valid_session, resource_in_use, property_value_format_error, resource_at_uri_unauthorized,
  could_not_establish_connection, action_not_supported, resource_already_exists,
  query_combination_invalid, query_not_supported, action_parameter_not_supported,
  resource_cannot_be_deleted, property_value_conflict, no_operation,
}
use hwmgmt_device_mgr_device.Response.Types.{Arg, Msg, ErrorClass, ErrArgs, Args, common_error, Rpc}

-- A result that is there or a panic, with no early return.
abbrev pub Total : Type 0 → Type 0
Total A = Outcome ⊥ A

abbrev pub message_odata_type : String
message_odata_type = "#Message.v1_1_2.Message"

-- `validateParamTypes`
abbrev pub validate_param_types : List String → List String → Bool
validate_param_types [] [] = true
validate_param_types (t ∷ ts) (a ∷ as') = (a == t) && validate_param_types ts as'
validate_param_types _ _ = false

unfoldable pub type_names : List Arg → List String
type_names = map (λ a. a.type_name)

-- `validateMessageArgs`
unfoldable pub validate_message_args : List Arg → List String → ℕ → Total (Unit {0})
unfolding type_names
validate_message_args args types expected =
    if eq_ℕ (length args) expected
    then (if validate_param_types types (type_names args)
        then ok tt
        else panic "error: messageArgs types are not matching with paramTypes list provided")
    else panic "error: messageArgs doesn't match the expected count"

-- The element of the extended info for a message that takes no arguments.
abbrev plain : ErrArgs → String → String → String → Total (List Msg)
plain e message severity resolution = ok (
    record {
      odata_type = message_odata_type;
      message_id = e.status_message;
      message = message;
      severity = severity;
      message_args = [];
      resolution = resolution;
    }
    ∷ [])

-- The same for one that takes arguments, all of them strings.
abbrev with_args : ErrArgs → String → String → String → Total (List Msg)
with_args e message severity resolution = ok (
    record {
      odata_type = message_odata_type;
      message_id = e.status_message;
      message = message;
      severity = severity;
      message_args = e.message_args;
      resolution = resolution;
    }
    ∷ [])

-- Runs the validation, and then names the arguments that the message shows.
abbrev pub checked : {A : Type 0} → Total (Unit {0}) → Total A → Total A
checked (ok _) k = k
checked (err e) k = err e
checked (panic m) k = panic m

abbrev pub shown_one : List Arg → (String → Total (List Msg)) → Total (List Msg)
shown_one (a ∷ _) f = f a.shown
shown_one [] f = panic "index out of range"

abbrev pub shown_two : List Arg → (String → String → Total (List Msg)) → Total (List Msg)
shown_two (a ∷ b ∷ _) f = f a.shown b.shown
shown_two _ f = panic "index out of range"

abbrev pub shown_three : List Arg → (String → String → String → Total (List Msg)) → Total (List Msg)
shown_three (a ∷ b ∷ c ∷ _) f = f a.shown b.shown c.shown
shown_three _ f = panic "index out of range"

-- One round of the loop in `CreateGenericErrorResponse`: the `switch` on the status message. A
-- message that no case names adds nothing.
unfoldable pub extended_info : ErrArgs → Total (List Msg)
unfolding validate_message_args
extended_info e =
    if e.status_message == success
    then plain e ("Successfully Completed Request") "OK" "None"
    else if e.status_message == resource_removed
    then plain e ("The resource has been removed successfully.") "OK" "None"
    else if e.status_message == insufficient_privilege
    then plain e
        ("There are insufficient privileges for the account or credentials associated with the current session to perform the requested operation."
          <> e.error_message)
        "Critical"
        "Either abandon the operation or change the associated access rights and resubmit the request if the operation failed."
    else if e.status_message == internal_error
    then plain e
        ("The request failed due to an internal service error.  The service is still operational."
          <> e.error_message)
        "Critical" "Resubmit the request.  If the problem persists, consider resetting the service."
    else if e.status_message == property_missing
    then checked (validate_message_args e.message_args ("string" ∷ []) 1) (
        shown_one e.message_args (λ a.
          with_args e
            ("The property " <> a <> " is a required property and must be included in the request. "
              <> e.error_message)
            "Warning"
            "Ensure that the property is in the request body and has a valid value and resubmit the request if the operation failed."))
    else if e.status_message == property_unknown
    then checked (validate_message_args e.message_args ("string" ∷ []) 1) (
        shown_one e.message_args (λ a.
          with_args e
            ("The property " <> a
              <> " is an unknown property and must not be included in the request. "
              <> e.error_message)
            "Warning"
            "Ensure that the request body has valid properties with proper cases and resubmit the request."))
    else if e.status_message == property_value_not_in_list
    then checked (validate_message_args e.message_args ("string" ∷ "string" ∷ []) 2) (
        shown_two e.message_args (λ a b.
          with_args e
            ("The value " <> a <> " for the property " <> b
              <> " is not in the list of acceptable values. " <> e.error_message)
            "Warning"
            "Choose a value from the enumeration list that the implementation can support and resubmit the request if the operation failed."))
    else if e.status_message == property_value_type_error
    then checked (validate_message_args e.message_args ("string" ∷ "string" ∷ []) 2) (
        shown_two e.message_args (λ a b.
          with_args e
            ("The value " <> a <> " for the property " <> b
              <> " is of a different type than the property can accept. " <> e.error_message)
            "Warning"
            "Correct the value for the property in the request body and resubmit the request if the operation failed."))
    else if e.status_message == malformed_json
    then plain e
        ("The request body submitted was malformed JSON and could not be parsed by the receiving service."
          <> e.error_message)
        "Critical" "Ensure that the request body is valid JSON and resubmit the request."
    else if e.status_message == resource_not_found
    then checked (validate_message_args e.message_args ("string" ∷ "string" ∷ []) 2) (
        shown_two e.message_args (λ a b.
          with_args e
            ("The requested resource of type " <> a <> " named " <> b <> " was not found. "
              <> e.error_message)
            "Critical" "Provide a valid resource identifier and resubmit the request."))
    else if e.status_message == no_valid_session
    then plain e
        ("There is no valid session established with the implementation." <> e.error_message)
        "Critical" "Establish a session before attempting any operations."
    else if e.status_message == resource_in_use
    then plain e
        ("The change to the requested resource failed because the resource is in use or in transition."
          <> e.error_message)
        "Warning" "Remove the condition and resubmit the request if the operation failed."
    else if e.status_message == property_value_format_error
    then checked (validate_message_args e.message_args ("string" ∷ "string" ∷ []) 2) (
        shown_two e.message_args (λ a b.
          with_args e
            ("The value " <> a <> " for the property " <> b
              <> " is of a different format than the property can accept. " <> e.error_message)
            "Warning"
            "Correct the value for the property in the request body and resubmit the request if the operation failed."))
    else if e.status_message == resource_at_uri_unauthorized
    then checked (validate_message_args e.message_args ("string" ∷ []) 1) (
        shown_one e.message_args (λ a.
          with_args e
            ("While accessing the resource at " <> a
              <> ", the service received an authorization error. " <> e.error_message)
            "Critical"
            "Ensure that the appropriate access is provided for the service in order for it to access the URI."))
    else if e.status_message == could_not_establish_connection
    then checked (validate_message_args e.message_args ("string" ∷ []) 1) (
        shown_one e.message_args (λ a.
          with_args e
            ("The service failed to establish a connection with the URI " <> a <> ". "
              <> e.error_message)
            "Critical"
            "Ensure that the URI contains a valid and reachable node name, protocol information and other URI components."))
    else if e.status_message == action_not_supported
    then checked (validate_message_args e.message_args ("string" ∷ []) 1) (
        shown_one e.message_args (λ a.
          with_args e
            ("The action " <> a <> " is not supported by the resource. " <> e.error_message)
            "Critical"
            "The action supplied cannot be resubmitted to the implementation. Perhaps the action was invalid, the wrong resource was the target or the implementation documentation may be of assistance."))
    else if e.status_message == resource_already_exists
    then checked (validate_message_args e.message_args ("string" ∷ "string" ∷ "string" ∷ []) 3) (
        shown_three e.message_args (λ a b c.
          with_args e
            ("The requested resource of type " <> a <> " with the property " <> b
              <> " with the value " <> c <> " already exists. " <> e.error_message)
            "Critical"
            "Do not repeat the create operation as the resource has already been created."))
    else if e.status_message == query_combination_invalid
    then plain e
        ("Two or more query parameters in the request cannot be used together." <> e.error_message)
        "Warning"
        "Remove one or more of the query parameters and resubmit the request if the operation failed."
    else if e.status_message == query_not_supported
    then plain e ("Querying is not supported by the implementation. " <> e.error_message) "Warning"
        "Remove the query parameters and resubmit the request if the operation failed."
    else if e.status_message == action_parameter_not_supported
    then checked (validate_message_args e.message_args ("string" ∷ "string" ∷ []) 2) (
        with_args e (e.error_message) "Warning"
          "Modify the parameter supplied and resubmit the request if the operation failed.")
    else if e.status_message == resource_cannot_be_deleted
    then plain e
        ("The delete request failed because the resource requested cannot be deleted."
          <> e.error_message)
        "Critical" "Do not attempt to delete a non-deletable resource."
    else if e.status_message == property_value_conflict
    then checked (validate_message_args e.message_args ("string" ∷ "string" ∷ []) 2) (
        shown_two e.message_args (λ a b.
          with_args e
            ("The property '" <> a
              <> "' could not be written because its value would conflict with the value of the '"
              <> b <> "' property, " <> e.error_message)
            "Warning" "No resolution is required."))
    else if e.status_message == no_operation
    then plain e
        ("The request body submitted contain no data to act upon and no changes to the resource took place.")
        "Warning" "Add properties in the JSON object and resubmit the request."
    else ok []

abbrev append_infos : Total (List Msg) → Total (List Msg) → Total (List Msg)
append_infos (ok m) (ok ms) = ok (m ++ ms)
append_infos (ok m) (panic p) = panic p
append_infos (ok m) (err e) = err e
append_infos (panic p) _ = panic p
append_infos (err e) _ = err e

-- The loop of `CreateGenericErrorResponse`; the first panic ends it.
unfoldable pub extended_infos : List ErrArgs → Total (List Msg)
extended_infos [] = ok []
extended_infos (e ∷ es) = append_infos (extended_info e) (extended_infos es)

abbrev error_class : Args → Total (List Msg) → Total ErrorClass
error_class a (ok infos) = ok (record {
  code = a.code;
  message =
      if a.message == ""
      then "An error has occurred. See ExtendedInfo for more information."
      else a.message;
  message_extended_info = infos;
})
error_class a (err e) = err e
error_class a (panic p) = panic p

-- `CreateGenericErrorResponse`
unfoldable pub create_generic_error_response : Args → Total ErrorClass
unfolding extended_infos
create_generic_error_response a = error_class a (extended_infos a.error_args)

abbrev pub fill : {V : Type 0} → ℤ → String → Total ErrorClass → Total (Rpc V)
fill code message (ok c) =
    ok (record { status_code = code; status_message = message; header = []; body = common_error c })
fill code message (err e) = err e
fill code message (panic p) = panic p

-- `common.GeneralError` with no task to update (`t` nil).
unfoldable pub general_error : {V : Type 0} → ℤ → String → String → List Arg → Total (Rpc V)
unfolding create_generic_error_response
general_error code message error_message args = fill code message (
    create_generic_error_response (record {
      code = general_error_code;
      message = "";
      error_args =
          record { status_message = message; error_message = error_message; message_args = args }
          ∷ [];
    }))

-- `CreateInternalErrorResponse` on a response that has no header yet.
unfoldable pub internal_error_response : {V : Type 0} → String → Total (Rpc V)
unfolding general_error
internal_error_response error_message =
    general_error status_internal_server_error internal_error error_message []
