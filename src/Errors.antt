-- ===== src/Errors.antt =====
-- lib-utilities/errors: errors that carry a number, and the status that an authorization failure
-- gives. `UndefinedErrorType` and the rest are the numbers that the callers tell apart.
use hwmgmt_device_mgr_device.Base.{String, ℤ, Bool, true, false}
use hwmgmt_device_mgr_device.Response.Messages.{
  no_valid_session, could_not_establish_connection, status_unauthorized, status_service_unavailable,
}

-- `ErrType`
pub data ErrType : Type 0 where
  undefined_error_type db_key_fetch_failed db_key_not_found db_key_already_exist : ErrType
  db_conn_failed invalid_auth_token json_unmarshal_failed decryption_failed : ErrType

pub record Error : Type 0 where
  pub err_num : ErrType
  pub err_msg : String

-- `PackError`
abbrev pub pack_error : ErrType → String → Error
pack_error n m = record { err_num = n; err_msg = m }

-- `ErrNo() == DBKeyNotFound` and `ErrNo() == DBConnFailed`.
abbrev pub is_key_not_found : ErrType → Bool
is_key_not_found ErrType.db_key_not_found = true
is_key_not_found _ = false

abbrev pub is_conn_failed : ErrType → Bool
is_conn_failed ErrType.db_conn_failed = true
is_conn_failed _ = false

-- A status code and a status message.
abbrev pub Status : Type 0
Status = ℤ × String

unfoldable pub get_auth_status_code_and_message : ErrType → Status
get_auth_status_code_and_message ErrType.db_conn_failed =
    (status_service_unavailable, could_not_establish_connection)
get_auth_status_code_and_message ErrType.invalid_auth_token =
    (status_unauthorized, no_valid_session)
get_auth_status_code_and_message _ = (status_unauthorized, no_valid_session)
