-- ===== src/Response.antt =====
-- lib-utilities/response: the RPC response, the error bodies of the message registry, and
-- `GeneralError` of lib-utilities/common/generalerror.go.
pub mod Messages
mod Types
mod Errors
mod Success
pub mod Safety
mod Tests
pub use Types.*
unfoldable pub use Success.{create_generic_response}
unfoldable pub use Errors.{
  Total, type_names, validate_message_args, extended_info, extended_infos,
  create_generic_error_response, fill, general_error, internal_error_response,
}
