-- ===== src/Response/Types.antt =====
-- The records of response.go. A body is the value that is marshalled to JSON: the common error, or
-- a service's own view `V`.
use hwmgmt_device_mgr_device.Base.{String, ℤ, ℕ, List}

-- An `interface{}` argument of a message: the name that `reflect.TypeOf` gives its type, and its
-- form under `%v`.
pub record Arg : Type 0 where
  pub type_name : String
  pub shown : String

abbrev pub text : String → Arg
text s = record { type_name = "string"; shown = s }

pub record Msg : Type 0 where
  pub odata_type : String
  pub message_id : String
  pub message : String
  pub severity : String
  pub message_args : List Arg
  pub resolution : String

pub record ErrorClass : Type 0 where
  pub code : String
  pub message : String
  pub message_extended_info : List Msg

pub record ErrArgs : Type 0 where
  pub status_message : String
  pub error_message : String
  pub message_args : List Arg

pub record Args : Type 0 where
  pub code : String
  pub message : String
  pub error_args : List ErrArgs

pub data Body (V : Type 0) : Type 0 where
  empty : Body V
  common_error : ErrorClass → Body V
  view : V → Body V

-- The header is a map; it is kept as the list of its entries.
pub record Rpc (V : Type 0) : Type 0 where
  pub status_code : ℤ
  pub status_message : String
  pub header : List (String × String)
  pub body : Body V

-- `Response`, which every Redfish body embeds.
pub record Response : Type 0 where
  pub odata_type : String
  pub odata_id : String
  pub odata_context : String
  pub description : String
  pub id : String
  pub name : String
  pub message : String
  pub message_id : String
  pub message_args : List String
  pub number_of_args : ℕ
  pub severity : String
