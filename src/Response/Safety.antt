-- ===== src/Response/Safety.antt =====
-- When the error body of a response is built, and when the call panics instead.
use hwmgmt_device_mgr_device.Base.{
  String, ℤ, ℕ, ◌≡◌, refl, ◌≢◌, Bool, true, false, List, [], ◌∷◌, ◌++◌, length, All, arith, ◌==◌,
  if◌then◌else◌,
}
use hwmgmt_device_mgr_device.Base.Exec.{ok, panic}
use hwmgmt_device_mgr_device.Response.Messages.{
  success, resource_removed, insufficient_privilege, internal_error, property_missing,
  property_unknown, property_value_not_in_list, property_value_type_error, malformed_json,
  resource_not_found, no_valid_session, resource_in_use, property_value_format_error,
  resource_at_uri_unauthorized, could_not_establish_connection, action_not_supported,
  resource_already_exists, query_combination_invalid, query_not_supported,
  action_parameter_not_supported, resource_cannot_be_deleted, property_value_conflict, no_operation,
}
use hwmgmt_device_mgr_device.Response.Types.{Arg, Msg, ErrArgs, common_error, ErrorClass}
use hwmgmt_device_mgr_device.Response.Errors.{
  validate_message_args, extended_info, general_error, checked, shown_one, shown_two, shown_three,
  Total,
}

-- How many arguments each case of the `switch` asks for; 0 where none are checked.
abbrev pub arity : String → ℕ
arity m =
    if m == success
    then 0
    else if m == resource_removed
    then 0
    else if m == insufficient_privilege
    then 0
    else if m == internal_error
    then 0
    else if m == property_missing
    then 1
    else if m == property_unknown
    then 1
    else if m == property_value_not_in_list
    then 2
    else if m == property_value_type_error
    then 2
    else if m == malformed_json
    then 0
    else if m == resource_not_found
    then 2
    else if m == no_valid_session
    then 0
    else if m == resource_in_use
    then 0
    else if m == property_value_format_error
    then 2
    else if m == resource_at_uri_unauthorized
    then 1
    else if m == could_not_establish_connection
    then 1
    else if m == action_not_supported
    then 1
    else if m == resource_already_exists
    then 3
    else if m == query_combination_invalid
    then 0
    else if m == query_not_supported
    then 0
    else if m == action_parameter_not_supported
    then 2
    else if m == resource_cannot_be_deleted
    then 0
    else if m == property_value_conflict
    then 2
    else if m == no_operation
    then 0
    else 0

abbrev pub AllStrings : List Arg → Type 0
AllStrings = All (λ a. a.type_name ≡ "string")

-- What one round of the loop gives for arguments `args`, where the registry wants `n` of them: with
-- `n` strings it gives its part of the body, and with another number of arguments it panics, unless
-- none are wanted.
abbrev Obeys : List Arg → Total (List Msg) → ℕ → Type 0
Obeys args r n =
    (length args ≡ n → AllStrings args → (ms : List Msg) × (r ≡ ok ms))
    × (n ≢ 0 → length args ≢ n → r ≡ panic "error: messageArgs doesn't match the expected count")

module _ (args : List Arg) where
  Obeys-if :
      (b : Bool) {r s : Total (List Msg)} {n m : ℕ}
      → Obeys args r n
      → Obeys args s m
      → Obeys args (if b then r else s) (if b then n else m)
  Obeys-if true p q = p
  Obeys-if false p q = q

  Obeys-plain : (ms : List Msg) → Obeys args (ok ms) 0
  Obeys-plain ms = (λ _ _. (ms, refl), λ h. absurd (h refl))

  Obeys-checked :
      (types : List String) (n : ℕ) (k : Total (List Msg))
      → (length args ≡ n
          → AllStrings args
          → (ms : List Msg) × (checked (validate_message_args args types n) k ≡ ok ms))
      → Obeys args (checked (validate_message_args args types n) k) n
  unfolding validate_message_args
  Obeys-checked types n k fits = (fits, λ _ h. ground arith)

one-lem :
    (args : List Arg) (f : String → List Msg)
    → length args ≡ 1
    → AllStrings args
    → (ms : List Msg) × (checked
          (validate_message_args args ("string" ∷ []) 1)
          (shown_one args (λ a. ok (f a)))
        ≡ ok ms)
unfolding validate_message_args
one-lem [] f h s = absurd (omega arith)
one-lem (a ∷ []) f h s = (f a.shown, rw s.0)
one-lem (a ∷ x ∷ r) f h s = absurd (omega arith)

two-lem :
    (args : List Arg) (f : String → String → List Msg)
    → length args ≡ 2
    → AllStrings args
    → (ms : List Msg) × (checked
          (validate_message_args args ("string" ∷ "string" ∷ []) 2)
          (shown_two args (λ a b. ok (f a b)))
        ≡ ok ms)
unfolding validate_message_args
two-lem [] f h s = absurd (omega arith)
two-lem (a ∷ []) f h s = absurd (omega arith)
two-lem (a ∷ b ∷ []) f h s = (f a.shown b.shown, rw (s.0, s.1.0))
two-lem (a ∷ b ∷ x ∷ r) f h s = absurd (omega arith)

two_unshown-lem :
    (args : List Arg) (ms : List Msg)
    → length args ≡ 2
    → AllStrings args
    → (ms' : List Msg) × (checked (validate_message_args args ("string" ∷ "string" ∷ []) 2) (ok ms)
        ≡ ok ms')
unfolding validate_message_args
two_unshown-lem [] ms h s = absurd (omega arith)
two_unshown-lem (a ∷ []) ms h s = absurd (omega arith)
two_unshown-lem (a ∷ b ∷ []) ms h s = (ms, rw (s.0, s.1.0))
two_unshown-lem (a ∷ b ∷ x ∷ r) ms h s = absurd (omega arith)

three-lem :
    (args : List Arg) (f : String → String → String → List Msg)
    → length args ≡ 3
    → AllStrings args
    → (ms : List Msg) × (checked
          (validate_message_args args ("string" ∷ "string" ∷ "string" ∷ []) 3)
          (shown_three args (λ a b c. ok (f a b c)))
        ≡ ok ms)
unfolding validate_message_args
three-lem [] f h s = absurd (omega arith)
three-lem (a ∷ []) f h s = absurd (omega arith)
three-lem (a ∷ b ∷ []) f h s = absurd (omega arith)
three-lem (a ∷ b ∷ c ∷ []) f h s = (f a.shown b.shown c.shown, rw (s.0, s.1.0, s.1.1.0))
three-lem (a ∷ b ∷ c ∷ x ∷ r) f h s = absurd (omega arith)

-- Every branch of the `switch`.
extended_info-Obeys :
    (e : ErrArgs) → Obeys e.message_args (extended_info e) (arity e.status_message)
unfolding extended_info
extended_info-Obeys e =
    let args = e.message_args in
    Obeys-if args (e.status_message == success) (Obeys-plain args _) (
      Obeys-if args (e.status_message == resource_removed) (Obeys-plain args _) (
        Obeys-if args (e.status_message == insufficient_privilege) (Obeys-plain args _) (
          Obeys-if args (e.status_message == internal_error) (Obeys-plain args _) (
            Obeys-if args (e.status_message == property_missing)
              (Obeys-checked args ("string" ∷ []) 1 _ (one-lem args _))
              (Obeys-if args (e.status_message == property_unknown)
                (Obeys-checked args ("string" ∷ []) 1 _ (one-lem args _))
                (Obeys-if args (e.status_message == property_value_not_in_list)
                  (Obeys-checked args ("string" ∷ "string" ∷ []) 2 _ (two-lem args _))
                  (Obeys-if args (e.status_message == property_value_type_error)
                    (Obeys-checked args ("string" ∷ "string" ∷ []) 2 _ (two-lem args _))
                    (Obeys-if args (e.status_message == malformed_json) (Obeys-plain args _) (
                      Obeys-if args (e.status_message == resource_not_found)
                        (Obeys-checked args ("string" ∷ "string" ∷ []) 2 _ (two-lem args _))
                        (Obeys-if args (e.status_message == no_valid_session) (Obeys-plain args _) (
                          Obeys-if args (e.status_message == resource_in_use) (Obeys-plain args _) (
                            Obeys-if args (e.status_message == property_value_format_error)
                              (Obeys-checked args ("string" ∷ "string" ∷ []) 2 _ (two-lem args _))
                              (Obeys-if args (e.status_message == resource_at_uri_unauthorized)
                                (Obeys-checked args ("string" ∷ []) 1 _ (one-lem args _))
                                (Obeys-if args (e.status_message == could_not_establish_connection)
                                  (Obeys-checked args ("string" ∷ []) 1 _ (one-lem args _))
                                  (Obeys-if args (e.status_message == action_not_supported)
                                    (Obeys-checked args ("string" ∷ []) 1 _ (one-lem args _))
                                    (Obeys-if args (e.status_message == resource_already_exists)
                                      (Obeys-checked args ("string" ∷ "string" ∷ "string" ∷ []) 3 _
                                        (three-lem args _))
                                      (Obeys-if args (e.status_message == query_combination_invalid)
                                        (Obeys-plain args _)
                                        (Obeys-if args (e.status_message == query_not_supported)
                                          (Obeys-plain args _)
                                          (Obeys-if args
                                            (e.status_message == action_parameter_not_supported)
                                            (Obeys-checked args ("string" ∷ "string" ∷ []) 2 _
                                              (two_unshown-lem args _))
                                            (Obeys-if args
                                              (e.status_message == resource_cannot_be_deleted)
                                              (Obeys-plain args _)
                                              (Obeys-if args
                                                (e.status_message == property_value_conflict)
                                                (Obeys-checked args ("string" ∷ "string" ∷ []) 2 _
                                                  (two-lem args _))
                                                (Obeys-if args (e.status_message == no_operation)
                                                  (Obeys-plain args _)
                                                  (Obeys-plain args _)))))))))))))))))))))))

-- With as many string arguments as the message wants, `general_error` returns a response with the
-- code and the message that it was given, and with an error body.
pub general_error-ok :
    {V : Type 0} (code : ℤ) (message error : String) (args : List Arg)
    → length args ≡ arity message
    → AllStrings args
    → (c : ErrorClass) × (general_error {V = V} code message error args
        ≡ ok (record {
          status_code = code;
          status_message = message;
          header = [];
          body = common_error c;
        }))
unfolding general_error
general_error-ok code message error args n s =
    let e : ErrArgs = record {
      status_message = message;
      error_message = error;
      message_args = args;
    } in
    let (ms, eq) = (extended_info-Obeys e).0 n s in
    (
      record {
        code = "Base.1.11.0.GeneralError";
        message = "An error has occurred. See ExtendedInfo for more information.";
        message_extended_info = ms ++ [];
      },
      rw eq,
    )

-- With another number of arguments, for a message that wants some, `general_error` panics.
pub general_error-panic :
    {V : Type 0} (code : ℤ) (message error : String) (args : List Arg)
    → arity message ≢ 0
    → length args ≢ arity message
    → general_error {V = V} code message error args
      ≡ panic "error: messageArgs doesn't match the expected count"
unfolding general_error
general_error-panic code message error args n s =
    let e : ErrArgs = record {
      status_message = message;
      error_message = error;
      message_args = args;
    } in
    rw ((extended_info-Obeys e).1 n s)
