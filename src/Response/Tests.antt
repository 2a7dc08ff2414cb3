-- ===== src/Response/Tests.antt =====
-- The theorems on error bodies at concrete arguments.
use hwmgmt_device_mgr_device.Base.{ℤ, pos, ◌≡◌, refl, [], ◌∷◌, arith}
use hwmgmt_device_mgr_device.Base.Exec.{ok, panic}
use hwmgmt_device_mgr_device.Response.Types.{text, ErrorClass, common_error}
use hwmgmt_device_mgr_device.Response.Errors.{general_error}
use hwmgmt_device_mgr_device.Response.Safety.{general_error-ok, general_error-panic}

general_error-ok_example :
    (c : ErrorClass) × (general_error {V = ℤ}
        (pos 404)
        "Base.1.11.0.ResourceNotFound"
        "no such task"
        (text "Task" ∷ text "task1" ∷ [])
      ≡ ok (record {
        status_code = pos 404;
        status_message = "Base.1.11.0.ResourceNotFound";
        header = [];
        body = common_error c;
      }))
general_error-ok_example =
    general_error-ok (pos 404) "Base.1.11.0.ResourceNotFound" "no such task"
      (text "Task" ∷ text "task1" ∷ []) refl (refl, (refl, tt))

general_error-panic_example :
    general_error {V = ℤ} (pos 404) "Base.1.11.0.ResourceNotFound" "no such task" []
    ≡ panic "error: messageArgs doesn't match the expected count"
general_error-panic_example =
    general_error-panic (pos 404) "Base.1.11.0.ResourceNotFound" "no such task" [] (omega arith)
      (omega arith)
