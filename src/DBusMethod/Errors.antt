-- ===== src/DBusMethod/Errors.antt =====
-- src/DBusError.cpp: an error and the `GError` made from it.
use bluetooth_le.Prelude.{◌≡◌, ap, ◌∙◌, some, Lacks}
use bluetooth_le.Print.{c_str}
use bluetooth_le.Print.CString.{c_str_of_Lacks}
use bluetooth_le.DBusMethod.{DBusError, from_g_error, to_g_error}

-- An error whose name and message hold no NUL byte comes back from the `GError` made from it.
pub from_g_error-to_g_error :
    (e : DBusError) → Lacks 0 e.name → Lacks 0 e.message → from_g_error (some (to_g_error e)) ≡ e
unfolding from_g_error to_g_error
from_g_error-to_g_error e n m =
    ap (λ t. record e { name = t; message = c_str e.message }) (c_str_of_Lacks e.name n)
    ∙ ap (λ t. record e { message = t }) (c_str_of_Lacks e.message m)
