-- ===== src/Gio/Replies.antt =====
-- Counts over the calls made so far: what has become of an invocation, the registrations of interfaces
-- and the calls of a signal handler.
use bluetooth_le.Prelude.{ℕ, suc, Bool, true, false, not, ◌&&◌, ◌||◌, [], ◌∷◌, ◌==◌, if◌then◌else◌}
use bluetooth_le.Gio.{
  Event, History, return_value, return_error, return_dbus_error, register_interface,
  unregister_object, signal_handler, is_tuple,
}

-- The event hands the invocation back to GIO, which takes it over. Without `any` it has to be a reply
-- that GIO sends: an error, or a value of the form that it asks for.
abbrev pub is_return : Bool → ℕ → Event → Bool
is_return any i (return_value j v) = (j == i) && (any || is_tuple v)
is_return any i (return_error j code message) = j == i
is_return any i (return_dbus_error j name message) = j == i
is_return any i _ = false

abbrev pub counted : Bool → ℕ → History → ℕ
counted any i [] = 0
counted any i (e ∷ h) = if is_return any i e then suc (counted any i h) else counted any i h

-- How often an invocation has been handed back, in whatever way, and how often it has been replied to.
abbrev pub returned : ℕ → History → ℕ
returned = counted true

abbrev pub replies : ℕ → History → ℕ
replies = counted false

abbrev pub is_registration : Event → Bool
is_registration (register_interface path interface id) = not (id == 0)
is_registration _ = false

-- How many interfaces GIO has registered.
abbrev pub registrations : History → ℕ
registrations [] = 0
registrations (e ∷ h) = if is_registration e then suc (registrations h) else registrations h

abbrev pub is_unregistration : Event → Bool
is_unregistration (unregister_object id) = true
is_unregistration _ = false

-- How many registrations GIO was asked to end.
abbrev pub unregistrations : History → ℕ
unregistrations [] = 0
unregistrations (e ∷ h) = if is_unregistration e then suc (unregistrations h) else unregistrations h

abbrev pub is_run_of : ℕ → Event → Bool
is_run_of w (signal_handler j name v) = j == w
is_run_of w _ = false

-- How often a signal handler has run.
abbrev pub runs : ℕ → History → ℕ
runs w [] = 0
runs w (e ∷ h) = if is_run_of w e then suc (runs w h) else runs w h
