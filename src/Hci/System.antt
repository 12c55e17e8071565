-- ===== src/Hci/System.antt =====
-- What the HCI layer asks of the operating system, which stands outside the repository. An answer may
-- depend on every call made before. A file descriptor is `none` where the program holds -1.
use bluetooth_le.Prelude.{ℕ, Bool, List, Option, Text}

pub data Call : Type 0 where
  -- `system`, and the pauses in milliseconds
  shell : Text → Call
  pause : ℕ → Call
  -- with the descriptor that the system answers
  open_socket : Option ℕ → Call
  device_info : Option ℕ → Call
  bind : Option ℕ → Call
  set_filter : Option ℕ → Call
  close : ℕ → Call
  select : Option ℕ → Call
  recv : Option ℕ → Call
  write : Option ℕ → Text → Call

-- The calls so far, the latest first.
abbrev pub Calls : Type 0
Calls = List Call

-- What `select` answers: a positive number, a negative one, or 0 when the time is over.
pub data Selected : Type 0 where
  ready failed timed_out : Selected

pub record System : Type 0 where
  -- the status of a command is 0
  pub succeeds : Calls → Text → Bool
  -- `none` is an error
  pub socket : Calls → Option ℕ
  -- no error
  pub informs : Calls → Option ℕ → Bool
  pub binds : Calls → Option ℕ → Bool
  pub filters : Calls → Option ℕ → Bool
  pub closes : Calls → ℕ → Bool
  pub selects : Calls → Option ℕ → Selected
  -- `none` is an error, and no byte says that the peer has closed the socket
  pub receives : Calls → Option ℕ → Option Text
  -- the number of bytes written; `none` is an error
  pub writes : Calls → Option ℕ → Text → Option ℕ
  -- another thread has called `HciSocket::stop`
  pub stopped : Calls → Bool
