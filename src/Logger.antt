-- ===== src/Logger.antt =====
-- src/Logger.cpp: a receiver for each severity, and the three ways to log an entry. A receiver is
-- named by a number, and what it is called with is kept, the latest entry first.
pub mod Receivers
mod Tests
use bluetooth_le.Prelude.{ℕ, Option, none, some, List, [], ◌∷◌, Text}
use bluetooth_le.Print.{c_str}

pub data Severity : Type 0 where
  debug info status warn error fatal always trace : Severity

-- `none` is an empty `std::function`.
pub record Logger : Type 0 where
  pub log_receiver_debug : Option ℕ
  pub log_receiver_info : Option ℕ
  pub log_receiver_status : Option ℕ
  pub log_receiver_warn : Option ℕ
  pub log_receiver_error : Option ℕ
  pub log_receiver_fatal : Option ℕ
  pub log_receiver_always : Option ℕ
  pub log_receiver_trace : Option ℕ
  pub entries : List (ℕ × Text)

abbrev pub empty : Logger
empty = record {
  log_receiver_debug = none;
  log_receiver_info = none;
  log_receiver_status = none;
  log_receiver_warn = none;
  log_receiver_error = none;
  log_receiver_fatal = none;
  log_receiver_always = none;
  log_receiver_trace = none;
  entries = [];
}

-- `registerDebugReceiver` and the seven like it
unfoldable pub register_receiver : Severity → Option ℕ → Logger → Logger
register_receiver debug r l = record l { log_receiver_debug = r }
register_receiver info r l = record l { log_receiver_info = r }
register_receiver status r l = record l { log_receiver_status = r }
register_receiver warn r l = record l { log_receiver_warn = r }
register_receiver error r l = record l { log_receiver_error = r }
register_receiver fatal r l = record l { log_receiver_fatal = r }
register_receiver always r l = record l { log_receiver_always = r }
register_receiver trace r l = record l { log_receiver_trace = r }

-- `if (logReceiverDebug) logReceiverDebug(pText)`; the receiver reads up to the NUL byte.
unfoldable pub deliver : Option ℕ → Text → Logger → Logger
unfolding c_str
deliver none text l = l
deliver (some r) text l = record l { entries = (r, c_str text) ∷ l.entries }

-- `debug(const char *)` and the seven like it
unfoldable pub log_c_string : Severity → Text → Logger → Logger
unfolding deliver
log_c_string debug text l = deliver l.log_receiver_debug text l
log_c_string info text l = deliver l.log_receiver_info text l
log_c_string status text l = deliver l.log_receiver_status text l
log_c_string warn text l = deliver l.log_receiver_warn text l
log_c_string error text l = deliver l.log_receiver_error text l
log_c_string fatal text l = deliver l.log_receiver_fatal text l
log_c_string always text l = deliver l.log_receiver_always text l
log_c_string trace text l = deliver l.log_receiver_trace text l

-- A second test of the receiver stands before the call with the C string.
unfoldable pub when_set : Option ℕ → Logger → Logger → Logger
when_set none logged l = l
when_set (some r) logged l = logged

-- `debug(const std::string &)` and the seven like it. The forms that take a stream do the same with
-- its contents.
unfoldable pub log_string : Severity → Text → Logger → Logger
unfolding log_c_string when_set
log_string debug text l = when_set l.log_receiver_debug (log_c_string debug text l) l
log_string info text l = when_set l.log_receiver_info (log_c_string info text l) l
log_string status text l = when_set l.log_receiver_status (log_c_string status text l) l
log_string warn text l = when_set l.log_receiver_warn (log_c_string warn text l) l
log_string error text l = when_set l.log_receiver_error (log_c_string error text l) l
log_string fatal text l = when_set l.log_receiver_fatal (log_c_string fatal text l) l
log_string always text l = when_set l.log_receiver_always (log_c_string always text l) l
log_string trace text l = when_set l.log_receiver_trace (log_c_string trace text l) l
