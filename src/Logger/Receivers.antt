-- ===== src/Logger/Receivers.antt =====
-- The logger against a specification: a map from severities to receivers, and the entries each got.
use bluetooth_le.Prelude.{
  ℕ, ◌≡◌, refl, ap, ◌∙◌, Bool, true, false, Option, none, some, List, [], ◌∷◌, Text, if◌then◌else◌,
  arith,
}
use bluetooth_le.Print.{c_str}
use bluetooth_le.Logger.{
  Severity, debug, info, status, warn, error, fatal, always, trace, Logger, register_receiver,
  deliver, log_c_string, when_set, log_string,
}

pub data Action : Type 0 where
  registers : Severity → Option ℕ → Action
  logs_c_string logs_string : Severity → Text → Action

unfoldable pub perform : Action → Logger → Logger
unfolding register_receiver log_c_string log_string
perform (registers sev r) l = register_receiver sev r l
perform (logs_c_string sev text) l = log_c_string sev text l
perform (logs_string sev text) l = log_string sev text l

unfoldable pub perform_all : List Action → Logger → Logger
unfolding perform
perform_all [] l = l
perform_all (a ∷ as') l = perform_all as' (perform a l)

unfoldable pub same : Severity → Severity → Bool
same debug debug = true
same info info = true
same status status = true
same warn warn = true
same error error = true
same fatal fatal = true
same always always = true
same trace trace = true
same _ _ = false

-- The last receiver that has been registered for a severity, from the one there was.
unfoldable pub last_registered : Severity → List Action → Option ℕ → Option ℕ
unfolding same
last_registered sev [] r = r
last_registered sev (registers other new ∷ rest) r =
    last_registered sev rest (if same other sev then new else r)
last_registered sev (_ ∷ rest) r = last_registered sev rest r

abbrev pub sent : Option ℕ → Text → List (ℕ × Text) → List (ℕ × Text)
sent none text log = log
sent (some r) text log = (r, c_str text) ∷ log

-- The entries that receivers get, by a map from severities to receivers.
unfoldable pub delivered : (Severity → Option ℕ) → List Action → List (ℕ × Text) → List (ℕ × Text)
unfolding same
delivered f [] log = log
delivered f (registers sev r ∷ rest) log =
    delivered (λ other. if same sev other then r else f other) rest log
delivered f (logs_c_string sev text ∷ rest) log = delivered f rest (sent (f sev) text log)
delivered f (logs_string sev text ∷ rest) log = delivered f rest (sent (f sev) text log)

unfoldable pub receiver : Logger → Severity → Option ℕ
receiver l debug = l.log_receiver_debug
receiver l info = l.log_receiver_info
receiver l status = l.log_receiver_status
receiver l warn = l.log_receiver_warn
receiver l error = l.log_receiver_error
receiver l fatal = l.log_receiver_fatal
receiver l always = l.log_receiver_always
receiver l trace = l.log_receiver_trace

register-receiver :
    (sev : Severity) (r : Option ℕ) (l : Logger) (other : Severity)
    → receiver (register_receiver sev r l) other ≡ (if same sev other then r else receiver l other)
unfolding receiver register_receiver same
register-receiver _ r l other = ground arith

entries-register :
    (sev : Severity) (r : Option ℕ) (l : Logger) → (register_receiver sev r l).entries ≡ l.entries
unfolding register_receiver
entries-register _ r l = ground arith

-- The two ways to log an entry do the same.
log_string-log_c_string :
    (sev : Severity) (text : Text) (l : Logger) → log_string sev text l ≡ log_c_string sev text l
unfolding log_string log_c_string when_set deliver
log_string-log_c_string _ text l = ground arith

receiver-log_c_string :
    (sev : Severity) (text : Text) (l : Logger) (other : Severity)
    → receiver (log_c_string sev text l) other ≡ receiver l other
unfolding log_c_string deliver receiver
receiver-log_c_string _ text l other = ground arith

entries-log_c_string :
    (sev : Severity) (text : Text) (l : Logger)
    → (log_c_string sev text l).entries ≡ sent (receiver l sev) text l.entries
unfolding log_c_string deliver receiver
entries-log_c_string _ text l = ground arith

after_log :
    (sev : Severity) (text : Text) (l : Logger) (f : Severity → Option ℕ)
    → ((other : Severity) → receiver l other ≡ f other)
    → ((other : Severity) → receiver (log_c_string sev text l) other ≡ f other)
      × ((log_c_string sev text l).entries ≡ sent (f sev) text l.entries)
after_log sev text l f same_f = (
  λ other. receiver-log_c_string sev text l other ∙ same_f other,
  entries-log_c_string sev text l ∙ ap (λ r. sent r text l.entries) (same_f sev),
)

-- Whatever is registered and logged: the receiver of a severity is the one registered last, and each
-- entry goes once, up to its first NUL byte, to the receiver that its severity has at that time, or
-- nowhere while there is none. A string is logged as the C string is.
pub perform_all-delivered :
    (actions : List Action) (l : Logger) (f : Severity → Option ℕ)
    → ((sev : Severity) → receiver l sev ≡ f sev)
    → ((sev : Severity)
        → receiver (perform_all actions l) sev ≡ last_registered sev actions (f sev))
      × ((perform_all actions l).entries ≡ delivered f actions l.entries)
unfolding perform_all perform last_registered delivered
perform_all-delivered [] l f same_f = (same_f, refl)
perform_all-delivered (registers sev r ∷ rest) l f same_f =
    let (kept, got) =
      perform_all-delivered rest (register_receiver sev r l)
        (λ other. if same sev other then r else f other)
        (λ other.
          register-receiver sev r l other
          ∙ ap (λ x. if same sev other then r else x) (same_f other)) in
    (
      kept,
      got
          ∙ ap (delivered (λ other. if same sev other then r else f other) rest)
              (entries-register sev r l),
    )
perform_all-delivered (logs_c_string sev text ∷ rest) l f same_f =
    let l' = log_c_string sev text l in
    let (same_f', sent_now) = after_log sev text l f same_f in
    let (kept, got) = perform_all-delivered rest l' f same_f' in
    (kept, got ∙ ap (delivered f rest) sent_now)
perform_all-delivered (logs_string sev text ∷ rest) l f same_f =
    let l' = log_c_string sev text l in
    let (same_f', sent_now) = after_log sev text l f same_f in
    let (kept, got) = perform_all-delivered rest l' f same_f' in
    let same_log = log_string-log_c_string sev text l in
    (
      λ other. ap (λ x. receiver (perform_all rest x) other) same_log ∙ kept other,
      ap (λ x. (perform_all rest x).entries) same_log ∙ got ∙ ap (delivered f rest) sent_now,
    )
