-- ===== src/Connection/Delivery.antt =====
-- What the handlers of incoming calls and signals do with the handlers of the application.
use bluetooth_le.Prelude.{
  ==_iff, ℕ, suc, ◌+◌, ◌≤◌, ◌≡◌, ◌⊎◌, refl, ap, ◌∙◌, true, List, [], ◌∷◌, Option, none, some, Text,
  arith, ltb, ◌==◌, if◌then◌else◌, Dict, find, Option-cases, inl, inr,
}
use bluetooth_le.ObjectPath.{DBusObjectPath}
use bluetooth_le.Gio.{
  Variant, Event, History, Environment, Outcome, returns, throws, return_dbus_error, signal_handler,
  signal_subscribe,
}
use bluetooth_le.Gio.Replies.{returned, runs}
use bluetooth_le.DBusTypes.{DBusMethodCall}
use bluetooth_le.Connection.{DBusConnection, call, is_connected, insert_watch, add_signal_watch}
use bluetooth_le.Connection.Dispatch.{
  HandlerData, run_handler, find_method, handle_method_call, deliver, handle_signal,
}

-- How often a handler is among the watches.
pub watches : ℕ → List (ℕ × ℕ) → ℕ
watches w [] = 0
watches w ((id, handler) ∷ m) = let rest = watches w m in if handler == w then suc rest else rest

runs-deliver :
    (w : ℕ) (m : List (ℕ × ℕ)) (name : Text) (v : Variant) (c : DBusConnection)
    → runs w (deliver m name v c).history ≡ runs w c.history + watches w m
unfolding deliver watches
runs-deliver w [] name v c = omega arith
runs-deliver w ((id, handler) ∷ m) name v c =
    ground (arith, runs-deliver w m name v (call (signal_handler handler name v) c))

watches-insert_watch : (id w : ℕ) (m : List (ℕ × ℕ)) → 1 ≤ watches w (insert_watch id w m)
unfolding insert_watch watches
watches-insert_watch id w [] = ground arith
watches-insert_watch id w ((j, u) ∷ m) = ground (arith, watches-insert_watch id w m)

added-watches :
    (env : Environment) (sender interface name : Text) (path : DBusObjectPath) (w : ℕ)
    (c : DBusConnection)
    → ltb 0 (add_signal_watch env sender interface name path w c).0 ≡ true
    → 1 ≤ watches w (add_signal_watch env sender interface name path w c).1.signal_handlers
unfolding add_signal_watch
added-watches env sender interface name path w c h =
    let c1 = (is_connected env c).1 in
    let id = env.subscribes c1.history (signal_subscribe sender interface name path.path) in
    ground (arith, watches-insert_watch id w c1.signal_handlers)

-- A handler that has been added for one signal of one sender runs at any signal that comes in
-- afterwards, whatever its name; each handler runs as often as it is among the watches.
pub handle_signal-runs :
    (env : Environment) (sender interface name other : Text) (path : DBusObjectPath) (w : ℕ)
    (v : Variant) (c : DBusConnection)
    → ltb 0 (add_signal_watch env sender interface name path w c).0 ≡ true
    → let c1 = (add_signal_watch env sender interface name path w c).1 in
      (1 ≤ watches w c1.signal_handlers)
      × (runs w (handle_signal other v c1).history
          ≡ runs w c1.history + watches w c1.signal_handlers)
unfolding handle_signal
handle_signal-runs env sender interface name other path w v c h =
    let c1 = (add_signal_watch env sender interface name path w c).1 in
    (
      added-watches env sender interface name path w c h,
      runs-deliver w c1.signal_handlers other v c1,
    )

-- A handler that returns has handed the invocation back, and one that throws has not.
abbrev pub answers : Outcome (Unit {0}) → ℕ
answers (returns x) = 1
answers (throws what) = 0

Outcome-cases : (o : Outcome (Unit {0})) → (o ≡ returns tt) ⊎ ((what : Text) × (o ≡ throws what))
Outcome-cases (returns tt) = inl refl
Outcome-cases (throws what) = inr (what, refl)

-- `history` is the part of the program's state that holds the calls, and `send` makes a call.
abbrev pub Sends : {S : Type 0} → (S → History) → (Event → S → S) → Type 0
Sends {S} history send = (e : Event) (s : S) → history (send e s) ≡ e ∷ history s

-- The handler that is registered for a method of an interface.
unfoldable pub handler_of : {F : Type 0} → Option (Dict F) → Text → Option F
unfolding find
handler_of none method = none
handler_of (some methods) method = find method methods

module _ {S F : Type 0} (history : S → History) (send : Event → S → S)
    (run : F → DBusMethodCall → S → Outcome (Unit {0}) × S) (i : ℕ)
    (sends : Sends history send) where
  -- What a handler does with the invocation of one call in one state.
  abbrev pub HandsOver : F → DBusMethodCall → S → Type 0
  HandsOver f m s =
      returned i (history (run f m s).1) ≡ answers (run f m s).0 + returned i (history s)

  returned-send_error :
      (name message : Text) (s : S)
      → returned i (history (send (return_dbus_error i name message) s))
        ≡ suc (returned i (history s))
  returned-send_error name message s =
      ap (returned i) (sends (return_dbus_error i name message) s) ∙ rw ((==_iff i i).1 refl) refl

  returned-run_handler :
      (f : F) (m : DBusMethodCall) (s : S)
      → HandsOver f m s
      → returned i (history (run_handler send run f m i s)) ≡ suc (returned i (history s))
  unfolding run_handler
  returned-run_handler f m s once = elim (Outcome-cases (run f m s).0) [
    | inl e ↦ rw (e, run_handler) (once ∙ rw e (omega arith))
    | inr (what, e) ↦
        rw (e, run_handler)
          (returned-send_error _ _ (run f m s).1 ∙ ap suc (once ∙ rw e (omega arith)))
  ]

  returned-find_method :
      (found : Option (Dict F)) (m : DBusMethodCall) (s : S)
      → ((f : F) → handler_of found m.method ≡ some f → HandsOver f m s)
      → returned i (history (find_method send run found m i s)) ≡ suc (returned i (history s))
  unfolding find_method handler_of
  returned-find_method none m s once = returned-send_error _ _ s
  returned-find_method (some methods) m s once = elim (Option-cases (find m.method methods)) [
    | inl n ↦ rw (n, find_method) (returned-send_error _ _ s)
    | inr (f, n) ↦ rw (n, find_method) (returned-run_handler f m s (once f n))
  ]

  -- A call from the bus is handed back to GIO exactly once, whether its interface and its method are
  -- known or not and whether the handler returns or throws, if the handler that is registered for the
  -- method, where there is one, hands this call back once in this state when it returns, and not at all
  -- when it throws.
  pub handle_method_call-answers :
      {G T : Type 0} (d : HandlerData G T F) (sender interface method : Text)
      (parameters : Option Variant) (s : S)
      → ((f : F)
          → handler_of (find interface d.method_handlers) method ≡ some f
          → HandsOver f
              (record {
                sender = sender;
                interface = interface;
                method = method;
                parameters = parameters;
                invocation = some i;
              })
              s)
      → returned i (history (handle_method_call send run d sender interface method parameters i s))
        ≡ suc (returned i (history s))
  unfolding handle_method_call
  handle_method_call-answers d sender interface method parameters s once =
      returned-find_method _ _ s once
