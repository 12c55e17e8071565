-- ===== src/Gatt/Locks/Sequential/OfDescriptor.antt =====
-- One thread alone does to a descriptor what `Gatt.Descriptor` says.
use bluetooth_le.Prelude.{
  ℕ, ◌≡◌, refl, Bool, true, false, [], ◌∷◌, none, some, Text, arith, if◌then◌else◌, Option-cases,
  inl, inr,
}
use bluetooth_le.Gio.{Environment, write_callback, return_value}
use bluetooth_le.Threads.{Program, ◌>>=◌, ◌>>◌, guarded}
use bluetooth_le.Threads.Alone.{run}
use bluetooth_le.Gatt.Characteristic
use bluetooth_le.Gatt.Characteristic.{string_from_byte_array}
use bluetooth_le.Gatt.Descriptor
use bluetooth_le.Gatt.Descriptor.{is_configuration}
use bluetooth_le.Gatt.Locks
use bluetooth_le.Gatt.Locks.{Shared, Code}
use bluetooth_le.Gatt.Locks.Descriptors
use bluetooth_le.DBusTypes.{DBusMethodCall}
use bluetooth_le.Gatt.Locks.Operations.{
  set_descriptor, write_descriptor, read_descriptor, effect, stored, stored_both,
}
use bluetooth_le.Connection.{call}
use bluetooth_le.Gatt.Locks.Sequential.{run-bind, run-drop, start_notify-run, stop_notify-run}

module _ (env : Environment) where
  configure-run :
      (new : Text) (s : Shared)
      → run (Descriptors.configure env new) s
        ≡ (tt, stored s (Descriptor.configure env new s.characteristic s.connection))
  unfolding Descriptors.configure Descriptor.configure run ◌>>◌
  configure-run [] s = refl
  configure-run (b0 ∷ []) s = refl
  configure-run (b0 ∷ b1 ∷ rest) s = ground (
    arith,
    run-drop (Locks.start_notify env) s,
    run-drop (Locks.stop_notify env) s,
    start_notify-run env s,
    stop_notify-run env s,
  )

  configured-run :
      (b : Bool) (new : Text) (s : Shared)
      → run (if b then Descriptors.configure env new else Program.return tt) s ≡ (
        tt,
        stored s (
            if b
            then Descriptor.configure env new s.characteristic s.connection
            else (s.characteristic, s.connection)),
      )
  unfolding run
  configured-run true new s = configure-run new s
  configured-run false new s = refl

  announce-run :
      (s : Shared)
      → run (Descriptors.announce env) s
        ≡ (tt, record s { connection = Descriptor.emit_value env s.descriptor s.connection })
  unfolding Descriptors.announce Descriptors.announce_value Descriptor.emit_value run ◌>>=◌
  announce-run s = ground arith

  pub set_descriptor-run :
      (new : Text) (s : Shared)
      → run (Descriptors.set_value env new) s ≡ (tt, effect env (set_descriptor new) s)
  unfolding Descriptors.set_value Descriptor.set_value run effect ◌>>=◌ ◌>>◌ guarded
  set_descriptor-run new s =
      let s' = record s { descriptor = record s.descriptor { value = new } } in
      let b = is_configuration s.descriptor.uuid in
      rw
        (
          run-bind (if b then Descriptors.configure env new else Program.return tt)
              (λ _. Descriptors.announce env) s',
          configured-run b new s',
          announce-run,
        )
        refl

  pub read_descriptor-run :
      (m : DBusMethodCall) (s : Shared)
      → run (Descriptors.handle_read_value env m) s ≡ (tt, effect env (read_descriptor m) s)
  unfolding Descriptors.handle_read_value Descriptor.handle_read_value Characteristic.reply_read run
      ◌>>=◌ ◌>>◌ guarded Descriptors.ask_read Locks.call_read Locks.called Locks.reply_read effect
  read_descriptor-run m s = ground arith

  -- The store of a descriptor, then the reply.
  stored-run :
      (i : ℕ) (new : Text) (s : Shared)
      → run (Locks.reply_write env i (Descriptors.set_value env new) (some true)) s ≡ (
        tt,
        let (r, c) = Descriptor.set_value env new s.descriptor s.characteristic s.connection in
            stored_both (r, call (return_value i none) c),
      )
  unfolding Locks.reply_write run ◌>>◌ effect
  stored-run i new s =
      rw
        (
          run-bind (Descriptors.set_value env new) (λ _. Locks.answer (call (return_value i none)))
              s,
          set_descriptor-run new s,
        )
        refl

  pub write_descriptor-run :
      (m : DBusMethodCall) (s : Shared)
      → run (Descriptors.handle_write_value env m) s ≡ (tt, effect env (write_descriptor m) s)
  unfolding Descriptors.handle_write_value Descriptors.write_parameters
      Descriptor.handle_write_value Descriptor.write_parameters Characteristic.ask_write
      Characteristic.answer_write run ◌>>=◌ ◌>>◌ guarded Locks.ask_write Locks.called
      Locks.reply_write effect
  write_descriptor-run m s = elim (Option-cases m.invocation) [
    | inl none_i ↦ ground (arith, none_i)
    | inr (i, some_i) ↦ elim (Option-cases m.parameters) [
      | inl none_v ↦ rw (some_i, none_v) refl
      | inr (v, some_v) ↦
          (let new = string_from_byte_array env v in
            let s1 = record s { connection = call (write_callback new) s.connection } in
            rw (some_i, some_v) (ground (arith, stored-run i new s, stored-run i new s1)))
    ]
  ]
