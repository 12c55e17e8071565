-- ===== src/Connection/Registration.antt =====
-- Registering an object and taking it off the bus again.
use bluetooth_le.Prelude.{
  ℕ, suc, ◌+◌, ◌≡◌, ◌⊎◌, refl, sym, ap, ◌∙◌, subst, true, false, List, [], ◌∷◌, none, some, Text,
  arith, length, ◌==◌, find, insert, erase, find-insert, erase-insert_new, text_eq_refl,
  Option-cases, inl, inr,
}
use mathlib.Core.Bool.{true≢false}
use bluetooth_le.ObjectPath.{DBusObjectPath}
use bluetooth_le.Gio.{Event, Environment, register_interface, is_closed}
use bluetooth_le.Gio.Replies.{registrations, unregistrations}
use bluetooth_le.Connection.{
  DBusConnection, call, is_connected, register_all, register_parsed, register_object,
  unregister_path,
}

registered-register_all :
    (env : Environment) (path : DBusObjectPath) (interfaces : List Text) (id : ℕ)
    (c : DBusConnection)
    → (register_all env path interfaces id c).1.registered_objects ≡ c.registered_objects
unfolding register_all
registered-register_all env path [] id c = refl
registered-register_all env path (i ∷ is) id c = registered-register_all env path is _ _

-- GIO registers every interface.
abbrev pub Registers : Environment → DBusObjectPath → Type 0
Registers env path =
    (h : List Event) (interface : Text) → (env.registers h path.path interface == 0) ≡ false

registrations-register_all :
    (env : Environment) (path : DBusObjectPath) (interfaces : List Text) (id : ℕ)
    (c : DBusConnection)
    → Registers env path
    → (registrations (register_all env path interfaces id c).1.history
        ≡ registrations c.history + length interfaces)
      × (unregistrations (register_all env path interfaces id c).1.history
          ≡ unregistrations c.history)
unfolding register_all
registrations-register_all env path [] id c h = (omega arith, refl)
registrations-register_all env path (i ∷ is) id c h =
    let new = env.registers c.history path.path i in
    let (r, u) =
      registrations-register_all env path is new (call (register_interface path.path i new) c) h in
    ground (arith, h c.history i, r, u)

-- What is left by a registration that succeeds: the path was free and has a number now, and each
-- interface was registered.
abbrev pub Registered : DBusObjectPath → List Text → DBusConnection → DBusConnection → Type 0
Registered path interfaces c c1 =
    (id : ℕ) × (c1.registered_objects ≡ insert path.path id c.registered_objects)
    × (registrations c1.history ≡ registrations c.history + length interfaces)
    × (unregistrations c1.history ≡ unregistrations c.history)

register_parsed-Registered :
    (env : Environment) (path : DBusObjectPath) (interfaces : List Text) (c : DBusConnection)
    → Registers env path
    → (register_parsed env path (some interfaces) c).0 ≡ true
    → Registered path interfaces c (register_parsed env path (some interfaces) c).1
unfolding register_parsed
register_parsed-Registered env path interfaces c h e =
    let (r, u) = registrations-register_all env path interfaces 0 c h in
    let m = registered-register_all env path interfaces 0 c in
    (
      (register_all env path interfaces 0 c).0,
      ground (arith, m),
      ground (arith, r),
      ground (arith, u),
    )

-- Whether there is a connection, and the call that asks.
is_connected_cases :
    (env : Environment) (c : DBusConnection)
    → (is_connected env c ≡ (true, call is_closed c)) ⊎ ((is_connected env c).0 ≡ false)
unfolding is_connected
is_connected_cases env c = ground arith

register_object-parsed :
    (env : Environment) (path : DBusObjectPath) (xml : Text) (c : DBusConnection)
    → (register_object env path xml c).0 ≡ true
    → (find path.path c.registered_objects ≡ none)
      × (register_object env path xml c
          ≡ register_parsed env path (env.parses xml) (call is_closed c))
unfolding register_object
register_object-parsed env path xml c e = elim (is_connected_cases env c) [
  | inl x ↦ elim (Option-cases (find path.path c.registered_objects)) [
    | inl n ↦
        (n, rw (x, n, register_object) (ap (λ r. register_parsed env path (env.parses xml) r.1) x))
    | inr (id, n) ↦ elim (true≢false (sym e ∙ rw (x, n, register_object) refl)) [ ]
  ]
  | inr x ↦ elim (true≢false (sym e ∙ rw (x, register_object) refl)) [ ]
]

register_object-Registered :
    (env : Environment) (path : DBusObjectPath) (xml : Text) (c : DBusConnection)
    {interfaces : List Text}
    → env.parses xml ≡ some interfaces
    → Registers env path
    → (register_object env path xml c).0 ≡ true
    → (find path.path c.registered_objects ≡ none)
      × Registered path interfaces c (register_object env path xml c).1
register_object-Registered env path xml c {interfaces} p h e =
    let (free, opened) = register_object-parsed env path xml c e in
    let same = opened ∙ ap (λ o. register_parsed env path o (call is_closed c)) p in
    (
      free,
      subst (λ r. Registered path interfaces c r.1) (sym same)
          (register_parsed-Registered env path interfaces (call is_closed c) h
            (ap (λ r. r.0) (sym same) ∙ e)),
    )

unregister_path-erased :
    (env : Environment) (path : DBusObjectPath) (c : DBusConnection)
    → (unregister_path env path c).0 ≡ true
    → let c1 = (unregister_path env path c).1 in
      (c1.registered_objects ≡ erase path.path c.registered_objects)
      × (registrations c1.history ≡ registrations c.history)
      × (unregistrations c1.history ≡ suc (unregistrations c.history))
unfolding unregister_path
unregister_path-erased env path c e = ground (arith, is_connected_cases env c)

-- An object that is registered and taken off the bus leaves the map of registrations as it was. Each
-- of its interfaces has been registered with GIO, where GIO registers them all, but GIO is asked to
-- end one registration only.
pub register-unregister :
    (env : Environment) (path : DBusObjectPath) (xml : Text) (c : DBusConnection)
    {interfaces : List Text}
    → env.parses xml ≡ some interfaces
    → Registers env path
    → (register_object env path xml c).0 ≡ true
    → (unregister_path env path (register_object env path xml c).1).0 ≡ true
    → let c2 = (unregister_path env path (register_object env path xml c).1).1 in
      (c2.registered_objects ≡ c.registered_objects)
      × (registrations c2.history ≡ registrations c.history + length interfaces)
      × (unregistrations c2.history ≡ suc (unregistrations c.history))
register-unregister env path xml c p h e gone =
    let (free, (id, m, r, u)) = register_object-Registered env path xml c p h e in
    let (m2, r2, u2) = unregister_path-erased env path (register_object env path xml c).1 gone in
    (
      m2 ∙ ap (erase path.path) m ∙ erase-insert_new path.path id c.registered_objects free,
      r2 ∙ r,
      u2 ∙ ap suc u,
    )

register_object_taken :
    (env : Environment) (path : DBusObjectPath) (xml : Text) (id : ℕ) (c : DBusConnection)
    → find path.path c.registered_objects ≡ some id
    → ((register_object env path xml c).0 ≡ false)
      × ((register_object env path xml c).1.registered_objects ≡ c.registered_objects)
unfolding register_object is_connected
register_object_taken env path xml id c h = (ground (arith, h), ground (arith, h))

-- A path that has been registered cannot be registered again: the second attempt fails and leaves
-- the map of registrations as it is, whatever XML it brings.
pub register-twice :
    (env : Environment) (path : DBusObjectPath) (xml again : Text) (c : DBusConnection)
    {interfaces : List Text}
    → env.parses xml ≡ some interfaces
    → Registers env path
    → (register_object env path xml c).0 ≡ true
    → let c1 = (register_object env path xml c).1 in
      ((register_object env path again c1).0 ≡ false)
      × ((register_object env path again c1).1.registered_objects ≡ c1.registered_objects)
register-twice env path xml again c p h e =
    let (free, (id, m, r, u)) = register_object-Registered env path xml c p h e in
    register_object_taken env path again id (register_object env path xml c).1 (
      ap (find path.path) m
      ∙ find-insert path.path path.path id c.registered_objects
      ∙ rw (text_eq_refl path.path) refl)
