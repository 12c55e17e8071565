-- ===== src/Gatt/Application/Services.antt =====
-- The services of an application: their UUIDs are distinct, and they are found by them.
use mathlib.Core.Bool.{true≢false}
use bluetooth_le.Prelude.{
  ◌≡◌, refl, sym, ◌∙◌, subst, true, false, List, [], ◌∷◌, ◌++◌, Option, none, some, Text, arith,
  text_eq, text_eq_iff, text_eq_sound, text_eq_refl, Bool-cases, inl, inr,
}
use bluetooth_le.Uuid.{GattUuid}
use bluetooth_le.Gatt.Records.{GattService}
use bluetooth_le.Gatt.Application.{
  GattApplication, has_service, find_service, erase_service, add_service, remove_service,
  get_service,
}

-- No two services have the same UUID.
unfoldable pub AreDistinct : List GattService → Type 0
unfolding has_service
AreDistinct [] = Unit
AreDistinct (s ∷ ss) = (has_service s.uuid.uuid ss ≡ false) × AreDistinct ss

has_service_cases :
    (k : Text) (t : GattService) (ss : List GattService)
    → has_service k (t ∷ ss) ≡ false
    → (text_eq t.uuid.uuid k ≡ false) × (has_service k ss ≡ false)
unfolding has_service
has_service_cases k t ss h = ground arith

text_eq_swap : (s t : Text) → text_eq s t ≡ false → text_eq t s ≡ false
text_eq_swap s t h = ground (arith, text_eq_iff s t, text_eq_iff t s)

has_service-append :
    (k : Text) (ss : List GattService) (s : GattService)
    → has_service k ss ≡ false
    → text_eq s.uuid.uuid k ≡ false
    → has_service k (ss ++ s ∷ []) ≡ false
unfolding has_service
has_service-append k [] s h e = ground (arith, e)
has_service-append k (t ∷ ss) s h e = ground (arith, e, has_service-append k ss s)

pub append-AreDistinct :
    (ss : List GattService) (s : GattService)
    → AreDistinct ss
    → has_service s.uuid.uuid ss ≡ false
    → AreDistinct (ss ++ s ∷ [])
unfolding AreDistinct has_service
append-AreDistinct [] s d h = (refl, tt)
append-AreDistinct (t ∷ ss) s (n, d) h =
    let (ts, rest) = has_service_cases s.uuid.uuid t ss h in
    (
      has_service-append t.uuid.uuid ss s n (text_eq_swap t.uuid.uuid s.uuid.uuid ts),
      append-AreDistinct ss s d rest,
    )

has_service-erase_service :
    (k u : Text) (ss : List GattService)
    → has_service k ss ≡ false
    → has_service k (erase_service u ss) ≡ false
unfolding has_service erase_service
has_service-erase_service k u [] h = refl
has_service-erase_service k u (t ∷ ss) h = ground (arith, has_service-erase_service k u ss)

pub erase_service-AreDistinct :
    (u : Text) (ss : List GattService) → AreDistinct ss → AreDistinct (erase_service u ss)
unfolding AreDistinct erase_service
erase_service-AreDistinct u [] d = tt
erase_service-AreDistinct u (t ∷ ss) (n, d) = elim (Bool-cases (text_eq t.uuid.uuid u)) [
  | inl e ↦ rw e d
  | inr e ↦ rw e (has_service-erase_service t.uuid.uuid u ss n, erase_service-AreDistinct u ss d)
]

add_service-AreDistinct :
    (s : Option GattService) (app : GattApplication)
    → AreDistinct app.services
    → AreDistinct (add_service s app).1.services
unfolding add_service
add_service-AreDistinct none app d = d
add_service-AreDistinct (some s) app d = elim (Bool-cases (has_service s.uuid.uuid app.services)) [
  | inl e ↦ rw e d
  | inr e ↦ rw e (append-AreDistinct app.services s d e)
]

remove_service-AreDistinct :
    (uuid : GattUuid) (app : GattApplication)
    → AreDistinct app.services
    → AreDistinct (remove_service uuid app).1.services
unfolding remove_service
remove_service-AreDistinct uuid app d = elim (Bool-cases (has_service uuid.uuid app.services)) [
  | inl e ↦ rw e (erase_service-AreDistinct uuid.uuid app.services d)
  | inr e ↦ rw e d
]

-- What can happen to the services of an application.
pub data Step (app app' : GattApplication) : Type 0 where
  added : (s : Option GattService) → app' ≡ (add_service s app).1 → Step app app'
  removed : (uuid : GattUuid) → app' ≡ (remove_service uuid app).1 → Step app app'

pub data Run (app : GattApplication) : GattApplication → Type 0 where
  here : Run app app
  next : {app1 app2 : GattApplication} → Run app app1 → Step app1 app2 → Run app app2

Step-AreDistinct :
    (app app' : GattApplication)
    → Step app app'
    → AreDistinct app.services
    → AreDistinct app'.services
Step-AreDistinct app app' (added s e) d =
    subst (λ a. AreDistinct a.services) (sym e) (add_service-AreDistinct s app d)
Step-AreDistinct app app' (removed uuid e) d =
    subst (λ a. AreDistinct a.services) (sym e) (remove_service-AreDistinct uuid app d)

-- However services are added and removed, no two services of an application that has none at first
-- have the same UUID.
pub Run-AreDistinct :
    {app app' : GattApplication} → app.services ≡ [] → Run app app' → AreDistinct app'.services
unfolding AreDistinct
Run-AreDistinct e here = subst AreDistinct (sym e) tt
Run-AreDistinct e (next {app1} {app2} run s) = Step-AreDistinct app1 app2 s (Run-AreDistinct e run)

find_service-append :
    (s : GattService) (ss : List GattService)
    → has_service s.uuid.uuid ss ≡ false
    → find_service s.uuid.uuid (ss ++ s ∷ []) ≡ some s
unfolding find_service has_service
find_service-append s [] h = rw (text_eq_refl s.uuid.uuid) refl
find_service-append s (t ∷ ss) h = ground (arith, find_service-append s ss)

has_service-append_same :
    (s : GattService) (ss : List GattService) → has_service s.uuid.uuid (ss ++ s ∷ []) ≡ true
unfolding has_service
has_service-append_same s [] = rw (text_eq_refl s.uuid.uuid) refl
has_service-append_same s (t ∷ ss) = ground (arith, has_service-append_same s ss)

-- A service that has been added is found by its UUID, and no service with that UUID can be added
-- again: the attempt fails and changes nothing.
pub add-get :
    (s other : GattService) (app : GattApplication)
    → (add_service (some s) app).0 ≡ true
    → other.uuid ≡ s.uuid
    → let app1 = (add_service (some s) app).1 in
      (get_service s.uuid app1 ≡ some s) × (add_service (some other) app1 ≡ (false, app1))
unfolding add_service get_service
add-get s other app ok e = elim (Bool-cases (has_service s.uuid.uuid app.services)) [
  | inl h ↦ elim (true≢false (sym ok ∙ rw (h, add_service) refl)) [ ]
  | inr h ↦ (
    rw (h, add_service, get_service) (find_service-append s app.services h),
    rw (h, e, add_service) (rw (has_service-append_same s app.services) refl),
  )
]

pub find_none :
    (k : Text) (ss : List GattService) → has_service k ss ≡ false → find_service k ss ≡ none
unfolding find_service has_service
find_none k [] h = refl
find_none k (t ∷ ss) h = ground (arith, find_none k ss)

find_service-erase_service :
    (u : Text) (ss : List GattService) → AreDistinct ss → find_service u (erase_service u ss) ≡ none
unfolding find_service erase_service AreDistinct has_service
find_service-erase_service u [] d = refl
find_service-erase_service u (t ∷ ss) (n, d) = elim (Bool-cases (text_eq t.uuid.uuid u)) [
  | inl e ↦
      rw e
        (find_none u ss (subst (λ k. has_service k ss ≡ false) (text_eq_sound t.uuid.uuid u e) n))
  | inr e ↦ rw e (rw e (find_service-erase_service u ss d))
]

-- A service that has been removed is not found any more, where the UUIDs were distinct.
pub remove-get :
    (uuid : GattUuid) (app : GattApplication)
    → AreDistinct app.services
    → (remove_service uuid app).0 ≡ true
    → get_service uuid (remove_service uuid app).1 ≡ none
unfolding remove_service get_service
remove-get uuid app d ok = elim (Bool-cases (has_service uuid.uuid app.services)) [
  | inl h ↦
      rw (h, remove_service, get_service) (find_service-erase_service uuid.uuid app.services d)
  | inr h ↦ elim (true≢false (sym ok ∙ rw (h, remove_service) refl)) [ ]
]
