-- ===== src/Gatt/Application/Registry.antt =====
-- The services of an application refine a finite map from UUIDs: `addService`, `removeService` and
-- `getService` of src/GattApplication.cpp answer as the map does.
use bluetooth_le.Prelude.{
  ◌≡◌, refl, ap, ◌∙◌, Bool, true, false, List, [], ◌∷◌, ◌++◌, Option, none, some, Text, arith,
  text_eq, text_eq_iff, if◌then◌else◌, Option-cases, inl, inr,
}
use bluetooth_le.Uuid.{GattUuid}
use bluetooth_le.Gatt.Records.{GattService}
use bluetooth_le.Gatt.Application.{
  GattApplication, has_service, find_service, erase_service, add_service, remove_service,
  get_service,
}
use bluetooth_le.Gatt.Application.Services.{
  AreDistinct, append-AreDistinct, erase_service-AreDistinct, find_none,
}

pub data Request : Type 0 where
  add : Option GattService → Request
  remove get : GattUuid → Request

pub data Reply : Type 0 where
  answer : Bool → Reply
  service : Option GattService → Reply

unfoldable pub step : Request → GattApplication → Reply × GattApplication
unfolding add_service remove_service get_service
step (add s) app = let (ok, app') = add_service s app in (answer ok, app')
step (remove uuid) app = let (ok, app') = remove_service uuid app in (answer ok, app')
step (get uuid) app = (service (get_service uuid app), app)

unfoldable pub served : List Request → GattApplication → List Reply
unfolding step
served [] app = []
served (r ∷ rs) app = let (reply, app') = step r app in reply ∷ served rs app'

-- The abstract registry.
abbrev pub Registry : Type 0
Registry = Text → Option GattService

abbrev pub set : Text → Option GattService → Registry → Registry
set k v m j = if text_eq k j then v else m j

-- A UUID that is taken is not given to another service, and only one that is taken can be freed.
pub add_to : GattService → Option GattService → Registry → Reply × Registry
add_to s none m = (answer true, set s.uuid.uuid (some s) m)
add_to s (some t) m = (answer false, m)

pub remove_from : Text → Option GattService → Registry → Reply × Registry
remove_from k none m = (answer false, m)
remove_from k (some t) m = (answer true, set k none m)

unfoldable pub spec_step : Request → Registry → Reply × Registry
unfolding add_to remove_from
spec_step (add none) m = (answer false, m)
spec_step (add (some s)) m = add_to s (m s.uuid.uuid) m
spec_step (remove uuid) m = remove_from uuid.uuid (m uuid.uuid) m
spec_step (get uuid) m = (service (m uuid.uuid), m)

unfoldable pub spec_served : List Request → Registry → List Reply
unfolding spec_step
spec_served [] m = []
spec_served (r ∷ rs) m = let (reply, m') = spec_step r m in reply ∷ spec_served rs m'

-- The map that a list of services with distinct UUIDs stands for.
abbrev Implements : GattApplication → Registry → Type 0
Implements app m = AreDistinct app.services × ((k : Text) → find_service k app.services ≡ m k)

abbrev is_there : Option GattService → Bool
is_there none = false
is_there (some s) = true

has_service-find_service :
    (k : Text) (ss : List GattService) → has_service k ss ≡ is_there (find_service k ss)
unfolding has_service find_service
has_service-find_service k [] = refl
has_service-find_service k (s ∷ ss) = ground (arith, has_service-find_service k ss)

find-append :
    (k : Text) (s : GattService) (ss : List GattService)
    → has_service s.uuid.uuid ss ≡ false
    → find_service k (ss ++ s ∷ []) ≡ (if text_eq s.uuid.uuid k then some s else find_service k ss)
unfolding find_service has_service
find-append k s [] h = refl
find-append k s (t ∷ ss) h = ground (
  arith,
  find-append k s ss,
  text_eq_iff t.uuid.uuid k,
  text_eq_iff s.uuid.uuid k,
  text_eq_iff t.uuid.uuid s.uuid.uuid,
)

find-erase :
    (k u : Text) (ss : List GattService)
    → AreDistinct ss
    → find_service k (erase_service u ss) ≡ (if text_eq u k then none else find_service k ss)
unfolding find_service erase_service AreDistinct has_service
find-erase k u [] d = ground arith
find-erase k u (t ∷ ss) (n, d) = ground (
  arith,
  n,
  text_eq_iff t.uuid.uuid u,
  text_eq_iff t.uuid.uuid k,
  text_eq_iff u k,
  find_none t.uuid.uuid ss n,
  find-erase k u ss d,
)

empty-Implements : (app : GattApplication) → app.services ≡ [] → Implements app (λ k. none)
unfolding AreDistinct find_service
empty-Implements app e = rw e (tt, λ k. refl)

-- The answer is that of the specification, and so is what the services stand for afterwards.
abbrev Agree : Reply × GattApplication → Reply × Registry → Type 0
Agree r q = (r.0 ≡ q.0) × Implements r.1 q.1

add_agrees :
    (s : GattService) (app : GattApplication) (m : Registry)
    → Implements app m
    → Agree (step (add (some s)) app) (spec_step (add (some s)) m)
unfolding step spec_step add_service
add_agrees s app m (d, f) = elim (Option-cases (m s.uuid.uuid)) [
  | inl e ↦
      (let h : has_service s.uuid.uuid app.services ≡ false =
          has_service-find_service s.uuid.uuid app.services ∙ ap is_there (f s.uuid.uuid ∙ e) in
        rw (e, h, add_to)
          (
            refl,
            (
              append-AreDistinct app.services s d h,
              λ k.
                  find-append k s app.services h
                  ∙ ap (λ o. if text_eq s.uuid.uuid k then some s else o) (f k),
            ),
          ))
  | inr (t, e) ↦
      (let h : has_service s.uuid.uuid app.services ≡ true =
          has_service-find_service s.uuid.uuid app.services ∙ ap is_there (f s.uuid.uuid ∙ e) in
        rw (e, h, add_to) (refl, (d, f)))
]

remove_agrees :
    (uuid : GattUuid) (app : GattApplication) (m : Registry)
    → Implements app m
    → Agree (step (remove uuid) app) (spec_step (remove uuid) m)
unfolding step spec_step remove_service
remove_agrees uuid app m (d, f) =
    (let k : Text = uuid.uuid in
      let known = has_service-find_service k app.services in
      elim (Option-cases (m k)) [
        | inl e ↦
            (let h : has_service k app.services ≡ false = known ∙ ap is_there (f k ∙ e) in
              rw (e, h, remove_from) (refl, (d, f)))
        | inr (t, e) ↦
            (let h : has_service k app.services ≡ true = known ∙ ap is_there (f k ∙ e) in
              rw (e, h, remove_from)
                (
                  refl,
                  (
                    erase_service-AreDistinct k app.services d,
                    λ j.
                        find-erase j k app.services d
                        ∙ ap (λ o. if text_eq k j then none else o) (f j),
                  ),
                ))
      ])

step_agrees :
    (r : Request) (app : GattApplication) (m : Registry)
    → Implements app m
    → Agree (step r app) (spec_step r m)
unfolding step spec_step add_service get_service
step_agrees (add none) app m i = (refl, i)
step_agrees (add (some s)) app m i = add_agrees s app m i
step_agrees (remove uuid) app m i = remove_agrees uuid app m i
step_agrees (get uuid) app m (d, f) = (ap service (f uuid.uuid), (d, f))

served_agree :
    (rs : List Request) (app : GattApplication) (m : Registry)
    → Implements app m
    → served rs app ≡ spec_served rs m
unfolding served spec_served
served_agree [] app m i = refl
served_agree (r ∷ rs) app m i =
    (let (e, i') = step_agrees r app m i in
      ap (λ x. x ∷ served rs (step r app).1) e
      ∙ ap (◌∷◌ (spec_step r m).0) (served_agree rs (step r app).1 (spec_step r m).1 i'))

-- To any requests in any order, an application that has no service at first gives the answers of a map
-- from UUIDs to services: a service is added if its UUID is free, removed if it is taken, and found
-- as it was added.
pub served_refines :
    (rs : List Request) (app : GattApplication)
    → app.services ≡ []
    → served rs app ≡ spec_served rs (λ k. none)
served_refines rs app e = served_agree rs app (λ k. none) (empty-Implements app e)
