-- ===== src/Gatt/Application/Links.antt =====
-- The object paths that the properties of the managed objects name.
use bluetooth_le.Prelude.{
  ◌≡◌, refl, sym, ap, ◌∙◌, subst, Bool, true, false, List, [], ◌∷◌, ◌++◌, append_assoc, Option,
  none, some, Text, arith, text_eq, text_eq_refl, if◌then◌else◌, All, All-append, Dict,
}
use bluetooth_le.Gio.{Value, Properties, Interfaces, Objects, object_path, object_path_array}
use bluetooth_le.Gatt.Records.{GattDescriptor, GattCharacteristic, GattService}
use bluetooth_le.Gatt.Characteristic.{descriptor_paths}
use bluetooth_le.Gatt.Create.{characteristic_paths}
use bluetooth_le.Gatt.Application.{descriptor_objects, characteristic_objects, managed_objects}

-- The paths that a value names, and those of all the properties of a dictionary.
abbrev pub value_links : Value → List Text
value_links (object_path p) = p ∷ []
value_links (object_path_array l) = l
value_links _ = []

abbrev pub property_links : Properties → List Text
property_links [] = []
property_links ((name, v) ∷ ps) = value_links v ++ property_links ps

abbrev pub interface_links : Interfaces → List Text
interface_links [] = []
interface_links ((name, ps) ∷ is) = property_links ps ++ interface_links is

abbrev pub links : Objects → List Text
links [] = []
links ((path, is) ∷ m) = interface_links is ++ links m

abbrev pub keys : Objects → List Text
keys [] = []
keys ((path, is) ∷ m) = path ∷ keys m

abbrev pub has_key : Text → Objects → Bool
has_key p [] = false
has_key p ((q, is) ∷ m) = let rest = has_key p m in if text_eq q p then true else rest

abbrev pub IsIn : Objects → Text → Type 0
IsIn t p = has_key p t ≡ true

keys-append : (m n : Objects) → keys (m ++ n) ≡ keys m ++ keys n
keys-append [] n = refl
keys-append ((p, is) ∷ m) n = ap (◌∷◌ p) (keys-append m n)

links-append : (m n : Objects) → links (m ++ n) ≡ links m ++ links n
links-append [] n = refl
links-append ((p, is) ∷ m) n =
    ap (λ l. interface_links is ++ l) (links-append m n)
    ∙ sym (append_assoc (interface_links is) (links m) (links n))

module _ {ℓ} (P : Text → Type ℓ) where
  All-split : (xs ys : List Text) → All P (xs ++ ys) → All P xs × All P ys
  All-split [] ys a = (tt, a)
  All-split (x ∷ xs) ys (h, a) = let (l, r) = All-split xs ys a in ((h, l), r)

All-cons :
    (o : Text × Interfaces) (m : Objects) (xs : List Text) → All (IsIn m) xs → All (IsIn (o ∷ m)) xs
All-cons (q, is) m [] a = tt
All-cons (q, is) m (x ∷ xs) (h, a) = (ground (arith, h), All-cons (q, is) m xs a)

keys-IsIn : (m : Objects) → All (IsIn m) (keys m)
keys-IsIn [] = tt
keys-IsIn ((p, is) ∷ m) = (rw (text_eq_refl p) refl, All-cons (p, is) m (keys m) (keys-IsIn m))

keys-descriptor_objects :
    (ch : GattCharacteristic) (m : Dict (Option GattDescriptor))
    → keys (descriptor_objects ch m) ≡ descriptor_paths m
unfolding descriptor_objects descriptor_paths
keys-descriptor_objects ch [] = refl
keys-descriptor_objects ch ((u, none) ∷ m) = keys-descriptor_objects ch m
keys-descriptor_objects ch ((u, some d) ∷ m) =
    ap (◌∷◌ d.object.path.path) (keys-descriptor_objects ch m)

module _ (t : Objects) where
  descriptor_links :
      (ch : GattCharacteristic) (m : Dict (Option GattDescriptor))
      → IsIn t ch.object.path.path
      → All (IsIn t) (links (descriptor_objects ch m))
  unfolding descriptor_objects
  descriptor_links ch [] h = tt
  descriptor_links ch ((u, none) ∷ m) h = descriptor_links ch m h
  descriptor_links ch ((u, some d) ∷ m) h = (h, descriptor_links ch m h)

  -- The lists that a dictionary with one interface is made of.
  padded :
      (xs ys : List Text) → All (IsIn t) xs → All (IsIn t) ys → All (IsIn t) (xs ++ [] ++ [] ++ ys)
  padded xs ys hx hy =
      All-append (IsIn t) (xs ++ [] ++ []) ys
        (All-append (IsIn t) (xs ++ []) [] (All-append (IsIn t) xs [] hx tt) tt) hy

  linked_append :
      (m n : Objects)
      → All (IsIn t) (links m)
      → All (IsIn t) (links n)
      → All (IsIn t) (links (m ++ n))
  linked_append m n hm hn =
      subst (All (IsIn t)) (sym (links-append m n)) (All-append (IsIn t) (links m) (links n) hm hn)

  keys_split :
      (m n : Objects) → All (IsIn t) (keys (m ++ n)) → All (IsIn t) (keys m) × All (IsIn t) (keys n)
  keys_split m n k = All-split (IsIn t) (keys m) (keys n) (subst (All (IsIn t)) (keys-append m n) k)

  characteristic_links :
      (s : GattService) (m : Dict (Option GattCharacteristic))
      → IsIn t s.object.path.path
      → All (IsIn t) (keys (characteristic_objects s m))
      → All (IsIn t) (links (characteristic_objects s m))
  unfolding characteristic_objects
  characteristic_links s [] h k = tt
  characteristic_links s ((u, none) ∷ m) h k = characteristic_links s m h k
  characteristic_links s ((u, some ch) ∷ m) h (own, k) =
      let ds = descriptor_objects ch ch.descriptors in
      let rest = characteristic_objects s m in
      let (kd, kr) = keys_split ds rest k in
      (
        h,
        padded (descriptor_paths ch.descriptors) (links (ds ++ rest))
            (subst (All (IsIn t)) (keys-descriptor_objects ch ch.descriptors) kd)
            (linked_append ds rest (descriptor_links ch ch.descriptors own)
              (characteristic_links s m h kr)),
      )

  characteristic_paths-IsIn :
      (s : GattService) (m : Dict (Option GattCharacteristic))
      → All (IsIn t) (keys (characteristic_objects s m))
      → All (IsIn t) (characteristic_paths m)
  unfolding characteristic_objects characteristic_paths
  characteristic_paths-IsIn s [] k = tt
  characteristic_paths-IsIn s ((u, none) ∷ m) k = characteristic_paths-IsIn s m k
  characteristic_paths-IsIn s ((u, some ch) ∷ m) (own, k) =
      let (kd, kr) =
        keys_split (descriptor_objects ch ch.descriptors) (characteristic_objects s m) k in
      (own, characteristic_paths-IsIn s m kr)

  service_links :
      (ss : List GattService)
      → All (IsIn t) (keys (managed_objects ss))
      → All (IsIn t) (links (managed_objects ss))
  unfolding managed_objects
  service_links [] k = tt
  service_links (s ∷ ss) (own, k) =
      let cs = characteristic_objects s s.characteristics in
      let rest = managed_objects ss in
      let (kc, kr) = keys_split cs rest k in
      padded (characteristic_paths s.characteristics) (links (cs ++ rest))
        (characteristic_paths-IsIn s s.characteristics kc)
        (linked_append cs rest (characteristic_links s s.characteristics own kc)
          (service_links ss kr))

-- Every object path that a property of the managed objects names, as a service's characteristic, a
-- characteristic's service or descriptor, or a descriptor's characteristic, is the path of one of the
-- managed objects.
pub managed_objects-links :
    (ss : List GattService) → All (IsIn (managed_objects ss)) (links (managed_objects ss))
managed_objects-links ss = service_links (managed_objects ss) ss (keys-IsIn (managed_objects ss))
