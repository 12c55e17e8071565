-- ===== src/Gatt/Service/Given.antt =====
-- The map of a service and the characteristics that have been given out.
use mathlib.Core.Option.{none-ne-some, some_inj}
use mathlib.Core.List.{Memᴰ}
use mathlib.Core.List.Memᴰ.{not-nil, cases_cons}
use bluetooth_le.Prelude.{
  ◌≡◌, refl, sym, ap, subst, ◌∙◌, true, false, List, [], ◌∷◌, Option, none, some, Text, arith,
  Bool-cases, Option-cases, inl, inr, if◌then◌else◌, Dict, find, insert, find-insert, text_eq,
  text_eq_iff, text_eq_refl,
}
use bluetooth_le.Gatt.Records.{GattCharacteristic}
use bluetooth_le.Gatt.Create.{lookup, cleaned}
use bluetooth_le.Gatt.Service.{Answer, characteristic, characteristics, paths}

-- The characteristic that an answer gives out.
unfoldable pub given : Answer → Option GattCharacteristic
given (characteristic o) = o
given characteristics = none
given (paths v) = none

-- The map holds characteristics under their own UUIDs, among them all that were given out.
pub record IsUnique (m : Dict (Option GattCharacteristic)) (answers : List Answer) : Type 0 where
  pub whole :
      (k : Text) (e : Option GattCharacteristic)
      → find k m ≡ some e
      → (ch : GattCharacteristic) × (e ≡ some ch) × (ch.uuid.uuid ≡ k)
  pub known :
      (ch : GattCharacteristic)
      → Memᴰ (characteristic (some ch)) answers
      → find ch.uuid.uuid m ≡ some (some ch)

pub answered :
    (m : Dict (Option GattCharacteristic)) (answers : List Answer) (a : Answer)
    → IsUnique m answers
    → ((ch : GattCharacteristic) → some ch ≡ given a → find ch.uuid.uuid m ≡ some (some ch))
    → IsUnique m (a ∷ answers)
unfolding given
answered m answers a u new = record {
  whole = u.whole;
  known =
      λ ch h. elim (cases_cons h) [ inl e ↦ new ch (ap given e) | inr before ↦ u.known ch before ];
}

-- What is found can be given out.
pub found-known :
    (m : Dict (Option GattCharacteristic)) (answers : List Answer) (key : Text)
    → IsUnique m answers
    → (ch : GattCharacteristic) → lookup key m ≡ some ch
    → find ch.uuid.uuid m ≡ some (some ch)
unfolding lookup
found-known m answers key u ch e = elim (Option-cases (find key m)) [
  | inl missing ↦ elim (none-ne-some ch (sym (rw (missing, lookup) refl) ∙ e)) [ ]
  | inr (o, there) ↦
      (let opened : lookup key m ≡ o = rw (there, lookup) (ground arith) in
        let (ch', same, own) = u.whole key o there in
        let it : o ≡ some ch = sym opened ∙ e in
        let ch_same : ch' ≡ ch = some_inj.0 (sym same ∙ it) in
        subst (λ k. find k m ≡ some (some ch)) (sym own ∙ ap (λ c. c.uuid.uuid) ch_same)
          (there ∙ ap some it))
]

-- What is not found is no entry at all.
pub missing-find :
    (m : Dict (Option GattCharacteristic)) (answers : List Answer) (key : Text)
    → IsUnique m answers
    → lookup key m ≡ none
    → find key m ≡ none
unfolding lookup
missing-find m answers key u e = elim (Option-cases (find key m)) [
  | inl missing ↦ missing
  | inr (o, there) ↦
      (let opened : lookup key m ≡ o = rw (there, lookup) (ground arith) in
        let (ch, same, own) = u.whole key o there in
        elim (none-ne-some ch (sym e ∙ opened ∙ same)) [ ])
]

-- Under the key of a new entry, and beside it.
find-inserted :
    {V : Type 0} (key k : Text) (v : V) (m : Dict V)
    → text_eq key k ≡ true
    → find k (insert key v m) ≡ some v
find-inserted key k v m same = find-insert key k v m ∙ ap (λ b. if b then some v else find k m) same

find-beside :
    {V : Type 0} (key k : Text) (v : V) (m : Dict V)
    → text_eq key k ≡ false
    → find k (insert key v m) ≡ find k m
find-beside key k v m other = find-insert key k v m ∙ ap (λ b. if b then some v else find k m) other

pub added :
    (m : Dict (Option GattCharacteristic)) (answers : List Answer) (ch : GattCharacteristic)
    → IsUnique m answers
    → find ch.uuid.uuid m ≡ none
    → IsUnique (insert ch.uuid.uuid (some ch) m) (characteristic (some ch) ∷ answers)
unfolding given
added m answers ch u missing =
    let key = ch.uuid.uuid in
    answered (insert key (some ch) m) answers (characteristic (some ch))
      (record {
        whole = λ k e h. elim (Bool-cases (text_eq key k)) [
          | inl same ↦ (
            ch,
            some_inj.0 (sym h ∙ find-inserted key k (some ch) m same),
            (text_eq_iff key k).0 same,
          )
          | inr other ↦ u.whole k e (sym (find-beside key k (some ch) m other) ∙ h)
        ];
        known = λ a h. elim (Bool-cases (text_eq key a.uuid.uuid)) [
          | inl same ↦
              elim (none-ne-some (some a) (
                sym missing
                ∙ ap (λ k. find k m) ((text_eq_iff key a.uuid.uuid).0 same)
                ∙ u.known a h)) [ ]
          | inr other ↦ find-beside key a.uuid.uuid (some ch) m other ∙ u.known a h
        ];
      })
      (λ a e.
        subst (λ x. find x.uuid.uuid (insert key (some ch) m) ≡ some (some x)) (sym (some_inj.0 e))
          (find-inserted key key (some ch) m (text_eq_refl key)))

pub cleaned-missing :
    {A : Type 0} (key : Text) (m : Dict (Option A)) → find key m ≡ none → cleaned key m ≡ m
unfolding cleaned
cleaned-missing key m missing = rw (missing, cleaned) refl

pub empty-IsUnique : IsUnique [] []
unfolding find
empty-IsUnique = record {
  whole = λ k e h. elim (none-ne-some e h) [ ];
  known = λ ch h. elim (not-nil h) [ ];
}
