-- ===== src/Xml/Escape.antt =====
-- Escaped text can be read back, and holds none of the characters that end an attribute or a tag.
use bluetooth_le.Prelude.{
  ℕ, ◌≡◌, refl, sym, [], ◌∷◌, ◌++◌, append_assoc, append-nil, Text, codes, ◌==◌, if◌then◌else◌,
  arith, Lacks, All-append, text_eq, Option, none, some, Bool, true, false, ◌&&◌, ◌||◌, map,
  Bool-cases, ==_iff, inl, inr, ◌⊎◌, ap, ◌∙◌,
}
use bluetooth_le.Xml.{escape_char, escape_from, escape}

-- The text by itself, without the accumulator.
pub escaped : Text → Text
escaped [] = []
escaped (c ∷ s) = escape_char c ++ escaped s

escape_from-escaped : (r s : Text) → escape_from r s ≡ r ++ escaped s
unfolding escape_from escaped
escape_from-escaped r [] = sym (append-nil r)
escape_from-escaped r (c ∷ s) =
    rw (escape_from-escaped (r ++ escape_char c) s) (append_assoc r (escape_char c) (escaped s))

pub escape-escaped : (s : Text) → escape s ≡ escaped s
unfolding escape
escape-escaped s = escape_from-escaped [] s

-- The quotation mark around the value of an attribute.
abbrev quote_of : Bool → ℕ
quote_of double = if double then b'"' else b'\''

-- The end of a line as XML reads it: a carriage return, with the line feed behind it if there is one, is
-- a line feed. `after` says that the character before was a carriage return.
end_lines : Bool → Text → Text
end_lines after [] = []
end_lines after (c ∷ s) =
    let returned = end_lines true s in
    let more = end_lines false s in
    if c == 13 then 10 ∷ returned else if (c == 10) && after then more else c ∷ more

-- White space in the value of an attribute is a space.
abbrev spaced_char : ℕ → ℕ
spaced_char c = if (c == 9) || (c == 10) then 32 else c

-- What XML takes an attribute's value for that stands for a text: the text, with its lines ended by line
-- feeds and its white space turned into spaces.
pub normalised : Text → Text
unfolding end_lines
normalised s = map spaced_char (end_lines false s)

-- The character that an entity stands for; a name that is none of the five is an error.
entity : Text → Option ℕ
unfolding text_eq
entity name =
    if text_eq name (codes "amp")
    then some b'&'
    else if text_eq name (codes "apos")
    then some b'\''
    else if text_eq name (codes "quot")
    then some b'"'
    else if text_eq name (codes "lt")
    then some b'<'
    else if text_eq name (codes "gt")
    then some b'>'
    else none

abbrev put : Option ℕ → Option Text → Option Text
put (some c) (some s) = some (c ∷ s)
put (some c) none = none
put none s = none

-- A reader of what stands between two quotation marks; `some name` is the entity read so far. A
-- quotation mark of that kind, a tag that begins and an entity that does not end are errors.
read : Bool → Text → Option Text → Option Text
unfolding entity
read double [] none = some []
read double [] (some name) = none
read double (c ∷ s) none =
    let begin = read double s (some []) in
    let copy = put (some (spaced_char c)) (read double s none) in
    if c == b'&' then begin else if (c == b'<') || (c == quote_of double) then none else copy
read double (c ∷ s) (some name) =
    let finish = put (entity name) (read double s none) in
    let more = read double s (some (name ++ c ∷ [])) in if c == b';' then finish else more

pub unescape : Bool → Text → Option Text
unfolding read end_lines
unescape double s = read double (end_lines false s) none

-- A character that no entity stands for.
plain :
    (double : Bool) (c : ℕ) (copy : Option Text)
    → (c == b'\'') ≡ false
    → (c == b'"') ≡ false
    → (if c == quote_of double then none else copy) ≡ copy
plain true c copy apos quot = rw quot refl
plain false c copy apos quot = rw apos refl

read-escape_char :
    (double : Bool) (c : ℕ) (rest : Text)
    → read double (escape_char c ++ rest) none ≡ put (some (spaced_char c)) (read double rest none)
unfolding read escape_char
read-escape_char double c rest = elim (Bool-cases (c == b'&')) [
  | inl e ↦ rw (e, (==_iff c b'&').0 e) refl
  | inr amp ↦ elim (Bool-cases (c == b'\'')) [
    | inl e ↦ rw (amp, e, (==_iff c b'\'').0 e) refl
    | inr apos ↦ elim (Bool-cases (c == b'"')) [
      | inl e ↦ rw (amp, apos, e, (==_iff c b'"').0 e) refl
      | inr quot ↦ elim (Bool-cases (c == b'<')) [
        | inl e ↦ rw (amp, apos, quot, e, (==_iff c b'<').0 e) refl
        | inr lt ↦ elim (Bool-cases (c == b'>')) [
          | inl e ↦ rw (amp, apos, quot, lt, e, (==_iff c b'>').0 e) refl
          | inr gt ↦ rw (amp, apos, quot, lt, gt) (rw (amp, lt) (plain double c _ apos quot))
        ]
      ]
    ]
  ]
]

read-escaped : (double : Bool) (s : Text) → read double (escaped s) none ≡ some (map spaced_char s)
unfolding escaped read
read-escaped double [] = refl
read-escaped double (c ∷ s) =
    read-escape_char double c (escaped s) ∙ ap (put (some (spaced_char c))) (read-escaped double s)

end_lines-plain :
    (after : Bool) (c : ℕ) (s : Text)
    → escape_char c ≡ c ∷ []
    → ((b : Bool) → end_lines b (escaped s) ≡ escaped (end_lines b s))
    → end_lines after (c ∷ escaped s) ≡ escaped (end_lines after (c ∷ s))
unfolding end_lines escaped escape_char
end_lines-plain after c s as_is ih = elim (Bool-cases (c == 13)) [
  | inl e ↦ rw e (ap (λ t. 10 ∷ t) (ih true))
  | inr other ↦ elim (Bool-cases ((c == 10) && after)) [
    | inl e ↦ rw other (rw e (ih false))
    | inr kept ↦ rw other (
        rw kept
          (ap (λ t. c ∷ t) (ih false) ∙ ap (λ t. t ++ escaped (end_lines false s)) (sym as_is)))
  ]
]

end_lines-escape_char :
    (after : Bool) (c : ℕ) (s : Text)
    → ((b : Bool) → end_lines b (escaped s) ≡ escaped (end_lines b s))
    → end_lines after (escape_char c ++ escaped s) ≡ escaped (end_lines after (c ∷ s))
unfolding end_lines escaped escape_char
end_lines-escape_char after c s ih = elim (Bool-cases (c == b'&')) [
  | inl e ↦ rw (e, (==_iff c b'&').0 e) (ap (λ t. codes "&amp;" ++ t) (ih false))
  | inr amp ↦ elim (Bool-cases (c == b'\'')) [
    | inl e ↦ rw (amp, e, (==_iff c b'\'').0 e) (ap (λ t. codes "&apos;" ++ t) (ih false))
    | inr apos ↦ elim (Bool-cases (c == b'"')) [
      | inl e ↦ rw (amp, apos, e, (==_iff c b'"').0 e) (ap (λ t. codes "&quot;" ++ t) (ih false))
      | inr quot ↦ elim (Bool-cases (c == b'<')) [
        | inl e ↦
            rw (amp, apos, quot, e, (==_iff c b'<').0 e) (ap (λ t. codes "&lt;" ++ t) (ih false))
        | inr lt ↦ elim (Bool-cases (c == b'>')) [
          | inl e ↦
              rw (amp, apos, quot, lt, e, (==_iff c b'>').0 e)
                (ap (λ t. codes "&gt;" ++ t) (ih false))
          | inr gt ↦
              (let as_is : escape_char c ≡ c ∷ [] = rw (amp, apos, quot, lt, gt) refl in
                rw as_is (end_lines-plain after c s as_is ih))
        ]
      ]
    ]
  ]
]

end_lines-escaped :
    (after : Bool) (s : Text) → end_lines after (escaped s) ≡ escaped (end_lines after s)
unfolding end_lines escaped
end_lines-escaped after [] = refl
end_lines-escaped after (c ∷ s) = end_lines-escape_char after c s (λ b. end_lines-escaped b s)

-- Escaped text that stands as the value of an attribute, between quotation marks of either kind, is
-- read without an error by a reader of XML that knows the five entities, and what it gets is the text,
-- but for what XML does to white space in the value of an attribute. Control characters, which XML
-- forbids, are not refused by this reader.
pub unescape-escape : (double : Bool) (s : Text) → unescape double (escape s) ≡ some (normalised s)
unfolding unescape normalised
unescape-escape double s = rw escape-escaped (
    ap (λ t. read double t none) (end_lines-escaped false s)
    ∙ read-escaped double (end_lines false s))

escape_char-Lacks : (b c : ℕ) → (b ≡ b'\'') ⊎ (b ≡ b'<') ⊎ (b ≡ b'>') → Lacks b (escape_char c)
unfolding escape_char
escape_char-Lacks b c h = ground arith

pub escaped-Lacks : (b : ℕ) (s : Text) → (b ≡ b'\'') ⊎ (b ≡ b'<') ⊎ (b ≡ b'>') → Lacks b (escaped s)
unfolding escaped
escaped-Lacks b [] h = tt
escaped-Lacks b (c ∷ s) h =
    All-append _ (escape_char c) (escaped s) (escape_char-Lacks b c h) (escaped-Lacks b s h)
