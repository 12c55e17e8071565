-- ===== src/Xml/Markup.antt =====
-- The markup of the XML: it is that of the elements written, whatever their names hold.
use bluetooth_le.Prelude.{
  ℕ, zero, suc, ◌+◌, ◌*◌, ◌≡◌, refl, ap, Bool, ◌||◌, List, [], ◌∷◌, ◌++◌, Text, codes, ◌==◌,
  if◌then◌else◌, Lacks, arith, Bool-cases, replicate, inl, inr, append-nil,
}
use bluetooth_le.DBusTypes.{DBusArgument, DBusProperty, DBusMethodCall, DBusSignal}
use bluetooth_le.Xml.{
  escape, indent, access, create_property, create_argument, each, create_method, create_signal,
  create_interface,
}
use bluetooth_le.Xml.Escape.{escaped, escape-escaped, escaped-Lacks}

-- The characters that begin and end a tag or an attribute's value.
abbrev is_mark : ℕ → Bool
is_mark c = (c == b'<') || (c == b'>') || (c == b'\'')

pub marks : Text → Text
marks [] = []
marks (c ∷ s) = let rest = marks s in if is_mark c then c ∷ rest else rest

pub marks-append : (s t : Text) → marks (s ++ t) ≡ marks s ++ marks t
unfolding marks
marks-append [] t = refl
marks-append (c ∷ s) t = ground (arith, marks-append s t)

marks-Lacks : (s : Text) → Lacks b'<' s → Lacks b'>' s → Lacks b'\'' s → marks s ≡ []
unfolding marks
marks-Lacks [] l g q = refl
marks-Lacks (c ∷ s) (l, ls) (g, gs) (q, qs) = ground (arith, marks-Lacks s ls gs qs)

marks-escape : (s : Text) → marks (escape s) ≡ []
marks-escape s = rw escape-escaped (
    marks-Lacks (escaped s) (escaped-Lacks _ s (inr (inl refl)))
      (escaped-Lacks _ s (inr (inr refl))) (escaped-Lacks _ s (inl refl)))

marks-spaces : (n : ℕ) → marks (replicate n b' ') ≡ []
unfolding marks
marks-spaces zero = refl
marks-spaces (suc n) = marks-spaces n

marks-indent : (n : ℕ) → marks (indent n) ≡ []
unfolding indent
marks-indent n = marks-spaces (n * 2)

marks-access : (r w : Bool) → marks (access r w) ≡ []
unfolding marks access
marks-access r w = ground arith

ruleset layout = (marks-append, marks-escape, marks-indent, marks-access)

-- The marks of a property element; one that emits a signal holds an annotation.
abbrev pub property_marks : {G T : Type 0} → DBusProperty G T → Text
property_marks p = if p.emits_changed_signal then codes "<''''''><''''><>" else codes "<''''''>"

abbrev pub argument_marks : Text → Text
argument_marks direction = codes "<''''" ++ direction ++ codes ">"

abbrev pub signal_marks : DBusSignal → Text
signal_marks s = codes "<''>" ++ each (λ a. argument_marks []) s.arguments ++ codes "<>"

marks-create_property :
    {G T : Type 0} (p : DBusProperty G T) (level : ℕ)
    → marks (create_property p level) ≡ property_marks p
unfolding create_property marks
marks-create_property p level = elim (Bool-cases p.emits_changed_signal) [
  | inl e ↦ rw e (simp layout)
  | inr e ↦ rw e (simp layout)
]

marks-create_argument :
    (direction : Text) (level : ℕ) (a : DBusArgument)
    → marks (create_argument direction level a) ≡ argument_marks (marks direction)
unfolding create_argument marks
marks-create_argument direction level a = simp layout

marks-each {ℓ} :
    {A : Type ℓ} (f g : A → Text) (xs : List A)
    → ((x : A) → marks (f x) ≡ g x)
    → marks (each f xs) ≡ each g xs
unfolding each marks
marks-each f g [] h = refl
marks-each f g (x ∷ xs) h = rw (marks-append, h x, marks-each f g xs h) refl

marks-create_method :
    (name : Text) (level : ℕ) → marks (create_method name [] [] level) ≡ codes "<''><>"
unfolding create_method marks
marks-create_method name level = simp layout

marks-create_signal : (s : DBusSignal) (level : ℕ) → marks (create_signal s level) ≡ signal_marks s
unfolding create_signal marks
marks-create_signal s level =
    simp
      (
        layout,
        marks-each (create_argument [] level) (λ a. argument_marks []) s.arguments
            (marks-create_argument [] level),
      )
      (ap (λ u. u ++ codes "<>")
        (append-nil (codes "<''>" ++ each (λ a. argument_marks []) s.arguments)))

-- The tags and quotes of an interface's XML are those of its elements in order: the interface, then
-- each property, method and signal. No name, signature or argument adds to them or hides one,
-- whatever characters it holds.
pub marks-create_interface :
    {G T : Type 0} (name : Text) (properties : List (DBusProperty G T))
    (methods : List DBusMethodCall) (signals : List DBusSignal) (level : ℕ)
    → marks (create_interface name properties methods signals level)
      ≡ codes "<''>"
        ++ each property_marks properties
        ++ each (λ m. codes "<''><>") methods
        ++ each signal_marks signals
        ++ codes "<>"
unfolding create_interface marks
marks-create_interface name properties methods signals level =
    simp
      (
        layout,
        marks-each (λ p. create_property p (level + 2)) property_marks properties
            (λ p. marks-create_property p (level + 2)),
        marks-each (λ m. create_method m.method [] [] (level + 2)) (λ m. codes "<''><>") methods
            (λ m. marks-create_method m.method (level + 2)),
        marks-each (λ s. create_signal s (level + 2)) signal_marks signals
            (λ s. marks-create_signal s (level + 2)),
      )
      (ap (λ u. u ++ codes "<>")
        (append-nil (
          codes "<''>"
          ++ each property_marks properties
          ++ each (λ m. codes "<''><>") methods
          ++ each signal_marks signals)))
