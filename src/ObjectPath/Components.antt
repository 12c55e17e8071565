-- ===== src/ObjectPath/Components.antt =====
-- A path stands for the list of its node names, and concatenation of paths for that of lists.
use mathlib.Core.Path.{◌≡⟨◌⟩◌, ◌∎}
use bluetooth_le.Prelude.{
  ℕ, ◌≡◌, ◌≢◌, Lacks, refl, sym, ap, ◌∙◌, true, List, [], ◌∷◌, ◌++◌, append_assoc, append-nil, some,
  Text, ◌==◌, ==_iff, if◌then◌else◌, arith, Bool-cases, inl, inr,
}
use bluetooth_le.Print.{c_str}
use bluetooth_le.ObjectPath.{
  DBusObjectPath, slash, ends_with, drop_last, join, extend, append, append_string, append_path,
}

-- A node that is not empty.
flush : Text → List Text
flush [] = []
flush (c ∷ s) = (c ∷ s) ∷ []

-- `cur` is the node read so far.
nodes : Text → Text → List Text
nodes [] cur = flush cur
nodes (c ∷ s) cur =
    let cut = flush cur ++ nodes s [] in
    let more = nodes s (cur ++ c ∷ []) in if c == slash then cut else more

pub components : Text → List Text
unfolding nodes flush
components s = nodes s []

nodes-Lacks : (s cur : Text) → Lacks slash s → nodes s cur ≡ flush (cur ++ s)
unfolding nodes
nodes-Lacks [] cur h = ap flush (sym (append-nil cur))
nodes-Lacks (c ∷ s) cur (h, hs) = elim (Bool-cases (c == slash)) [
  | inl e ↦ elim (h ((==_iff c slash).0 e)) [ ]
  | inr e ↦ rw e (nodes-Lacks s (cur ++ c ∷ []) hs ∙ ap flush (append_assoc cur (c ∷ []) s))
]

-- A text without a slash is one node.
pub components-node : (s : Text) → Lacks slash s → s ≢ [] → components s ≡ s ∷ []
unfolding components flush
components-node [] h n = elim (n refl) [ ]
components-node (c ∷ s) h n = nodes-Lacks (c ∷ s) [] h

nodes-slash : (s t cur : Text) → nodes (s ++ slash ∷ t) cur ≡ nodes s cur ++ nodes t []
unfolding nodes
nodes-slash [] t cur = refl
nodes-slash (c ∷ s) t cur = elim (Bool-cases (c == slash)) [
  | inl e ↦ rw e (ap (◌++◌ (flush cur)) (nodes-slash s t []) ∙ sym (append_assoc (flush cur) _ _))
  | inr e ↦ rw e (nodes-slash s t (cur ++ c ∷ []))
]

components-slash : (s t : Text) → components (s ++ slash ∷ t) ≡ components s ++ components t
unfolding components
components-slash s t = nodes-slash s t []

drop_last-slash : (s : Text) → ends_with s slash ≡ true → drop_last s ++ slash ∷ [] ≡ s
unfolding ends_with drop_last
drop_last-slash [] h = cc
drop_last-slash (x ∷ []) h = ground arith
drop_last-slash (x ∷ y ∷ s) h = ap (◌∷◌ x) (drop_last-slash (y ∷ s) h)

components-drop_last :
    (s : Text) → ends_with s slash ≡ true → components (drop_last s) ≡ components s
unfolding components
components-drop_last s h =
    components (drop_last s)
    ≡⟨ sym (append-nil (components (drop_last s))) ⟩ components (drop_last s) ++ []
    ≡⟨ sym (components-slash (drop_last s) []) ⟩ components (drop_last s ++ slash ∷ [])
    ≡⟨ ap components (drop_last-slash s h) ⟩ components s ∎

components-append :
    (s t : Text) → ends_with s slash ≡ true → components (s ++ t) ≡ components s ++ components t
components-append s t h =
    components (s ++ t)
    ≡⟨ ap (λ u. components (u ++ t)) (sym (drop_last-slash s h)) ⟩
      components ((drop_last s ++ slash ∷ []) ++ t)
    ≡⟨ ap components (append_assoc (drop_last s) (slash ∷ []) t) ⟩
      components (drop_last s ++ slash ∷ t)
    ≡⟨ components-slash (drop_last s) t ⟩ components (drop_last s) ++ components t
    ≡⟨ ap (λ u. u ++ components t) (components-drop_last s h) ⟩ components s ++ components t ∎

components-slash_head : (t : Text) → components (slash ∷ t) ≡ components t
unfolding components
components-slash_head t = refl

components-join :
    (lhs : Text) (r : ℕ) (rhs : Text)
    → components (join lhs r rhs) ≡ components lhs ++ components (r ∷ rhs)
unfolding join
components-join lhs r rhs = elim (Bool-cases (ends_with lhs slash)) [
  | inl ls ↦ elim (Bool-cases (r == slash)) [
    | inl rs ↦
        rw (ls, rs, (==_iff r slash).0 rs, components-slash_head, components-slash)
          (ap (λ u. u ++ components rhs) (components-drop_last lhs ls))
    | inr rs ↦ rw (ls, rs) (components-append lhs (r ∷ rhs) ls)
  ]
  | inr ls ↦ elim (Bool-cases (r == slash)) [
    | inl rs ↦
        rw (ls, rs, (==_iff r slash).0 rs, components-slash)
          (ap (◌++◌ (components lhs)) (sym (components-slash_head rhs)))
    | inr rs ↦ rw (ls, rs, append_assoc lhs (slash ∷ []) (r ∷ rhs)) (components-slash lhs (r ∷ rhs))
  ]
]

components-extend :
    (lhs : Text) (r : ℕ) (rhs : Text)
    → components (extend lhs r rhs).path ≡ components lhs ++ components (r ∷ rhs)
unfolding extend components
components-extend [] r rhs = refl
components-extend (x ∷ lhs) r rhs = components-join (x ∷ lhs) r rhs

components-append-some :
    (p : DBusObjectPath) (t : Text)
    → components (append p (some t)).path ≡ components p.path ++ components t
unfolding append components
components-append-some p [] = sym (append-nil (components p.path))
components-append-some p (r ∷ rhs) = components-extend p.path r rhs

-- The nodes of a concatenation are those of the left path and then those of the right side,
-- whichever of the two bring a slash: none is lost, split or glued to another. The right side is
-- read up to its first NUL.
pub components-append_string :
    (p : DBusObjectPath) (rhs : Text)
    → components (append_string p rhs).path ≡ components p.path ++ components (c_str rhs)
unfolding append_string
components-append_string p rhs = components-append-some p (c_str rhs)

-- The nodes of two paths put together are those of the left one and then those of the right one, which
-- is read up to its first NUL.
pub components-append_path :
    (p q : DBusObjectPath)
    → components (append_path p q).path ≡ components p.path ++ components (c_str q.path)
unfolding append_path
components-append_path p q = components-append-some p (c_str q.path)
