-- ===== src/ObjectPath.antt =====
-- include/DBusObjectPath.h: D-Bus object paths and their concatenation.
pub mod Components
pub mod Tests
use bluetooth_le.Prelude.{
  ℕ, Bool, true, false, not, ◌&&◌, List, [], ◌∷◌, ◌++◌, Option, none, some, Text, codes, ◌==◌,
  text_eq, if◌then◌else◌,
}
use bluetooth_le.Print.{c_str}

pub record DBusObjectPath : Type 0 where
  pub path : Text

abbrev pub slash : ℕ
slash = b'/'

-- `path.back() == c`, which is asked of paths that are not empty only.
unfoldable pub ends_with : Text → ℕ → Bool
ends_with [] c = false
ends_with (x ∷ []) c = x == c
ends_with (x ∷ y ∷ s) c = ends_with (y ∷ s) c

-- `path.erase(path.length() - 1)`
unfoldable pub drop_last : Text → Text
drop_last [] = []
drop_last (x ∷ []) = []
drop_last (x ∷ y ∷ s) = x ∷ drop_last (y ∷ s)

-- The body of `append` where neither side is empty; `r ∷ rhs` is the right side.
unfoldable pub join : Text → ℕ → Text → Text
unfolding ends_with drop_last
join lhs r rhs =
    let ls = ends_with lhs slash in
    let rs = r == slash in
    let cut = if ls && rs then drop_last lhs else lhs in
    let padded = if not ls && not rs then cut ++ slash ∷ [] else cut in padded ++ r ∷ rhs

-- What `append` makes of a right side that is not empty.
unfoldable pub extend : Text → ℕ → Text → DBusObjectPath
unfolding join
extend [] r rhs = record { path = r ∷ rhs }
extend (x ∷ lhs) r rhs = record { path = join (x ∷ lhs) r rhs }

-- `append(const char *)`: `none` is the null pointer, and a C string holds no NUL.
unfoldable pub append : DBusObjectPath → Option Text → DBusObjectPath
unfolding extend
append p none = p
append p (some []) = p
append p (some (r ∷ rhs)) = extend p.path r rhs

unfoldable pub append_string : DBusObjectPath → Text → DBusObjectPath
unfolding append c_str
append_string p rhs = append p (some (c_str rhs))

unfoldable pub append_path : DBusObjectPath → DBusObjectPath → DBusObjectPath
unfolding append c_str
append_path p rhs = append p (some (c_str rhs.path))

unfoldable pub path_eq : DBusObjectPath → DBusObjectPath → Bool
unfolding text_eq
path_eq p q = text_eq p.path q.path
