-- ===== src/Sysched/Paths.antt =====
-- parseNameNS of pkg/sysched/sysched.go, and the functions of Go's strings and path that it calls.
pub mod Layout
use Prim.Native.Char.{Char, code}
use plugins_improve.Prelude.{
  ◌==◌, Bool, true, false, not, ◌&&◌, ◌||◌, List, [], ◌∷◌, String, str_eq, if◌then◌else◌,
}

abbrev pub is_slash : Char → Bool
is_slash c = code c == 47

abbrev pub is_dot : Char → Bool
is_dot c = code c == 46

abbrev pub cons_first : Char → List String → List String
cons_first c [] = String.◌∷◌ c String.[] ∷ []
cons_first c (p ∷ ps) = String.◌∷◌ c p ∷ ps

-- `strings.Split(s, "/")`.
unfoldable pub split : String → List String
split String.[] = "" ∷ []
split (String.◌∷◌ c s) =
    let parts = split s in if is_slash c then "" ∷ parts else cons_first c parts

unfoldable pub has_char : (Char → Bool) → String → Bool
has_char p String.[] = false
has_char p (String.◌∷◌ c s) = p c || has_char p s

-- `strings.TrimSuffix(s, path.Ext(s))`, for a part without slashes.
unfoldable pub stem : String → String
stem String.[] = ""
stem (String.◌∷◌ c s) =
    let rest = stem s in if is_dot c && not (has_char is_dot s) then "" else String.◌∷◌ c rest

-- The last two parts: a namespace, and a name without its extension.
unfoldable pub last_two : List String → String × String
last_two [] = ("", "")
last_two (p ∷ []) = ("", "")
last_two (p ∷ q ∷ []) = (p, stem q)
last_two (p ∷ q ∷ r ∷ rest) = last_two (q ∷ r ∷ rest)

unfoldable pub parse_name_ns : String → String × String
unfolding last_two split
parse_name_ns profile_path =
    if str_eq profile_path "" then ("", "") else last_two (split profile_path)

-- `strings.Contains`.
unfoldable pub is_prefix : String → String → Bool
is_prefix String.[] s = true
is_prefix (String.◌∷◌ c p) String.[] = false
is_prefix (String.◌∷◌ c p) (String.◌∷◌ d s) = code c == code d && is_prefix p s

unfoldable pub contains_text : String → String → Bool
unfolding is_prefix
contains_text String.[] p = is_prefix p ""
contains_text (String.◌∷◌ c s) p = is_prefix p (String.◌∷◌ c s) || contains_text s p
