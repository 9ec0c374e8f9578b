-- ===== src/Sysched/Paths/Layout.antt =====
-- The layouts of profile paths that pkg/sysched/sysched.go reads.
use Prim.Native.Char.{Char}
use Prim.Native.String.compare
use plugins_improve.Prelude.{
  Bool, false, ◌||◌, List, [], ◌∷◌, ◌++◌, String, str_eq, ◌≡◌, refl, arith, List-cases, inl, inr,
}
use plugins_improve.Sysched.Paths.{
  is_slash, is_dot, cons_first, split, has_char, stem, last_two, parse_name_ns,
}

abbrev slash : Char
slash = "/"

abbrev dot : Char
dot = "."

-- A text, a character and a text.
unfoldable pub joined : String → Char → String → String
joined String.[] c t = String.◌∷◌ c t
joined (String.◌∷◌ d s) c t = String.◌∷◌ d (joined s c t)

has_char-joined :
    (p : Char → Bool) (s : String) (c : Char) (t : String)
    → has_char p (joined s c t) ≡ (has_char p s || p c || has_char p t)
unfolding has_char joined
has_char-joined p String.[] c t = refl
has_char-joined p (String.◌∷◌ d s) c t = ground (arith, has_char-joined p s c t)

split-text : (s : String) → has_char is_slash s ≡ false → split s ≡ s ∷ []
unfolding split has_char
split-text String.[] h = refl
split-text (String.◌∷◌ c s) h = ground (arith, h, split-text s)

cons_first-parts :
    (c : Char) (ps : List String) → (q : String) × (qs : List String) × (cons_first c ps ≡ q ∷ qs)
cons_first-parts c [] = (_, _, refl)
cons_first-parts c (p ∷ ps) = (_, _, refl)

split-parts : (s : String) → (p : String) × (ps : List String) × (split s ≡ p ∷ ps)
unfolding split
split-parts String.[] = ("", [], refl)
split-parts (String.◌∷◌ c s) = elim (List-cases (split (String.◌∷◌ c s))) [
  | inr parts ↦ parts
  | inl e ↦ ground (arith, e, cons_first-parts c (split s))
]

split-joined : (s t : String) → split (joined s slash t) ≡ split s ++ split t
unfolding split joined
split-joined String.[] t = ground arith
split-joined (String.◌∷◌ c s) t =
    let (p, ps, e) = split-parts s in ground (arith, e, split-joined s t)

stem-joined :
    (name extension : String)
    → has_char is_dot extension ≡ false
    → stem (joined name dot extension) ≡ name
unfolding stem joined
stem-joined String.[] extension h = ground (arith, h)
stem-joined (String.◌∷◌ c s) extension h =
    ground (arith, has_char-joined is_dot s dot extension, stem-joined s extension h)

last_two-append : (p q : String) (ps : List String) → last_two (ps ++ p ∷ q ∷ []) ≡ (p, stem q)
unfolding last_two
last_two-append p q [] = refl
last_two-append p q (r ∷ []) = refl
last_two-append p q (r ∷ s ∷ []) = refl
last_two-append p q (r ∷ s ∷ t ∷ ps) = last_two-append p q (s ∷ t ∷ ps)

joined-ne : (s t : String) (c : Char) → str_eq (joined s c t) "" ≡ false
unfolding joined
joined-ne String.[] t c = ground (arith, compare.cons-nil c t)
joined-ne (String.◌∷◌ d s) t c = ground (arith, compare.cons-nil d (joined s c t))

-- Of a path with a namespace and a file at its end, whatever stands before them, the namespace and
-- the name of the file without its last extension are read, where none of the three has a slash and
-- the extension has no dot.
pub parse_name_ns-joined :
    (before ns name extension : String)
    → has_char is_slash ns ≡ false
    → has_char is_slash name ≡ false
    → has_char is_slash extension ≡ false
    → has_char is_dot extension ≡ false
    → parse_name_ns (joined before slash (joined ns slash (joined name dot extension))) ≡ (ns, name)
unfolding parse_name_ns
parse_name_ns-joined before ns name extension h k l m =
    let file = joined name dot extension in
    let path = joined before slash (joined ns slash file) in
    let parts : split path ≡ split before ++ ns ∷ file ∷ [] =
      rw
        (
          split-joined before (joined ns slash file),
          split-joined ns file,
          split-text ns h,
          split-text file (ground (arith, has_char-joined is_slash name dot extension)),
        )
        refl in
    rw
      (
        joined-ne before (joined ns slash file) slash,
        parts,
        last_two-append ns file (split before),
        stem-joined name extension m,
      )
      refl
