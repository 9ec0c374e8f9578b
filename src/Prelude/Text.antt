-- ===== src/Prelude/Text.antt =====
-- Go's comparisons of strings, and maps with string keys as association lists.
use Prim.Native.Nat.{Ordering}
use Prim.Native.String.{String, compare}
use Prim.Native.String.compare
use text.Mathlib.Text.{◌==◌ as str_eq}
use text.Mathlib.TextEquality.{eq_iff}
use mathlib.Core.Path.{◌≡◌, refl}
use mathlib.Core.Logic.{◌⊎◌}
use mathlib.Core.Bool.{Bool, true, false, ◌||◌}
use mathlib.Core.Option.{Option, none, some}
use mathlib.Core.List.{List, [], ◌∷◌, map}
use native.Mathlib.Omega.{arith}
use plugins_improve.Prelude.Tests.{if◌then◌else◌}

-- `s < t` on Go strings.
abbrev pub str_lt : String → String → Bool
str_lt s t = elim (compare s t) [ Ordering.lt ↦ true | _ ↦ false ]

-- `s > t` on Go strings.
abbrev pub str_gt : String → String → Bool
str_gt s t = elim (compare s t) [ Ordering.gt ↦ true | _ ↦ false ]

pub str_lt_trans : (s t u : String) → str_lt s t ≡ true → str_lt t u ≡ true → str_lt s u ≡ true
str_lt_trans String.[] String.[] u h k = cc
str_lt_trans String.[] (String.◌∷◌ d t) String.[] h k = ground (arith, compare.cons-nil d t)
str_lt_trans String.[] (String.◌∷◌ d t) (String.◌∷◌ e u) h k = ground (arith, compare.nil-cons e u)
str_lt_trans (String.◌∷◌ c s) String.[] u h k = ground (arith, compare.cons-nil c s)
str_lt_trans (String.◌∷◌ c s) (String.◌∷◌ d t) String.[] h k = ground (arith, compare.cons-nil d t)
str_lt_trans (String.◌∷◌ c s) (String.◌∷◌ d t) (String.◌∷◌ e u) h k = ground (
  arith,
  compare.cons-cons c d s t,
  compare.cons-cons d e t u,
  compare.cons-cons c e s u,
  str_lt_trans s t u,
)

pub str_lt_irrefl : (s : String) → str_lt s s ≡ false
str_lt_irrefl String.[] = refl
str_lt_irrefl (String.◌∷◌ c s) = ground (arith, compare.cons-cons c c s s, str_lt_irrefl s)

-- `s > t` says what `t < s` says.
pub str_gt_flip : (s t : String) → str_gt s t ≡ str_lt t s
str_gt_flip String.[] String.[] = refl
str_gt_flip String.[] (String.◌∷◌ d t) = ground (arith, compare.nil-cons d t, compare.cons-nil d t)
str_gt_flip (String.◌∷◌ c s) String.[] = ground (arith, compare.nil-cons c s, compare.cons-nil c s)
str_gt_flip (String.◌∷◌ c s) (String.◌∷◌ d t) =
    ground (arith, compare.cons-cons c d s t, compare.cons-cons d c t s, str_gt_flip s t)

-- Two strings are equal, or one of the two strict comparisons holds.
pub str_cases :
    (s t : String)
    → (str_eq s t ≡ true)
      ⊎ ((str_eq s t ≡ false) × (str_lt s t ≡ true))
      ⊎ ((str_eq s t ≡ false) × (str_lt s t ≡ false) × (str_gt s t ≡ true))
str_cases s t = ground arith

-- A Go map with string keys; a range over it follows the order of the list.
module _ {ℓ} {V : Type ℓ} where
  unfoldable pub lookup : String → List (String × V) → Option V
  lookup key [] = none
  lookup key (entry ∷ rest) = if str_eq entry.0 key then some entry.1 else lookup key rest

  unfoldable pub has : String → List (String × V) → Bool
  has key entries = elim (lookup key entries) [ none ↦ false | some v ↦ true ]

  -- `v, ok := m[k]` with the zero value `d`.
  unfoldable pub lookup_or : String → V → List (String × V) → V
  lookup_or key d entries = elim (lookup key entries) [ none ↦ d | some v ↦ v ]

  unfoldable pub delete : String → List (String × V) → List (String × V)
  delete key [] = []
  delete key (entry ∷ entries) =
      let rest = delete key entries in if str_eq entry.0 key then rest else entry ∷ rest

  unfoldable pub insert : String → V → List (String × V) → List (String × V)
  insert key new [] = (key, new) ∷ []
  insert key new (entry ∷ entries) =
      let rest = insert key new entries in
      if str_eq entry.0 key then (key, new) ∷ entries else entry ∷ rest

  abbrev pub keys : List (String × V) → List String
  keys = map (λ e. e.0)

  pub lookup-delete :
      (key other : String) (entries : List (String × V))
      → lookup other (delete key entries)
        ≡ (if str_eq key other then none else lookup other entries)
  unfolding lookup delete
  lookup-delete key other [] = ground arith
  lookup-delete key other (entry ∷ entries) = ground (
    arith,
    lookup-delete key other entries,
    eq_iff key other,
    eq_iff entry.0 key,
    eq_iff entry.0 other,
  )

  pub lookup-insert :
      (key other : String) (new : V) (entries : List (String × V))
      → lookup other (insert key new entries)
        ≡ (if str_eq key other then some new else lookup other entries)
  unfolding lookup insert
  lookup-insert key other new [] = refl
  lookup-insert key other new (entry ∷ entries) = ground (
    arith,
    lookup-insert key other new entries,
    eq_iff entry.0 key,
    eq_iff entry.0 other,
    eq_iff key other,
  )

pub str_eq_refl : (s : String) → str_eq s s ≡ true
str_eq_refl s = (eq_iff s s).1 refl

pub str_eq_sym : (s t : String) → str_eq s t ≡ str_eq t s
str_eq_sym s t = ground (arith, eq_iff s t, eq_iff t s)

module _ {ℓ} {V : Type ℓ} where
  pub has-insert :
      (k j : String) (v : V) (m : List (String × V))
      → has j (insert k v m) ≡ (str_eq k j || has j m)
  unfolding has
  has-insert k j v m = ground (arith, lookup-insert k j v m)

  pub has-delete :
      (k j : String) (m : List (String × V))
      → has j (delete k m) ≡ (if str_eq k j then false else has j m)
  unfolding has
  has-delete k j m = ground (arith, lookup-delete k j m)

  -- A write of a new key, undone.
  pub delete-insert :
      (k : String) (v : V) (m : List (String × V)) → lookup k m ≡ none → delete k (insert k v m) ≡ m
  unfolding lookup insert delete
  delete-insert k v [] h = ground (arith, str_eq_refl k)
  delete-insert k v ((j, w) ∷ m) h = ground (arith, str_eq_refl k, delete-insert k v m)

-- Membership of a string in a list.
unfoldable pub elem : String → List String → Bool
elem k [] = false
elem k (x ∷ xs) = str_eq x k || elem k xs

pub elem-keys {ℓ} : {V : Type ℓ} (k : String) (m : List (String × V)) → elem k (keys m) ≡ has k m
unfolding elem has lookup
elem-keys k [] = refl
elem-keys k ((j, v) ∷ m) = ground (arith, elem-keys k m)
