-- ===== src/Prelude/Lists.antt =====
-- Lists measured and indexed by native numbers, under the library's names.
use Prim.Native.Nat.{ℕ, zero, suc, ◌+◌, ◌≤◌}
use mathlib.Core.Path.{◌≡◌, refl, ap}
use mathlib.Core.Bool.{Bool, true, ◌&&◌}
use mathlib.Core.List.{List, [], ◌∷◌, ◌++◌, map, Perm}
use mathlib.Core.List.Perm
use mathlib.Core.Option.{Option, none, some}
use native.Mathlib.Omega.{arith}
use plugins_improve.Prelude.Tests.{if◌then◌else◌}

module _ {ℓ} {A : Type ℓ} where
  abbrev pub length : List A → ℕ
  length [] = 0
  length (x ∷ xs) = suc (length xs)

  abbrev pub get_elem? : List A → ℕ → Option A
  get_elem? [] i = none
  get_elem? (x ∷ xs) zero = some x
  get_elem? (x ∷ xs) (suc i) = get_elem? xs i

  pub length-append : (xs ys : List A) → length (xs ++ ys) ≡ length xs + length ys
  length-append [] ys = omega arith
  length-append (x ∷ xs) ys = omega (arith, length-append xs ys)

  -- A predicate of every element.
  abbrev pub All {κ} : (A → Type κ) → List A → Type κ
  All P [] = Unit
  All P (x ∷ xs) = P x × All P xs

  -- The elements that pass a Boolean test.
  unfoldable pub keep : (A → Bool) → List A → List A
  keep p [] = []
  keep p (x ∷ xs) = let rest = keep p xs in if p x then x ∷ rest else rest

  pub length-keep-le : (p : A → Bool) (xs : List A) → length (keep p xs) ≤ length xs
  unfolding keep
  length-keep-le p [] = omega arith
  length-keep-le p (x ∷ xs) = ground (arith, length-keep-le p xs)

module _ {ℓ} {A : Type ℓ} where
  pub Perm-middle : (x : A) (xs ys : List A) → Perm (xs ++ x ∷ ys) (x ∷ xs ++ ys)
  Perm-middle x [] ys = Perm.refl (x ∷ ys)
  Perm-middle x (y ∷ xs) ys =
      Perm.trans (Perm.cons y (Perm-middle x xs ys)) (Perm.swap x y (xs ++ ys))

module _ {ℓ κ} {A : Type ℓ} {B : Type κ} where
  pub length-map : (xs : List A) (f : A → B) → length (map f xs) ≡ length xs
  length-map [] f = refl
  length-map (x ∷ xs) f = ap suc (length-map xs f)

module _ {ℓ} {A : Type ℓ} (less : A → A → Bool) where
  insert_sorted : A → List A → List A
  insert_sorted x [] = x ∷ []
  insert_sorted x (y ∷ ys) = if less y x then y ∷ insert_sorted x ys else x ∷ y ∷ ys

  -- `sort.Slice`: one of the orders that the library may leave.
  unfoldable pub sort_slice : List A → List A
  unfolding insert_sorted
  sort_slice [] = []
  sort_slice (x ∷ xs) = insert_sorted x (sort_slice xs)

  insert_sorted-Perm : (x : A) (xs : List A) → Perm (insert_sorted x xs) (x ∷ xs)
  unfolding insert_sorted
  insert_sorted-Perm x [] = Perm.refl (x ∷ [])
  insert_sorted-Perm x (y ∷ ys) = ground (
    arith,
    Perm.refl (x ∷ y ∷ ys),
    Perm.trans (Perm.cons y (insert_sorted-Perm x ys)) (Perm.swap x y ys),
  )

  pub sort_slice-Perm : (xs : List A) → Perm (sort_slice xs) xs
  unfolding sort_slice
  sort_slice-Perm [] = Perm.refl []
  sort_slice-Perm (x ∷ xs) =
      Perm.trans (insert_sorted-Perm x (sort_slice xs)) (Perm.cons x (sort_slice-Perm xs))

module _ {ℓ} {A : Type ℓ} (test : A → Bool) where
  unfoldable pub all : List A → Bool
  all [] = true
  all (x ∷ xs) = test x && all xs

  pub all-append : (xs ys : List A) → all (xs ++ ys) ≡ (all xs && all ys)
  unfolding all
  all-append [] ys = refl
  all-append (x ∷ xs) ys = ground (arith, all-append xs ys)

  all-insert_sorted :
      (less : A → A → Bool) (x : A) (xs : List A)
      → all (insert_sorted less x xs) ≡ (test x && all xs)
  unfolding all insert_sorted
  all-insert_sorted less x [] = refl
  all-insert_sorted less x (y ∷ ys) = ground (arith, all-insert_sorted less x ys)

  pub all-sort_slice : (less : A → A → Bool) (xs : List A) → all (sort_slice less xs) ≡ all xs
  unfolding all sort_slice
  all-sort_slice less [] = refl
  all-sort_slice less (x ∷ xs) =
      ground (arith, all-insert_sorted less x (sort_slice less xs), all-sort_slice less xs)
