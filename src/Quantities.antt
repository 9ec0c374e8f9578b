-- ===== src/Quantities.antt =====
-- Resource quantities, and pkg/util/resource.go. `resource.Quantity` is a type of apimachinery: it is
-- an interface here, with the exact amount that a quantity stands for.
use plugins_improve.Prelude.{
  ℤ, pos, ◌+ℤ◌, ◌-ℤ◌, ◌≡◌, refl, Bool, true, false, none, some, List, [], ◌∷◌, String, ltb_ℤ,
  lookup, insert, if◌then◌else◌,
}

-- The result of a `Cmp`: -1, 0 or 1.
pub data Order : Type 0 where
  less same more : Order

abbrev pub cmp_ℤ : ℤ → ℤ → Order
cmp_ℤ a b = if ltb_ℤ a b then less else if ltb_ℤ b a then more else same

abbrev pub is_less : Order → Bool
is_less less = true
is_less same = false
is_less more = false

abbrev pub is_more : Order → Bool
is_more less = false
is_more same = false
is_more more = true

-- `Quantity{}`, `Add`, `Sub` and `Cmp`, which are exact.
pub record QuantityApi : Type 1 where
  pub Q : Type 0
  pub amount : Q → ℤ
  pub zero_q : Q
  pub add : Q → Q → Q
  pub sub : Q → Q → Q
  pub cmp : Q → Q → Order
  pub amount-zero : amount zero_q ≡ pos 0
  pub amount-add : (a b : Q) → amount (add a b) ≡ amount a +ℤ amount b
  pub amount-sub : (a b : Q) → amount (sub a b) ≡ amount a -ℤ amount b
  pub cmp-amount : (a b : Q) → cmp a b ≡ cmp_ℤ (amount a) (amount b)

-- `v1.ResourceList`.
abbrev pub ResourceList : Type 0 → Type 0
ResourceList Q = List (String × Q)

-- The parts of a pod that the code reads; a container is its requests.
pub record PodSpec (Q : Type 0) : Type 0 where
  pub init_containers : List (ResourceList Q)
  pub containers : List (ResourceList Q)
  pub overhead : ResourceList Q

module _ (api : QuantityApi) where
  open api use {Q, add, cmp}

  -- The first and the third loop body: keep the larger.
  unfoldable pub raise : ResourceList Q → ResourceList Q → ResourceList Q
  raise acc [] = acc
  raise acc ((name, quantity) ∷ rest) =
      raise
        (elim (lookup name acc) [
          | none ↦ insert name quantity acc
          | some q ↦ if is_more (cmp quantity q) then insert name quantity acc else acc
        ])
        rest

  -- The second and the fourth loop body: add.
  unfoldable pub sum_into : ResourceList Q → ResourceList Q → ResourceList Q
  sum_into acc [] = acc
  sum_into acc ((name, quantity) ∷ rest) =
      sum_into
        (elim (lookup name acc) [
          | none ↦ insert name quantity acc
          | some q ↦ insert name (add quantity q) acc
        ])
        rest

  unfoldable pub raise_all : ResourceList Q → List (ResourceList Q) → ResourceList Q
  raise_all acc [] = acc
  raise_all acc (c ∷ cs) = raise_all (raise acc c) cs

  unfoldable pub sum_all : ResourceList Q → List (ResourceList Q) → ResourceList Q
  sum_all acc [] = acc
  sum_all acc (c ∷ cs) = sum_all (sum_into acc c) cs

  unfoldable pub get_pod_effective_request : PodSpec Q → ResourceList Q
  unfolding raise_all sum_all
  get_pod_effective_request pod =
      let init_resources = raise_all [] pod.init_containers in
      let resources = sum_all [] pod.containers in
      sum_into (raise resources init_resources) pod.overhead

-- Integers are such quantities.
abbrev pub int_quantities : QuantityApi
int_quantities = record {
  Q = ℤ;
  amount = λ a. a;
  zero_q = pos 0;
  add = ◌+ℤ◌;
  sub = ◌-ℤ◌;
  cmp = cmp_ℤ;
  amount-zero = refl;
  amount-add = λ a b. refl;
  amount-sub = λ a b. refl;
  cmp-amount = λ a b. refl;
}
