-- ===== src/Network/Search.antt =====
-- The three binary searches of pkg/networkaware/util/util.go, over one loop.
use mathlib.Core.Path.{subst}
use mathlib.Core.Option.{some-injective}
use plugins_improve.Prelude.{
  ℕ, zero, suc, ◌+◌, ◌-◌, ◌/◌, ◌≤◌, ◌<◌, ◌≡◌, refl, sym, ◌∙◌, inl, inr, true, false, Option, none,
  some, List, [], ◌∷◌, String, arith, ltb, ◌==◌, length, get_elem?, All, str_eq, str_lt, str_gt,
  eq_iff, str_lt_trans, str_lt_irrefl, str_gt_flip, str_cases, Bool-cases, if◌then◌else◌,
}

-- How a run of a search loop ends: `panicked` is an index out of range.
pub data Search {ℓ} (A : Type ℓ) : Type ℓ where
  found : A → Search A
  missing panicked timed_out : Search A

module _ {ℓ} {A : Type ℓ} (key : A → String) where
  -- The loop. `high` here is the source's `high + 1`, so that the empty list needs no -1; with it
  -- `(low + high) / 2` reads `(low + high - 1) / 2`, and `high = mid - 1` reads `high = mid`.
  unfoldable pub search_loop : ℕ → List A → String → ℕ → ℕ → Search A
  search_loop zero xs sel low high = timed_out
  search_loop (suc fuel) xs sel low high =
      let mid = (low + high - 1) / 2 in
      elim (ltb low high) [
        | false ↦ missing
        | true ↦ elim (get_elem? xs mid) [
          | none ↦ panicked
          | some e ↦ elim (str_eq (key e) sel) [
            | true ↦ found e
            | false ↦ elim (str_lt (key e) sel) [
              | true ↦ search_loop fuel xs sel (mid + 1) high
              | false ↦ elim (str_gt (key e) sel) [
                | true ↦ search_loop fuel xs sel low mid
                | false ↦ search_loop fuel xs sel low high
              ]
            ]
          ]
        ]
      ]

  unfoldable pub binary_search : List A → String → Search A
  binary_search xs sel = search_loop (suc (length xs)) xs sel 0 (length xs)

  -- The specification: the first entry with the key.
  unfoldable pub find_key : String → List A → Option A
  find_key sel [] = none
  find_key sel (x ∷ xs) = if str_eq (key x) sel then some x else find_key sel xs

  -- Strictly increasing keys.
  abbrev pub IsSorted : List A → Type 0
  IsSorted [] = Unit
  IsSorted (x ∷ xs) = All (λ y. str_lt (key x) (key y) ≡ true) xs × IsSorted xs

module _ {ℓ} {A : Type ℓ} where
  -- A loop's end read as a result.
  abbrev pub to_search : Option A → Search A
  to_search none = missing
  to_search (some e) = found e

  All-get {κ} :
      (P : A → Type κ) (xs : List A) (i : ℕ) (e : A) → All P xs → get_elem? xs i ≡ some e → P e
  All-get P [] i e h g = cc
  All-get P (x ∷ xs) zero e h g = subst P (some-injective _ _ g) h.0
  All-get P (x ∷ xs) (suc i) e h g = All-get P xs i e h.1 g

  get_elem?-lt : (xs : List A) (i : ℕ) (e : A) → get_elem? xs i ≡ some e → i < length xs
  get_elem?-lt [] i e h = cc
  get_elem?-lt (x ∷ xs) zero e h = omega arith
  get_elem?-lt (x ∷ xs) (suc i) e h = omega (arith, get_elem?-lt xs i e h)

  get_elem?_total : (xs : List A) (i : ℕ) → i < length xs → (e : A) × (get_elem? xs i ≡ some e)
  get_elem?_total [] i h = elim h [ ]
  get_elem?_total (x ∷ xs) zero h = (x, refl)
  get_elem?_total (x ∷ xs) (suc i) h = get_elem?_total xs i (omega arith)

module _ {ℓ} {A : Type ℓ} (key : A → String) where
  IsSorted-get :
      (xs : List A) (i j : ℕ) (a b : A)
      → IsSorted key xs
      → i < j
      → get_elem? xs i ≡ some a
      → get_elem? xs j ≡ some b
      → str_lt (key a) (key b) ≡ true
  IsSorted-get [] i j a b s h g k = cc
  IsSorted-get (x ∷ xs) zero zero a b s h g k = elim h [ ]
  IsSorted-get (x ∷ xs) zero (suc j) a b s h g k =
      ground (arith, All-get (λ y. str_lt (key x) (key y) ≡ true) xs j b s.0 k)
  IsSorted-get (x ∷ xs) (suc i) zero a b s h g k = elim h [ ]
  IsSorted-get (x ∷ xs) (suc i) (suc j) a b s h g k = IsSorted-get xs i j a b s.1 (omega arith) g k

  find_key_at :
      (sel : String) (xs : List A) (i : ℕ) (e : A)
      → IsSorted key xs
      → get_elem? xs i ≡ some e
      → key e ≡ sel
      → find_key key sel xs ≡ some e
  unfolding find_key
  find_key_at sel [] i e s g h = cc
  find_key_at sel (x ∷ xs) zero e s g h = ground (arith, eq_iff (key x) sel)
  find_key_at sel (x ∷ xs) (suc i) e s g h = ground (
    arith,
    eq_iff (key x) sel,
    All-get (λ y. str_lt (key x) (key y) ≡ true) xs i e s.0 g,
    str_lt_irrefl sel,
    find_key_at sel xs i e s.1 g h,
  )

  find_key-none :
      (sel : String) (xs : List A)
      → ((i : ℕ) (e : A) → get_elem? xs i ≡ some e → str_eq (key e) sel ≡ false)
      → find_key key sel xs ≡ none
  unfolding find_key
  find_key-none sel [] h = refl
  find_key-none sel (x ∷ xs) h =
      ground (arith, h 0 x refl, find_key-none sel xs (λ i e g. h (suc i) e g))

module _ {ℓ} {A : Type ℓ} (key : A → String) (xs : List A) (sel : String) where
  -- Everything before `low` is smaller and everything from `high` on is larger.
  abbrev Window : ℕ → ℕ → Type ℓ
  Window low high =
      ((i : ℕ) (e : A) → i < low → get_elem? xs i ≡ some e → str_lt (key e) sel ≡ true)
      × ((i : ℕ) (e : A) → high ≤ i → get_elem? xs i ≡ some e → str_lt sel (key e) ≡ true)

  narrow_low :
      (low high mid : ℕ) (e : A)
      → IsSorted key xs
      → Window low high
      → get_elem? xs mid ≡ some e
      → str_lt (key e) sel ≡ true
      → Window (mid + 1) high
  narrow_low low high mid e s w g h = (
    λ i a lt k. elim (Bool-cases (i == mid)) [
      | inl same ↦ ground (arith)
      | inr other ↦
          str_lt_trans (key a) (key e) sel (IsSorted-get key xs i mid a e s (ground arith) k g) h
    ],
    w.1,
  )

  narrow_high :
      (low high mid : ℕ) (e : A)
      → IsSorted key xs
      → Window low high
      → get_elem? xs mid ≡ some e
      → str_lt sel (key e) ≡ true
      → Window low mid
  narrow_high low high mid e s w g h = (
    w.0,
    λ i a le k. elim (Bool-cases (i == mid)) [
      | inl same ↦ ground (arith)
      | inr other ↦
          str_lt_trans sel (key e) (key a) h (IsSorted-get key xs mid i e a s (ground arith) g k)
    ],
  )

  empty-Window : (low high : ℕ) → high ≤ low → Window low high → find_key key sel xs ≡ none
  empty-Window low high le w = find_key-none key sel xs λ i e g. elim (Bool-cases (ltb i low)) [
    | inl before ↦ ground (arith, w.0 i e (ground arith) g, eq_iff (key e) sel, str_lt_irrefl sel)
    | inr after ↦ ground (arith, w.1 i e (ground arith) g, eq_iff (key e) sel, str_lt_irrefl sel)
  ]

  search_loop_lem :
      (fuel low high : ℕ)
      → IsSorted key xs
      → high ≤ length xs
      → Window low high
      → low ≤ high
      → high < low + fuel
      → search_loop key fuel xs sel low high ≡ to_search (find_key key sel xs)
  unfolding search_loop
  search_loop_lem zero low high s le w o f = absurd (omega arith)
  search_loop_lem (suc fuel) low high s le w o f = elim (Bool-cases (ltb low high)) [
    | inr done ↦ rw (done, search_loop) (rw (empty-Window low high (ground arith) w))
    | inl more ↦
        let mid : ℕ = (low + high - 1) / 2 in
        let in_range : low ≤ mid × mid < high = (ground arith, ground arith) in
        let (e, g) = get_elem?_total xs mid (omega arith) in
        elim (str_cases (key e) sel) [
          | inl same ↦
              rw (more, g, same, search_loop)
                (rw (find_key_at key sel xs mid e s g ((eq_iff _ _).0 same)))
          | inr (inl (other, smaller)) ↦
              rw (more, g, other, smaller, search_loop)
                (search_loop_lem fuel (mid + 1) high s le (narrow_low low high mid e s w g smaller)
                  (omega arith) (omega arith))
          | inr (inr (other, not_smaller, larger)) ↦
              rw (more, g, other, not_smaller, larger, search_loop)
                (search_loop_lem fuel low mid s (omega arith)
                  (narrow_high low high mid e s w g (sym (str_gt_flip (key e) sel) ∙ larger))
                  (omega arith) (omega arith))
        ]
  ]

-- On a list with strictly increasing keys the binary search ends without a panic, and returns the
-- entry that has the key, if there is one.
pub binary_search-find_key {ℓ} :
    {A : Type ℓ} (key : A → String) (xs : List A) (sel : String)
    → IsSorted key xs
    → binary_search key xs sel ≡ to_search (find_key key sel xs)
unfolding binary_search
binary_search-find_key key xs sel s =
    search_loop_lem key xs sel (suc (length xs)) 0 (length xs) s (omega arith)
      (λ i e lt g. elim lt [ ], λ i e le g. absurd (omega (arith, get_elem?-lt xs i e g)))
      (omega arith) (omega arith)

-- A search that ended: an entry that was found has the key.
abbrev pub Sound {ℓ} : {A : Type ℓ} → (A → String) → String → Search A → Type 0
Sound key sel (found e) = key e ≡ sel
Sound key sel missing = Unit
Sound key sel panicked = ⊥
Sound key sel timed_out = ⊥

search_loop-Sound {ℓ} :
    {A : Type ℓ} (key : A → String) (xs : List A) (sel : String) (fuel low high : ℕ)
    → high ≤ length xs
    → low ≤ high
    → high < low + fuel
    → Sound key sel (search_loop key fuel xs sel low high)
unfolding search_loop
search_loop-Sound key xs sel zero low high le o f = absurd (omega arith)
search_loop-Sound key xs sel (suc fuel) low high le o f = elim (Bool-cases (ltb low high)) [
  | inr done ↦ rw (done, search_loop) tt
  | inl more ↦
      let mid : ℕ = (low + high - 1) / 2 in
      let in_range : low ≤ mid × mid < high = (ground arith, ground arith) in
      let (e, g) = get_elem?_total xs mid (omega arith) in
      elim (str_cases (key e) sel) [
        | inl same ↦ rw (more, g, same, search_loop) ((eq_iff _ _).0 same)
        | inr (inl (other, smaller)) ↦
            rw (more, g, other, smaller, search_loop)
              (search_loop-Sound key xs sel fuel (mid + 1) high le (omega arith) (omega arith))
        | inr (inr (other, not_smaller, larger)) ↦
            rw (more, g, other, not_smaller, larger, search_loop)
              (search_loop-Sound key xs sel fuel low mid (omega arith) (omega arith) (omega arith))
      ]
]

-- On any list, sorted or not, the binary search ends, reads no index out of range, and an entry
-- that it returns has the key.
pub binary_search-Sound {ℓ} :
    {A : Type ℓ} (key : A → String) (xs : List A) (sel : String)
    → Sound key sel (binary_search key xs sel)
unfolding binary_search
binary_search-Sound key xs sel =
    search_loop-Sound key xs sel (suc (length xs)) 0 (length xs) (omega arith) (omega arith)
      (omega arith)
