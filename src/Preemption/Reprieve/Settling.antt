-- ===== src/Preemption/Reprieve/Settling.antt =====
-- A loop of reprieves without removals, and the node that it leaves (the reference for reprievePod of
-- pkg/capacityscheduling/capacity_scheduling.go).
use plugins_improve.Prelude.{
  ℕ, suc, ◌≡◌, ◌⊎◌, refl, sym, Bool, true, false, Option, none, some, List, [], ◌∷◌, ◌++◌, arith,
  Option-cases, Bool-cases, inl, inr,
}
use mathlib.Core.List.{Perm, perm_append_comm, perm_middle, append_assoc}
use mathlib.Core.List.Perm
use mathlib.Core.Path.{subst}
use plugins_improve.Preemption.Simulation.{Handle, is_success}

module _ {P S : Type 0} (h : Handle P S) where
  open h use {remove_pod, add_pod, run_filters}

  -- What the framework does: removing the pod that was just added leads back, and a pod that was
  -- removed cannot be removed again.
  abbrev pub RemoveUndoesAdd : Type 0
  RemoveUndoesAdd = (p : P) (s added : S) → add_pod p s ≡ some added → remove_pod p added ≡ some s

  abbrev pub RemovesOnce : Type 0
  RemovesOnce = (p : P) (s s' : S) → remove_pod p s ≡ some s' → remove_pod p s' ≡ none

  -- The state with pods added one after another.
  unfoldable pub put_back : List P → S → Option S
  put_back [] s = some s
  put_back (p ∷ ps) s = elim (add_pod p s) [ none ↦ none | some added ↦ put_back ps added ]

  -- The loop of reprieves without a removal: a pod is added where it fits and the quotas hold with it.
  unfoldable pub decided : (S → Bool) → List P → S → List P → ℕ → Option (S × List P × ℕ)
  decided over [] s victims n = some (s, victims, n)
  decided over (p ∷ ps) s victims n = elim (add_pod p s) [
    | none ↦ none
    | some added ↦ elim (is_success (run_filters added)) [
      | true ↦ elim (over added) [
        | false ↦ decided over ps added victims n
        | true ↦ decided over ps s (victims ++ p ∷ []) n
      ]
      | false ↦ elim (over s) [
        | false ↦ decided over ps s (victims ++ p ∷ []) (suc n)
        | true ↦ none
      ]
    ]
  ]

  -- From some victims and a state to the victims and the state afterwards: each of the pods is either
  -- one more victim or back on the node, and where one is back the filters pass and the quotas hold.
  abbrev pub Settles : (S → Bool) → List P → S → List P → List P → S → Type 0
  Settles over victims s pods victims' s' =
      (kept : List P) × Perm (victims ++ pods) (victims' ++ kept)
      × (put_back kept s ≡ some s')
      × ((kept ≡ []) ⊎ ((is_success (run_filters s') ≡ true) × (over s' ≡ false)))

  pub Settles-evict :
      (over : S → Bool) (p : P) (ps : List P) (s : S) (victims victims' : List P) (s' : S)
      → Settles over (victims ++ p ∷ []) s ps victims' s'
      → Settles over victims s (p ∷ ps) victims' s'
  Settles-evict over p ps s victims victims' s' (kept, perm, put, ok) = (
    kept,
    subst (λ l. Perm l (victims' ++ kept)) (append_assoc victims (p ∷ []) ps) perm,
    put,
    ok,
  )

  pub put_back_none : (kept : List P) (s s' : S) → kept ≡ [] → put_back kept s ≡ some s' → s ≡ s'
  unfolding put_back
  put_back_none [] s s' e put = ground arith
  put_back_none (p ∷ ps) s s' e put = ground arith

  pub Settles-keep :
      (over : S → Bool) (p : P) (ps : List P) (s added : S) (victims victims' : List P) (s' : S)
      → add_pod p s ≡ some added
      → is_success (run_filters added) ≡ true
      → over added ≡ false
      → Settles over victims added ps victims' s'
      → Settles over victims s (p ∷ ps) victims' s'
  unfolding put_back
  Settles-keep over p ps s added victims victims' s' a f o (kept, perm, put, ok) = (
    p ∷ kept,
    Perm.trans (perm_middle victims ps)
        (Perm.trans (Perm.cons p perm) (Perm.symm (perm_middle victims' kept))),
    ground (arith, a, put),
    inr (elim ok [
      | inl none_kept ↦ rw (← put_back_none kept added s' none_kept put) (f, o)
      | inr settled ↦ settled
    ]),
  )

  reported :
      (s : S) (victims : List P) (n : ℕ) (s' : S) (victims' : List P) (n' : ℕ)
      → ◌≡◌ {A = Option (S × List P × ℕ)} (some (s, victims, n)) (some (s', victims', n'))
      → victims ≡ victims'
  reported s victims n s' victims' n' e = ground arith

  pub decided-Settles :
      (over : S → Bool) (ps : List P) (s : S) (victims : List P) (n : ℕ) (s' : S)
      (victims' : List P) (n' : ℕ)
      → decided over ps s victims n ≡ some (s', victims', n')
      → Settles over victims s ps victims' s'
  unfolding decided put_back
  decided-Settles over [] s victims n s' victims' n' e = (
    [],
    subst (λ l. Perm (victims ++ []) (l ++ [])) (reported s victims n s' victims' n' e)
        (Perm.refl (victims ++ [])),
    ground arith,
    inl refl,
  )
  decided-Settles over (p ∷ ps) s victims n s' victims' n' e = elim (Option-cases (add_pod p s)) [
    | inl a ↦ absurd (ground (arith, a))
    | inr (added, a) ↦ elim (Bool-cases (is_success (run_filters added))) [
      | inl f ↦ elim (Bool-cases (over added)) [
        | inl o ↦ Settles-evict over p ps s victims victims' s' (
            decided-Settles over ps s (victims ++ p ∷ []) n s' victims' n'
              (ground (arith, a, f, o)))
        | inr o ↦
            Settles-keep over p ps s added victims victims' s' a f o
              (decided-Settles over ps added victims n s' victims' n' (ground (arith, a, f, o)))
      ]
      | inr f ↦ Settles-evict over p ps s victims victims' s' (
          decided-Settles over ps s (victims ++ p ∷ []) (suc n) s' victims' n'
            (ground (arith, a, f)))
    ]
  ]

  same_Perm : (xs ys : List P) → xs ≡ ys → Perm xs ys
  same_Perm xs ys e = subst (λ l. Perm xs l) (e) (Perm.refl xs)

  put_back-append :
      (xs ys : List P) (s t u : S)
      → put_back xs s ≡ some t
      → put_back ys t ≡ some u
      → put_back (xs ++ ys) s ≡ some u
  unfolding put_back
  put_back-append [] ys s t u a b = ground arith
  put_back-append (x ∷ xs) ys s t u a b = elim (Option-cases (add_pod x s)) [
    | inl m ↦ ground (arith, m)
    | inr (added, m) ↦ ground (arith, m, put_back-append xs ys added t u)
  ]

  exchange :
      (a xs ys b kept more : List P)
      → Perm (a ++ xs) (b ++ kept)
      → (c : List P) → Perm (b ++ ys) (c ++ more)
      → Perm (a ++ (xs ++ ys)) (c ++ (kept ++ more))
  exchange a xs ys b kept more p c q = Perm.trans (same_Perm _ _ (sym (append_assoc a xs ys))) (
      Perm.trans (Perm.append_right ys p) (
        Perm.trans (same_Perm _ _ (append_assoc b kept ys)) (
          Perm.trans (Perm.append_left b (perm_append_comm kept ys)) (
            Perm.trans (same_Perm _ _ (sym (append_assoc b ys kept))) (
              Perm.trans (Perm.append_right kept q) (
                Perm.trans (same_Perm _ _ (append_assoc c more kept))
                  (Perm.append_left c (perm_append_comm more kept))))))))

  pub Settles-append :
      (over : S → Bool) (xs ys : List P) (s t u : S) (a b c : List P)
      → Settles over a s xs b t
      → Settles over b t ys c u
      → Settles over a s (xs ++ ys) c u
  Settles-append over xs ys s t u a b c (kept, p, put, ok) (more, q, put', ok') = (
    kept ++ more,
    exchange a xs ys b kept more p c q,
    put_back-append kept more s t u put put',
    elim ok' [
      | inl none_more ↦ elim ok [
        | inl none_kept ↦ inl (rw (none_kept, none_more) refl)
        | inr (f, o) ↦ inr (rw (← put_back_none more t u none_more put') (f, o))
      ]
      | inr settled ↦ inr settled
    ],
  )
