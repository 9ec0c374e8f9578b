-- ===== src/Preemption/Reprieve/Fit.antt =====
-- What the reprieves leave on the node and report as victims (SelectVictimsOnNode of
-- pkg/capacityscheduling/capacity_scheduling.go).
use plugins_improve.Prelude.{
  ℕ, suc, zero, ◌≡◌, ◌∙◌, ◌⊎◌, refl, sym, Bool, true, false, none, some, List, [], ◌∷◌, ◌++◌,
  sort_slice, sort_slice-Perm, arith, Option-cases, inl, inr, if◌then◌else◌,
}
use mathlib.Core.List.{Perm}
use mathlib.Core.List.Perm
use plugins_improve.Preemption.Pdb.{SelectorApi, Pdb, PodView, filter_pods_with_pdb_violation}
use plugins_improve.Preemption.Pdb.Budget.{split-Perm}
use plugins_improve.Preemption.Simulation.{Handle, is_success}
use plugins_improve.Preemption.Reprieve.Settling.{
  RemoveUndoesAdd, RemovesOnce, put_back, decided, Settles, put_back_none, Settles-append,
  decided-Settles,
}
use plugins_improve.Preemption.Reprieve.{both_nonempty, reprieve_pod, reprieve_all, reprieve}

module _ {P S : Type 0} (h : Handle P S) (undo : RemoveUndoesAdd h) (once : RemovesOnce h)
    (over : S → Bool) where
  open h use {remove_pod, add_pod, run_filters}

  reprieve_all-step :
      (p : P) (ps : List P) (s : S) (victims : List P) (n : ℕ)
      → reprieve_all h over (p ∷ ps) s victims n ≡ (elim (add_pod p s) [
        | none ↦ none
        | some added ↦ elim (is_success (run_filters added)) [
          | true ↦ elim (over added) [
            | false ↦ reprieve_all h over ps added victims n
            | true ↦ reprieve_all h over ps s (victims ++ p ∷ []) n
          ]
          | false ↦ elim (over s) [
            | false ↦ reprieve_all h over ps s (victims ++ p ∷ []) (suc n)
            | true ↦ none
          ]
        ]
      ])
  unfolding reprieve_all reprieve_pod
  reprieve_all-step p ps s victims n = elim (Option-cases (add_pod p s)) [
    | inl e ↦ ground (arith, e)
    | inr (added, e) ↦ ground (arith, undo p s added e, once p added s)
  ]

  -- The loop of reprieves takes the decisions of the loop that never removes a pod.
  reprieve_all-decided_from :
      (ps : List P) (s : S) (victims : List P) (n : ℕ)
      → reprieve_all h over ps s victims n ≡ decided h over ps s victims n
  unfolding decided reprieve_all
  reprieve_all-decided_from [] s victims n = refl
  reprieve_all-decided_from (p ∷ ps) s victims n = elim (Option-cases (add_pod p s)) [
    | inl a ↦ ground (arith, a, reprieve_all-step p ps s victims n)
    | inr (added, a) ↦ ground (
      arith,
      a,
      reprieve_all-step p ps s victims n,
      reprieve_all-decided_from ps added victims n,
      reprieve_all-decided_from ps s (victims ++ p ∷ []) n,
      reprieve_all-decided_from ps s (victims ++ p ∷ []) (suc n),
    )
  ]

  reprieve_all-Settles :
      (ps : List P) (s : S) (victims : List P) (n : ℕ) (s' : S) (victims' : List P) (n' : ℕ)
      → reprieve_all h over ps s victims n ≡ some (s', victims', n')
      → Settles h over victims s ps victims' s'
  reprieve_all-Settles ps s victims n s' victims' n' e =
      decided-Settles h over ps s victims n s' victims' n'
        (sym (reprieve_all-decided_from ps s victims n) ∙ e)

  Settles-sorted :
      (sorts : Bool) (ps : List P) (s s' u : S) (ws victims : List P)
      → u ≡ s'
      → (if sorts then sort_slice h.more_important_pod ws else ws) ≡ victims
      → Settles h over [] s ps ws u
      → Settles h over [] s ps victims s'
  Settles-sorted false ps s s' u ws victims e v settled = rw (← e, ← v) settled
  Settles-sorted true ps s s' u ws victims e v (kept, perm, put, ok) =
      rw (← e, ← v)
        (
          kept,
          Perm.trans perm
              (Perm.append_right kept (Perm.symm (sort_slice-Perm h.more_important_pod ws))),
          put,
          ok,
        )

  Settles-regrouped :
      (xs ys ps : List P) (s s' : S) (victims : List P)
      → Perm (xs ++ ys) ps
      → Settles h over [] s (xs ++ ys) victims s'
      → Settles h over [] s ps victims s'
  Settles-regrouped xs ys ps s s' victims q (kept, perm, put, ok) =
      (kept, Perm.trans (Perm.symm q) perm, put, ok)

  -- The two groups are together the potential victims.
  regrouped :
      (sel : SelectorApi) (view : P → PodView) (pdbs : List (Pdb sel)) (potential : List P)
      → let (violating, others) =
          filter_pods_with_pdb_violation sel view
            (sort_slice h.more_important_pod potential)
            pdbs in
        Perm (violating ++ others) potential
  regrouped sel view pdbs potential =
      Perm.trans (split-Perm sel P view (sort_slice h.more_important_pod potential) pdbs)
        (sort_slice-Perm h.more_important_pod potential)

  reprieve-Settles :
      (sel : SelectorApi) (view : P → PodView) (pdbs : List (Pdb sel)) (potential : List P)
      (s s' : S) (victims : List P) (n : ℕ)
      → reprieve h sel view pdbs over potential s ≡ some (s', victims, n)
      → Settles h over [] s potential victims s'
  unfolding reprieve
  reprieve-Settles sel view pdbs potential s s' victims n e =
      elim (Option-cases (reprieve_all h over groups.0 s [] zero)) [
        | inl m ↦ absurd (ground (arith, m))
        | inr ((t, vs, k), m) ↦ elim (Option-cases (reprieve_all h over groups.1 t vs zero)) [
          | inl o ↦ absurd (ground (arith, m, o))
          | inr ((u, ws, j), o) ↦
              Settles-regrouped groups.0 groups.1 potential s s' victims
                (regrouped sel view pdbs potential)
                (Settles-sorted (both_nonempty h groups.0 groups.1) (groups.0 ++ groups.1) s s' u ws
                  victims (ground (arith, m, o)) (ground (arith, m, o))
                  (Settles-append h over groups.0 groups.1 s t u [] vs ws
                    (reprieve_all-Settles groups.0 s [] zero t vs k m)
                    (reprieve_all-Settles groups.1 t vs zero u ws j o)))
        ]
      ]
    where
      groups : List P × List P
      groups =
          filter_pods_with_pdb_violation sel view (sort_slice h.more_important_pod potential) pdbs

-- Let a removal undo the addition just before it, and a pod that was removed not be removed again. Then a
-- loop of reprieves decides as the loop that never removes a pod: a pod is put back where it fits and
-- the quotas hold with it. It is a victim where it fits but the quotas do not hold with it, and where
-- it does not fit, then one of those that are counted. It is an error where a pod cannot be added, or
-- does not fit while the quotas do not hold without it either.
pub reprieve_all-decided :
    (P S : Type 0) (h : Handle P S) (over : S → Bool) (ps : List P) (s : S) (victims : List P)
    (n : ℕ)
    → RemoveUndoesAdd h
    → RemovesOnce h
    → reprieve_all h over ps s victims n ≡ decided h over ps s victims n
reprieve_all-decided P S h over ps s victims n undo once =
    reprieve_all-decided_from h undo once over ps s victims n

-- Let a removal undo the addition just before it, and a pod that was removed not be removed again. Where
-- the preemptor fits on the node without the potential victims, and the reprieves are no error, each
-- of these is either reported as a victim or back on the node, once, and the preemptor fits on the
-- node as it is left. Where a pod is back, the quotas hold on that node too.
pub pod_fits_without_victims :
    (P S : Type 0) (h : Handle P S) (sel : SelectorApi) (view : P → PodView) (pdbs : List (Pdb sel))
    (over : S → Bool) (potential : List P) (s s' : S) (victims : List P) (n : ℕ)
    → RemoveUndoesAdd h
    → RemovesOnce h
    → is_success (h.run_filters s) ≡ true
    → reprieve h sel view pdbs over potential s ≡ some (s', victims, n)
    → (kept : List P) × Perm potential (victims ++ kept)
      × (put_back h kept s ≡ some s')
      × (is_success (h.run_filters s') ≡ true)
      × ((kept ≡ []) ⊎ (over s' ≡ false))
unfolding reprieve
pod_fits_without_victims P S h sel view pdbs over potential s s' victims n undo once f e =
    let (kept, perm, put, ok) =
      reprieve-Settles h undo once over sel view pdbs potential s s' victims n e in
    (
      kept,
      perm,
      put,
      elim ok [ inl none_kept ↦ rw (← put_back_none h kept s s' none_kept put) f | inr (g, o) ↦ g ],
      elim ok [ inl none_kept ↦ inl none_kept | inr (g, o) ↦ inr o ],
    )
