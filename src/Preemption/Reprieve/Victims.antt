-- ===== src/Preemption/Reprieve/Victims.antt =====
-- What holds of every victim (SelectVictimsOnNode of pkg/capacityscheduling/capacity_scheduling.go and
-- of pkg/preemptiontoleration/preemption_toleration.go).
use plugins_improve.Prelude.{
  ℕ, suc, zero, ◌≡◌, refl, ℤ, Bool, true, ◌&&◌, some, List, [], ◌∷◌, ◌++◌, map, sort_slice, arith,
  Option-cases, inl, inr, all, all-append, all-sort_slice, if◌then◌else◌,
}
use plugins_improve.Preemption.Pdb.{
  SelectorApi, Pdb, PodView, visit_pod, split_pods, filter_pods_with_pdb_violation,
}
use plugins_improve.Preemption.Simulation.{Handle}
use plugins_improve.Preemption.Reprieve.{reprieve_pod, reprieve_all, reprieve}

module _ {P : Type 0} (test : P → Bool) where
  all-split_pods :
      (sel : SelectorApi) (view : P → PodView) (ps : List P) (budgets : List (Pdb sel × ℤ))
      → (all test (split_pods sel view ps budgets).0 && all test (split_pods sel view ps budgets).1)
        ≡ all test ps
  unfolding split_pods all
  all-split_pods sel view [] budgets = refl
  all-split_pods sel view (p ∷ ps) budgets =
      ground (arith, all-split_pods sel view ps (visit_pod sel (view p) budgets).0)

  module _ {S : Type 0} (h : Handle P S) (over : S → Bool) where
    open h use {remove_pod, add_pod, more_important_pod}

    all-reprieve_pod :
        (p : P) (s : S) (victims : List P) (fits : Bool) (s' : S) (victims' : List P)
        → test p ≡ true
        → all test victims ≡ true
        → reprieve_pod h over p s victims ≡ some (fits, s', victims')
        → all test victims' ≡ true
    unfolding reprieve_pod all
    all-reprieve_pod p s victims fits s' victims' t a e =
        ground
          (arith, all-append test victims (p ∷ []), all-append test (victims ++ p ∷ []) (p ∷ []))

    all-reprieve_all :
        (ps : List P) (s : S) (victims : List P) (n : ℕ) (s' : S) (victims' : List P) (n' : ℕ)
        → all test ps ≡ true
        → all test victims ≡ true
        → reprieve_all h over ps s victims n ≡ some (s', victims', n')
        → all test victims' ≡ true
    unfolding reprieve_all all
    all-reprieve_all [] s victims n s' victims' n' t a e = ground arith
    all-reprieve_all (p ∷ ps) s victims n s' victims' n' t a e =
        elim (Option-cases (reprieve_pod h over p s victims)) [
          | inl m ↦ ground arith
          | inr ((fits, u, vs), m) ↦ ground (
            arith,
            all-reprieve_pod p s victims fits u vs,
            all-reprieve_all ps u vs (if fits then n else suc n) s' victims' n',
          )
        ]

    pub all-reprieve :
        (sel : SelectorApi) (view : P → PodView) (pdbs : List (Pdb sel)) (potential : List P)
        (s s' : S) (victims : List P) (n : ℕ)
        → all test potential ≡ true
        → reprieve h sel view pdbs over potential s ≡ some (s', victims, n)
        → all test victims ≡ true
    unfolding reprieve filter_pods_with_pdb_violation all
    all-reprieve sel view pdbs potential s s' victims n t e =
        elim (Option-cases (reprieve_all h over groups.0 s [] zero)) [
          | inl m ↦ ground arith
          | inr ((u, vs, k), m) ↦ elim (Option-cases (reprieve_all h over groups.1 u vs zero)) [
            | inl o ↦ ground arith
            | inr ((w, ws, j), o) ↦ ground (
              arith,
              all-sort_slice test more_important_pod potential,
              all-sort_slice test more_important_pod ws,
              all-split_pods sel view (sort_slice more_important_pod potential)
                  (map (λ b. (b, b.disruptions_allowed)) pdbs),
              all-reprieve_all groups.0 s [] zero u vs k,
              all-reprieve_all groups.1 u vs zero w ws j,
            )
          ]
        ]
      where
        groups : List P × List P
        groups =
            filter_pods_with_pdb_violation sel view (sort_slice more_important_pod potential) pdbs
