-- ===== src/Preemption/Toleration/Selection.antt =====
-- Which pods SelectVictimsOnNode of pkg/preemptiontoleration/preemption_toleration.go selects.
use plugins_improve.Prelude.{
  ℕ, ◌≡◌, refl, ℤ, leb_ℤ, Bool, true, false, ◌&&◌, not, Option, some, List, [], ◌∷◌, ◌++◌, String,
  arith, Option-cases, inl, inr, all, all-append,
}
use plugins_improve.Preemption.Pdb.{SelectorApi, Pdb}
use plugins_improve.Preemption.Simulation.{Handle}
use plugins_improve.Preemption.Reprieve.{victims_of, reprieve}
use plugins_improve.Preemption.Reprieve.Victims.{all-reprieve}
use plugins_improve.Preemption.Toleration.{
  Pod, PriorityClass, pod_view, exempted_from_preemption, remove_victims, settle,
  select_victims_on_node,
}

-- A pod of lower priority that is not exempted.
abbrev pub preemptable : (Pod → Option Bool) → Pod → Pod → Bool
preemptable exempted preemptor p =
    not (leb_ℤ preemptor.priority p.priority) && elim (exempted p) [ some false ↦ true | _ ↦ false ]

module _ {S : Type 0} (h : Handle Pod S) where
  open h use {remove_pod}

  remove_victims-preemptable :
      (exempted : Pod → Option Bool) (preemptor : Pod) (ps : List Pod) (s : S) (victims : List Pod)
      (found : List Pod) (t : S)
      → all (preemptable exempted preemptor) victims ≡ true
      → remove_victims h exempted preemptor ps s victims ≡ some (found, t)
      → all (preemptable exempted preemptor) found ≡ true
  unfolding remove_victims all
  remove_victims-preemptable exempted preemptor [] s victims found t a e = ground arith
  remove_victims-preemptable exempted preemptor (p ∷ ps) s victims found t a e =
      elim (Option-cases (remove_pod p s)) [
        | inl m ↦
            ground (arith, remove_victims-preemptable exempted preemptor ps s victims found t a)
        | inr (s', m) ↦ ground (
          arith,
          all-append (preemptable exempted preemptor) victims (p ∷ []),
          remove_victims-preemptable exempted preemptor ps s victims found t a,
          remove_victims-preemptable exempted preemptor ps s' (victims ++ p ∷ []) found t,
        )
      ]

  settle-all :
      (test : Pod → Bool) (sel : SelectorApi) (pdbs : List (Pdb sel)) (potential : List Pod) (s : S)
      (victims : List Pod) (n : ℕ)
      → all test potential ≡ true
      → settle h sel pdbs potential s ≡ victims_of victims n
      → all test victims ≡ true
  unfolding settle
  settle-all test sel pdbs [] s victims n a e = ground arith
  settle-all test sel pdbs (v ∷ vs) s victims n a e =
      elim (Option-cases (reprieve h sel pod_view pdbs (λ u. false) (v ∷ vs) s)) [
        | inl m ↦ ground arith
        | inr ((u, ws, k), m) ↦
            ground (arith, all-reprieve test h (λ w. false) sel pod_view pdbs (v ∷ vs) s u ws k a m)
      ]

-- Every pod that is selected as a victim has a lower priority than the preemptor and is not exempted
-- from its preemption.
pub victims_are_preemptable :
    (S : Type 0) (h : Handle Pod S) (sel : SelectorApi) (pdbs : List (Pdb sel))
    (lister : String → Option PriorityClass) (now : ℤ) (preemptor : Pod) (s : S)
    (victims : List Pod) (n : ℕ)
    → select_victims_on_node h sel pdbs lister now preemptor s ≡ victims_of victims n
    → all (preemptable (λ p. exempted_from_preemption lister p preemptor now) preemptor) victims
      ≡ true
unfolding select_victims_on_node all
victims_are_preemptable S h sel pdbs lister now preemptor s victims n e =
    elim (Option-cases (remove_victims h exempted preemptor (h.node_pods s) s [])) [
      | inl m ↦ ground arith
      | inr ((found, t), m) ↦ ground (
        arith,
        remove_victims-preemptable h exempted preemptor (h.node_pods s) s [] found t refl m,
        settle-all h (preemptable exempted preemptor) sel pdbs found t victims n,
      )
    ]
  where
    exempted : Pod → Option Bool
    exempted p = exempted_from_preemption lister p preemptor now
