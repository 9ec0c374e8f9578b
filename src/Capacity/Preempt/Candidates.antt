-- ===== src/Capacity/Preempt/Candidates.antt =====
-- Which pods SelectVictimsOnNode of pkg/capacityscheduling/capacity_scheduling.go selects.
use plugins_improve.Prelude.{
  ℕ, ◌≡◌, refl, Bool, true, false, ◌&&◌, not, Option, none, some, List, [], ◌∷◌, ◌++◌, sort_slice,
  arith, Option-cases, inl, inr, all, all-append,
}
use plugins_improve.Preemption.Pdb.{SelectorApi, Pdb}
use plugins_improve.Preemption.Simulation.{Handle, take_out}
use plugins_improve.Preemption.Reprieve.{victims_of, reprieve}
use plugins_improve.Preemption.Reprieve.Victims.{all-reprieve}
use plugins_improve.Capacity.Resource.{Pod, FrameworkApi}
use plugins_improve.Capacity.Quota.{ElasticQuotaInfos}
use plugins_improve.Capacity.Plugin.{PreFilterState, CycleState}
use plugins_improve.Capacity.Preempt.{
  same_namespace, lower_priority, quota_mode, is_candidate, pod_view, quotas, over_quota, settle,
  select_victims_on_node,
}

module _ {Q : Type 0} where
  -- Who may be a victim of a preemptor whose own quota would be over its Min (`some true`), would not
  -- be (`some false`), or does not exist.
  abbrev pub permitted : Pod Q → Option Bool → Pod Q → Bool
  permitted pod (some true) p = same_namespace p pod && lower_priority p pod
  permitted pod (some false) p = not (same_namespace p pod)
  permitted pod none p = lower_priority p pod

  is_candidate-permitted :
      (infos : ElasticQuotaInfos) (pod : Pod Q) (mode : Option Bool) (p : Pod Q)
      → is_candidate infos pod mode p ≡ true
      → permitted pod mode p ≡ true
  unfolding is_candidate
  is_candidate-permitted infos pod none p e = ground arith
  is_candidate-permitted infos pod (some true) p e = ground arith
  is_candidate-permitted infos pod (some false) p e = ground arith

module _ (api : FrameworkApi) {S : Type 0} (h : Handle (Pod api.Q) S) (cycle : S → CycleState) where
  open api use {Q}
  open h use {remove_pod}

  take_out-permitted :
      (pod : Pod Q) (mode : Option Bool) (ps : List (Pod Q)) (s : S) (victims found : List (Pod Q))
      (t : S)
      → all (permitted pod mode) victims ≡ true
      → take_out h (λ u p. is_candidate (quotas api h cycle u) pod mode p) ps s victims
        ≡ some (found, t)
      → all (permitted pod mode) found ≡ true
  unfolding take_out all
  take_out-permitted pod mode [] s victims found t a e = ground arith
  take_out-permitted pod mode (p ∷ ps) s victims found t a e =
      elim (Option-cases (remove_pod p s)) [
        | inl m ↦ ground (arith, take_out-permitted pod mode ps s victims found t a)
        | inr (s', m) ↦ ground (
          arith,
          is_candidate-permitted (quotas api h cycle s) pod mode p,
          all-append (permitted pod mode) victims (p ∷ []),
          take_out-permitted pod mode ps s victims found t a,
          take_out-permitted pod mode ps s' (victims ++ p ∷ []) found t,
        )
      ]

  settle-permitted :
      (test : Pod Q → Bool) (sel : SelectorApi) (pdbs : List (Pdb sel)) (st : PreFilterState)
      (with_eq : Bool) (pod : Pod Q) (potential : List (Pod Q)) (s : S) (victims : List (Pod Q))
      (n : ℕ)
      → all test potential ≡ true
      → settle api h cycle sel pdbs st with_eq pod potential s ≡ victims_of victims n
      → all test victims ≡ true
  unfolding settle
  settle-permitted test sel pdbs st with_eq pod [] s victims n a e = ground arith
  settle-permitted test sel pdbs st with_eq pod (v ∷ vs) s victims n a e =
      elim (Option-cases (reprieve h sel pod_view pdbs over (v ∷ vs) s)) [
        | inl m ↦ ground arith
        | inr ((u, ws, k), m) ↦
            ground (arith, all-reprieve test h over sel pod_view pdbs (v ∷ vs) s u ws k a m)
      ]
    where
      over : S → Bool
      over t =
          with_eq
          && over_quota api h cycle pod st.nominated_pods_req_in_eq_with_pod_req
              st.nominated_pods_req_with_pod_req t

-- Every victim is one that the quotas permit: of the preemptor's namespace and of lower priority where
-- the preemptor's quota would be over its Min, of another namespace where it would not be, and of
-- lower priority where the preemptor has no quota.
pub victims_are_permitted :
    (api : FrameworkApi) (S : Type 0) (h : Handle (Pod api.Q) S) (cycle : S → CycleState)
    (sel : SelectorApi) (pdbs : List (Pdb sel)) (pod : Pod api.Q) (s : S)
    (infos : ElasticQuotaInfos) (st : PreFilterState) (victims : List (Pod api.Q)) (n : ℕ)
    → (cycle s).snapshot ≡ some infos
    → (cycle s).pre_filter_state ≡ some st
    → select_victims_on_node api h cycle sel pdbs pod s ≡ victims_of victims n
    → all (permitted pod (quota_mode infos st pod)) victims ≡ true
unfolding select_victims_on_node all
victims_are_permitted api S h cycle sel pdbs pod s infos st victims n c d e =
    elim (Option-cases
      (take_out h (λ u p. is_candidate (quotas api h cycle u) pod mode p) pods s [])) [
        | inl m ↦ ground arith
        | inr ((found, t), m) ↦ ground (
          arith,
          take_out-permitted api h cycle pod mode pods s [] found t refl m,
          settle-permitted api h cycle (permitted pod mode) sel pdbs st true pod found t victims n,
          settle-permitted api h cycle (permitted pod mode) sel pdbs st false pod found t victims n,
        )
      ]
  where
    mode : Option Bool
    mode = quota_mode infos st pod

    pods : List (Pod api.Q)
    pods = sort_slice (λ a b. not (h.more_important_pod a b)) (h.node_pods s)
