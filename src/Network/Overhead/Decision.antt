-- ===== src/Network/Overhead/Decision.antt =====
-- What Filter and Score answer after PreFilter:
-- pkg/networkaware/networkoverhead/networkoverhead.go.
use mathlib.Core.Path.{subst}
use mathlib.Core.Option.{some-injective}
use plugins_improve.Prelude.{
  ℕ, zero, suc, ℤ, ◌≡◌, refl, ◌∙◌, inl, inr, false, Option, none, some, List, [], ◌∷◌, String,
  arith, str_eq, ltb_ℤ, get_elem?, All, lookup, lookup_or, lookup-insert, str_eq_refl, str_eq_sym,
  Bool-cases, Option-cases, if◌then◌else◌,
}
use plugins_improve.Status.{success, unschedulable}
use plugins_improve.Network.Types.{
  ScheduledInfo, NetworkTopology, DependenciesInfo, AppGroup, Pod, Node,
}
use plugins_improve.Network.Util.{get_pod_app_group_label, get_dependency_list, get_scheduled_list}
use plugins_improve.Network.Costs.{CostMap, NetworkOverhead, find_app_group, find_network_topology}
use plugins_improve.Network.Passes.{Checked, counted, failed, Accumulated, total, aborted}
use plugins_improve.Network.Overhead.{
  PreFilterState, initial_state, returned, NodeMaps, empty_maps, check_node, cost_node, cost_map_of,
  record_node, visit_nodes, final_state, pre_filter_nodes, pre_filter_with, sort_topology,
  pre_filter, filter_node, score_node,
}

-- Node names are distinct.
abbrev pub Distinct : List Node → Type 0
Distinct [] = Unit
Distinct (n ∷ ns) = All (λ k. str_eq n.name k.name ≡ false) ns × Distinct ns

-- The three maps read alike at a name.
abbrev SameAt : String → NodeMaps → NodeMaps → Type 0
SameAt a m m' =
    (lookup a m'.satisfied ≡ lookup a m.satisfied)
    × (lookup a m'.violated ≡ lookup a m.violated)
    × (lookup a m'.final_costs ≡ lookup a m.final_costs)

record_node-other :
    (name a : String) (costs : CostMap) (s v c : ℤ) (m : NodeMaps)
    → str_eq a name ≡ false
    → SameAt a m (record_node name costs s v c m)
unfolding record_node
record_node-other name a costs s v c m h = (
  rw (lookup-insert name a s m.satisfied, str_eq_sym name a, h),
  rw (lookup-insert name a v m.violated, str_eq_sym name a, h),
  rw (lookup-insert name a c m.final_costs, str_eq_sym name a, h),
)

record_node_self :
    (name : String) (costs : CostMap) (s v c : ℤ) (m : NodeMaps)
    → let r = record_node name costs s v c m in
      (lookup name r.satisfied ≡ some s)
      × (lookup name r.violated ≡ some v)
      × (lookup name r.final_costs ≡ some c)
unfolding record_node
record_node_self name costs s v c m = (
  rw (lookup-insert name name s m.satisfied, str_eq_refl name),
  rw (lookup-insert name name v m.violated, str_eq_refl name),
  rw (lookup-insert name name c m.final_costs, str_eq_refl name),
)

module _ (pl : NetworkOverhead) (nt : NetworkTopology) (scheduled : List ScheduledInfo)
    (deps : List DependenciesInfo) where
  -- What the maps say of a node that was visited.
  abbrev pub Recorded : NodeMaps → Node → Type 0
  Recorded m n =
      (s : ℤ) × (v : ℤ) × (c : ℤ) × (check_node pl nt scheduled deps n ≡ counted s v)
      × (cost_node pl nt scheduled deps n ≡ total c)
      × (lookup n.name m.satisfied ≡ some s)
      × (lookup n.name m.violated ≡ some v)
      × (lookup n.name m.final_costs ≡ some c)

  visit_inv :
      (n : Node) (ns : List Node) (m m' : NodeMaps)
      → visit_nodes pl nt scheduled deps (n ∷ ns) m ≡ some m'
      → (s : ℤ) × (v : ℤ) × (c : ℤ) × (check_node pl nt scheduled deps n ≡ counted s v)
        × (cost_node pl nt scheduled deps n ≡ total c)
        × (visit_nodes pl nt scheduled deps ns (record_node n.name (cost_map_of pl nt n) s v c m)
            ≡ some m')
  unfolding visit_nodes
  visit_inv n ns m m' e =
      go (check_node pl nt scheduled deps n) (cost_node pl nt scheduled deps n) refl refl
    where
      go :
          (k : Checked) (t : Accumulated)
          → check_node pl nt scheduled deps n ≡ k
          → cost_node pl nt scheduled deps n ≡ t
          → (s : ℤ) × (v : ℤ) × (c : ℤ) × (check_node pl nt scheduled deps n ≡ counted s v)
            × (cost_node pl nt scheduled deps n ≡ total c)
            × (visit_nodes pl nt scheduled deps ns
                  (record_node n.name (cost_map_of pl nt n) s v c m)
                ≡ some m')
      go (counted s v) (total c) p q = (s, v, c, p, q, rw (p, q, visit_nodes) at e)
      go (counted s v) (aborted c) p q = absurd (ground arith)
      go (failed s v) t p q = absurd (ground arith)

  visit_nodes-other :
      (ns : List Node) (m m' : NodeMaps) (a : String)
      → All (λ k. str_eq a k.name ≡ false) ns
      → visit_nodes pl nt scheduled deps ns m ≡ some m'
      → SameAt a m m'
  unfolding visit_nodes
  visit_nodes-other [] m m' a h e = (ground arith, ground arith, ground arith)
  visit_nodes-other (n ∷ ns) m m' a h e =
      let (s, v, c, p, q, r) = visit_inv n ns m m' e in
      let kept =
        visit_nodes-other ns (record_node n.name (cost_map_of pl nt n) s v c m) m' a h.1 r in
      let here = record_node-other n.name a (cost_map_of pl nt n) s v c m h.0 in
      (kept.0 ∙ here.0, kept.1 ∙ here.1, kept.2 ∙ here.2)

  visit_nodes-Recorded :
      (ns : List Node) (m m' : NodeMaps) (i : ℕ) (n : Node)
      → Distinct ns
      → visit_nodes pl nt scheduled deps ns m ≡ some m'
      → get_elem? ns i ≡ some n
      → Recorded m' n
  visit_nodes-Recorded [] m m' i n d e g = absurd (ground arith)
  visit_nodes-Recorded (k ∷ ns) m m' zero n d e g =
      subst (Recorded m') (some-injective _ _ g) (first (visit_inv k ns m m' e))
    where
      first :
          (s : ℤ) × (v : ℤ) × (c : ℤ) × (check_node pl nt scheduled deps k ≡ counted s v)
            × (cost_node pl nt scheduled deps k ≡ total c)
            × (visit_nodes pl nt scheduled deps ns
                  (record_node k.name (cost_map_of pl nt k) s v c m)
                ≡ some m')
          → Recorded m' k
      first (s, v, c, p, q, r) =
          let kept =
            visit_nodes-other ns (record_node k.name (cost_map_of pl nt k) s v c m) m' k.name d.0
              r in
          let here = record_node_self k.name (cost_map_of pl nt k) s v c m in
          (s, v, c, p, q, kept.0 ∙ here.0, kept.1 ∙ here.1, kept.2 ∙ here.2)
  visit_nodes-Recorded (k ∷ ns) m m' (suc i) n d e g =
      let (s, v, c, p, q, r) = visit_inv k ns m m' e in
      visit_nodes-Recorded ns (record_node k.name (cost_map_of pl nt k) s v c m) m' i n d.1 r g

-- What Filter and Score answer for a node, in terms of its own two passes.
abbrev pub Decided : NetworkOverhead → PreFilterState → Node → Type 0
Decided pl st n =
    (nt : NetworkTopology) × (s : ℤ) × (v : ℤ) × (c : ℤ) × (st.network_topology ≡ some nt)
    × (check_node pl nt st.scheduled_list st.dependency_list n ≡ counted s v)
    × (cost_node pl nt st.scheduled_list st.dependency_list n ≡ total c)
    × (filter_node (some st) (some n) ≡ (if ltb_ℤ s v then unschedulable else success))
    × (score_node (some st) n ≡ (c, success))

final_state-Decided :
    (pl : NetworkOverhead) (ag_name : String) (ag : AppGroup) (nt : NetworkTopology)
    (deps : List DependenciesInfo) (scheduled : List ScheduledInfo) (m : NodeMaps) (n : Node)
    → Recorded pl nt scheduled deps m n
    → Decided pl (final_state ag_name ag (some nt) deps scheduled m) n
unfolding filter_node score_node lookup_or lookup
final_state-Decided pl ag_name ag nt deps scheduled m n (s, v, c, p, q, x, y, z) =
    (nt, s, v, c, refl, p, q, rw (x, y), rw z)

pre_filter_nodes-Decided :
    (pl : NetworkOverhead) (ag_name : String) (ag : AppGroup) (nt : Option NetworkTopology)
    (deps : List DependenciesInfo) (scheduled : List ScheduledInfo) (ns : List Node)
    (st : PreFilterState) (i : ℕ) (n : Node)
    → pre_filter_nodes pl ag_name ag nt deps scheduled ns ≡ returned success st
    → Distinct ns
    → get_elem? ns i ≡ some n
    → Decided pl st n
unfolding pre_filter_nodes
pre_filter_nodes-Decided pl ag_name ag none deps scheduled [] st i n e d g = absurd (ground arith)
pre_filter_nodes-Decided pl ag_name ag none deps scheduled (k ∷ ns) st i n e d g =
    absurd (ground arith)
pre_filter_nodes-Decided pl ag_name ag (some nt) deps scheduled ns st i n e d g =
    elim (Option-cases (visit_nodes pl nt scheduled deps ns empty_maps)) [
      | inl failure ↦ absurd (ground arith)
      | inr (m, q) ↦
          let same : final_state ag_name ag (some nt) deps scheduled m ≡ st = ground arith in
          subst (λ x. Decided pl x n) same
            (final_state-Decided pl ag_name ag nt deps scheduled m n
              (visit_nodes-Recorded pl nt scheduled deps ns empty_maps m i n d q g))
    ]

pre_filter_with-Decided :
    (pl : NetworkOverhead) (pods : Option (List Pod)) (ns : List Node) (ag_name : String)
    (ag : AppGroup) (nt : Option NetworkTopology) (pod : Pod) (st : PreFilterState) (i : ℕ)
    (n : Node)
    → pre_filter_with pl pods (some ns) ag_name ag nt pod ≡ returned success st
    → st.score_equally ≡ false
    → Distinct ns
    → get_elem? ns i ≡ some n
    → Decided pl st n
unfolding pre_filter_with
pre_filter_with-Decided pl pods ns ag_name ag nt pod st i n e a d g =
    go (get_dependency_list pl.api pod ag) pods refl refl
  where
    stop : returned success initial_state ≡ returned success st → Decided pl st n
    stop q = absurd (ground arith)

    scheduled :
        (dep : DependenciesInfo) (deps : List DependenciesInfo) (ps : List Pod)
        (l : List ScheduledInfo)
        → get_dependency_list pl.api pod ag ≡ dep ∷ deps
        → pods ≡ some ps
        → get_scheduled_list pl.api ps ≡ l
        → Decided pl st n
    scheduled dep deps ps [] p q r = stop (rw (p, q, r, pre_filter_with) at e)
    scheduled dep deps ps (x ∷ l) p q r =
        pre_filter_nodes-Decided pl ag_name ag nt (dep ∷ deps) (x ∷ l) ns st i n
          (rw (p, q, r, pre_filter_with) at e) d g

    go :
        (deps : List DependenciesInfo) (o : Option (List Pod))
        → get_dependency_list pl.api pod ag ≡ deps
        → pods ≡ o
        → Decided pl st n
    go [] o p q = stop (rw (p, pre_filter_with) at e)
    go (dep ∷ deps) none p q = stop (rw (p, q, pre_filter_with) at e)
    go (dep ∷ deps) (some ps) p q = scheduled dep deps ps (get_scheduled_list pl.api ps) p q refl

-- After a PreFilter that succeeded and did not decide to score all nodes equally, every node of the
-- snapshot (names distinct) was visited without an error; Filter rejects it exactly if its pass
-- counted more violated than satisfied dependencies, and Score returns its accumulated cost.
pub pre_filter-Decided :
    (pl : NetworkOverhead) (pods : Option (List Pod)) (ns : List Node) (pod : Pod)
    (st : PreFilterState) (i : ℕ) (n : Node)
    → pre_filter pl pods (some ns) pod ≡ returned success st
    → st.score_equally ≡ false
    → Distinct ns
    → get_elem? ns i ≡ some n
    → Decided pl st n
unfolding pre_filter
pre_filter-Decided pl pods ns pod st i n e a d g =
    elim (Bool-cases (str_eq (get_pod_app_group_label pl.api pod) "")) [
      | inl outside ↦ absurd (ground arith)
      | inr inside ↦ elim (Option-cases (sort_topology pl (find_network_topology pl))) [
        | inl nil ↦ absurd (ground arith)
        | inr (nt, p) ↦
            elim (Option-cases (find_app_group pl (get_pod_app_group_label pl.api pod))) [
              | inl nil ↦ absurd (ground arith)
              | inr (ag, q) ↦
                  pre_filter_with-Decided pl pods ns (get_pod_app_group_label pl.api pod) ag nt pod
                    st i n (rw (inside, p, q, pre_filter) at e) a d g
            ]
      ]
    ]
