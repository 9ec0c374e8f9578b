-- ===== src/Cache/DiscardReserved/Pending.antt =====
-- The reservations of pkg/noderesourcetopology/cache/discardreserved.go as a set of pending pods.
use plugins_improve.Prelude.{
  ltb, Bool, true, false, ◌&&◌, ◌≡◌, ◌⊎◌, inl, inr, refl, arith, Option, none, List, [], ◌∷◌,
  String, str_eq, str_eq_refl, eq_iff, has, lookup, lookup_or, insert, delete, lookup-insert,
  has-insert, has-delete, length, Option-cases, if◌then◌else◌,
}
use plugins_improve.Cache.Store.{Nrt, Pod}
use plugins_improve.Cache.DiscardReserved.{
  ReservationMap, get_cached_nrt_copy, reserve_node_resources, unreserve_node_resources, post_bind,
  remove_reservation_for_node,
}

-- The map has the pods that are pending.
abbrev Refines : ReservationMap → (String → String → Bool) → Type 0
Refines m pending = (node uid : String) → has uid (lookup_or node [] m) ≡ pending node uid

first_key :
    {V : Type 0} (m : List (String × V))
    → (m ≡ []) ⊎ ((k : String) × (has k m ≡ true) × (ltb 0 (length m) ≡ true))
unfolding has lookup
first_key [] = inl refl
first_key ((k, v) ∷ m) = inr (k, ground (arith, str_eq_refl k), ground arith)

-- The calls that the scheduler makes.
pub data Call (Q : Type 0) : Type 0 where
  reserved unreserved bound : String → Pod Q → Call Q

module _ {Q : Type 0} where
  unfoldable pub step : ReservationMap → Call Q → ReservationMap
  step m (reserved node pod) = reserve_node_resources node pod m
  step m (unreserved node pod) = unreserve_node_resources node pod m
  step m (bound node pod) = post_bind node pod m

  unfoldable pub run : ReservationMap → List (Call Q) → ReservationMap
  run m [] = m
  run m (c ∷ cs) = run (step m c) cs

  -- The abstract state: which pods are pending on which node. Reserve adds a pair, Unreserve and
  -- PostBind remove it.
  abbrev pub pend : Bool → String → Pod Q → (String → String → Bool) → String → String → Bool
  pend b node pod pending other uid =
      if str_eq node other && str_eq pod.uid uid then b else pending other uid

  abbrev pub abstract_step : (String → String → Bool) → Call Q → String → String → Bool
  abstract_step pending (reserved node pod) = pend true node pod pending
  abstract_step pending (unreserved node pod) = pend false node pod pending
  abstract_step pending (bound node pod) = pend false node pod pending

  abbrev pub abstract_run : (String → String → Bool) → List (Call Q) → String → String → Bool
  abstract_run pending [] = pending
  abstract_run pending (c ∷ cs) = abstract_run (abstract_step pending c) cs

  reserve-Refines :
      (m : ReservationMap) (pending : String → String → Bool) (node : String) (pod : Pod Q)
      → Refines m pending
      → Refines (reserve_node_resources node pod m) (pend true node pod pending)
  unfolding reserve_node_resources lookup_or
  reserve-Refines m pending node pod r other uid = ground (
    arith,
    r other uid,
    lookup-insert node other (insert pod.uid true (lookup_or node [] m)) m,
    eq_iff node other,
    has-insert pod.uid uid true (lookup_or node [] m),
  )

  remove-Refines :
      (m : ReservationMap) (pending : String → String → Bool) (node : String) (pod : Pod Q)
      → Refines m pending
      → Refines (remove_reservation_for_node node pod m) (pend false node pod pending)
  unfolding remove_reservation_for_node lookup_or has lookup
  remove-Refines m pending node pod r other uid = elim (Option-cases (lookup node m)) [
    | inl e ↦ ground (arith, e, r other uid, eq_iff node other)
    | inr (t, e) ↦ ground (
      arith,
      e,
      r other uid,
      lookup-insert node other (delete pod.uid t) m,
      eq_iff node other,
      has-delete pod.uid uid t,
    )
  ]

  step-Refines :
      (m : ReservationMap) (pending : String → String → Bool) (c : Call Q)
      → Refines m pending
      → Refines (step m c) (abstract_step pending c)
  unfolding step unreserve_node_resources post_bind
  step-Refines m pending (reserved node pod) r = reserve-Refines m pending node pod r
  step-Refines m pending (unreserved node pod) r = remove-Refines m pending node pod r
  step-Refines m pending (bound node pod) r = remove-Refines m pending node pod r

  run-Refines :
      (m : ReservationMap) (pending : String → String → Bool) (cs : List (Call Q))
      → Refines m pending
      → Refines (run m cs) (abstract_run pending cs)
  unfolding run
  run-Refines m pending [] r = r
  run-Refines m pending (c ∷ cs) r =
      run-Refines (step m c) (abstract_step pending c) cs (step-Refines m pending c r)

  -- The cache refines the set of pending pods, over any sequence of calls from the empty map: a node
  -- on which no pod is pending is served as the API answers, and is fresh; a node on which some pod is
  -- pending is served no data and is not fresh.
  pub served-pending :
      (get : String → Option (Nrt Q)) (cs : List (Call Q)) (node : String)
      → ((get_cached_nrt_copy get node (run [] cs)
            ≡ (get node, record { generation = 0; fresh = true }))
          × ((uid : String) → abstract_run (λ n u. false) cs node uid ≡ false))
        ⊎ ((get_cached_nrt_copy get node (run [] cs)
              ≡ (none, record { generation = 0; fresh = false }))
            × ((uid : String) × (abstract_run (λ n u. false) cs node uid ≡ true)))
  unfolding get_cached_nrt_copy has lookup lookup_or
  served-pending get cs node =
      let r = run-Refines [] (λ n u. false) cs (λ n u. refl) in
      elim (first_key (lookup_or node [] (run [] cs))) [
        | inl e ↦ inl (ground (arith, e), λ uid. ground (arith, e, r node uid))
        | inr (k, e, l) ↦ inr (ground (arith, l), (k, ground (arith, e, r node k)))
      ]
