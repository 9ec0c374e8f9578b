-- ===== src/Cache/Store/Pessimism.antt =====
-- What `UpdateNRT` of pkg/noderesourcetopology/cache/store.go takes off every zone.
use plugins_improve.Prelude.{
  ℤ, pos, ◌+ℤ◌, ◌-ℤ◌, ◌≤ℤ◌, ◌≡◌, refl, sym, ◌∙◌, ap, inl, inr, none, some, List, [], ◌∷◌, String,
  arith, map, ltb_ℤ, lookup, All, Option-cases, if◌then◌else◌,
}
use plugins_improve.Quantities.{QuantityApi, ResourceList}
use plugins_improve.Cache.Store.{
  ResourceInfo, Zone, Nrt, ResourceStore, take_resource, take_zone, update_nrt,
}

-- Subtraction that stops at 0.
abbrev pub sat_sub : ℤ → ℤ → ℤ
sat_sub a b = if ltb_ℤ a b then pos 0 else a -ℤ b

sat_sub-sat_sub :
    (a q r : ℤ)
    → pos 0 ≤ℤ a
    → pos 0 ≤ℤ q
    → pos 0 ≤ℤ r
    → (sat_sub (sat_sub a q) r ≡ sat_sub a (q +ℤ r)) × (pos 0 ≤ℤ sat_sub a q) × (pos 0 ≤ℤ q +ℤ r)
unfolding ◌+ℤ◌ ◌-ℤ◌
sat_sub-sat_sub a q r h k l = (ground arith, ground arith, ground arith)

sat_sub_zero : (a : ℤ) → pos 0 ≤ℤ a → sat_sub a (pos 0) ≡ a
unfolding ◌-ℤ◌
sat_sub_zero a h = ground arith

module _ (api : QuantityApi) where
  open api use {Q, amount, zero_q, sub, cmp, amount-zero, amount-sub, cmp-amount}

  -- What all pods of a store request of a resource.
  pub requested : String → ResourceStore Q → ℤ
  requested name [] = pos 0
  requested name ((key, res) ∷ rs) = elim (lookup name res) [
    | none ↦ requested name rs
    | some q ↦ amount q +ℤ requested name rs
  ]

  abbrev pub NonNegative : ResourceStore Q → Type 0
  NonNegative = All λ e. (name : String) (q : Q) → lookup name e.1 ≡ some q → pos 0 ≤ℤ amount q

  -- One resource against every pod of a store, in the order of the map.
  pub take_all : ResourceStore Q → ResourceInfo Q → ResourceInfo Q
  take_all [] zr = zr
  take_all ((key, res) ∷ rs) zr = take_all rs (take_resource api res zr)

  abbrev pub take_zone_all : ResourceStore Q → Zone Q → Zone Q
  take_zone_all rs z = record z { resources = map (take_all rs) z.resources }

  map_take :
      (rs : ResourceStore Q) (res : ResourceList Q) (key : String) (l : List (ResourceInfo Q))
      → map (take_all rs) (map (take_resource api res) l) ≡ map (take_all ((key, res) ∷ rs)) l
  unfolding take_all
  map_take rs res key [] = refl
  map_take rs res key (x ∷ l) =
      ap (λ r. take_all rs (take_resource api res x) ∷ r) (map_take rs res key l)

  map-take_zone :
      (rs : ResourceStore Q) (res : ResourceList Q) (key : String) (l : List (Zone Q))
      → map (take_zone_all rs) (map (take_zone api res) l) ≡ map (take_zone_all ((key, res) ∷ rs)) l
  map-take_zone rs res key [] = refl
  map-take_zone rs res key (x ∷ l) =
      rw (map_take rs res key x.resources, map-take_zone rs res key l)

  map_take_none : (l : List (ResourceInfo Q)) → map (take_all []) l ≡ l
  unfolding take_all
  map_take_none [] = refl
  map_take_none (x ∷ l) = ap (λ r. x ∷ r) (map_take_none l)

  map-take_zone_none : (l : List (Zone Q)) → map (take_zone_all []) l ≡ l
  map-take_zone_none [] = refl
  map-take_zone_none (x ∷ l) = rw (map_take_none x.resources, map-take_zone_none l)

  update_nrt-zones :
      (rs : ResourceStore Q) (nrt : Nrt Q)
      → update_nrt api rs nrt ≡ record nrt { zones = map (take_zone_all rs) nrt.zones }
  unfolding update_nrt
  update_nrt-zones [] nrt = rw map-take_zone_none
  update_nrt-zones ((key, res) ∷ rs) nrt =
      update_nrt-zones rs (record nrt { zones = map (take_zone api res) nrt.zones })
      ∙ rw (map-take_zone rs res key nrt.zones)

  take_resource-amount :
      (res : ResourceList Q) (zr : ResourceInfo Q)
      → ((take_resource api res zr).name ≡ zr.name)
        × ((q : Q)
            → lookup zr.name res ≡ some q
            → amount (take_resource api res zr).available
              ≡ sat_sub (amount zr.available) (amount q))
        × (lookup zr.name res ≡ none → take_resource api res zr ≡ zr)
  unfolding take_resource
  take_resource-amount res zr = (
    ground arith,
    λ q h. ground (arith, cmp-amount zr.available q, amount-zero, amount-sub zr.available q),
    λ h. rw (h, take_resource),
  )

  requested_nonneg :
      (name : String) (rs : ResourceStore Q) → NonNegative rs → pos 0 ≤ℤ requested name rs
  unfolding requested
  requested_nonneg name [] h = omega arith
  requested_nonneg name ((key, res) ∷ rs) h = elim (Option-cases (lookup name res)) [
    | inl e ↦ rw (e, requested) (requested_nonneg name rs h.1)
    | inr (q, e) ↦
        rw (e, requested)
          (sat_sub-sat_sub (pos 0) (amount q) (requested name rs) (omega arith) (h.0 name q e)
            (requested_nonneg name rs h.1)).2
  ]

  take_all-amount :
      (rs : ResourceStore Q) (zr : ResourceInfo Q)
      → pos 0 ≤ℤ amount zr.available
      → NonNegative rs
      → amount (take_all rs zr).available ≡ sat_sub (amount zr.available) (requested zr.name rs)
  unfolding take_all requested
  take_all-amount [] zr a h = sym (sat_sub_zero (amount zr.available) a)
  take_all-amount ((key, res) ∷ rs) zr a h =
      let (same_name, taken, untouched) = take_resource-amount res zr in
      elim (Option-cases (lookup zr.name res)) [
        | inl e ↦ rw (e, untouched e, take_all, requested) (take_all-amount rs zr a h.1)
        | inr (q, e) ↦
            let (joined, left, sum) =
              sat_sub-sat_sub (amount zr.available) (amount q) (requested zr.name rs) a
                (h.0 zr.name q e) (requested_nonneg zr.name rs h.1) in
            let ih = take_all-amount rs (take_resource api res zr) (rw (taken q e) left) h.1 in
            rw (e, requested) (ih ∙ rw (taken q e, same_name) joined)
      ]

-- Taking the assumed pods off a topology keeps its zones and resource names, and leaves in every
-- zone the available amount less the sum of what all pods request of that resource, or 0 where that
-- is negative: so it is the same for every order of the map. No amount may be negative.
pub update_nrt_lem :
    (api : QuantityApi) (rs : ResourceStore api.Q) (nrt : Nrt api.Q) (zr : ResourceInfo api.Q)
    → NonNegative api rs
    → pos 0 ≤ℤ api.amount zr.available
    → (update_nrt api rs nrt ≡ record nrt { zones = map (take_zone_all api rs) nrt.zones })
      × (api.amount (take_all api rs zr).available
          ≡ sat_sub (api.amount zr.available) (requested api zr.name rs))
update_nrt_lem api rs nrt zr h a = (update_nrt-zones api rs nrt, take_all-amount api rs zr a h)
