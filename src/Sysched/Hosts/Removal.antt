-- ===== src/Sysched/Hosts/Removal.antt =====
-- The removal of a pod from a list of pods, by pkg/sysched/sysched.go.
use plugins_improve.Prelude.{
  ℕ, zero, suc, ◌≤◌, length, Bool, true, false, not, ◌&&◌, ◌||◌, none, some, List, [], ◌∷◌, String,
  str_eq, str_eq_sym, eq_iff, ◌≡◌, refl, arith, if◌then◌else◌,
}
use plugins_improve.Sysched.Profiles.{Pod}
use plugins_improve.Sysched.Hosts.{
  last_of, but_last, set_pod, all_but_last, remove, index_of, has_name,
}

-- No two pods have the same name.
abbrev pub distinct : List Pod → Bool
distinct [] = true
distinct (p ∷ ps) = not (has_name p.name ps) && distinct ps

-- A list has a pod beside those of the other list, up to the order.
abbrev Splits : List Pod → Pod → List Pod → Type 0
Splits ps p rest =
    ((name : String) → has_name name ps ≡ (str_eq p.name name || has_name name rest))
    × (distinct ps ≡ (not (has_name p.name rest) && distinct rest))

Splits-here : (p : Pod) (ps : List Pod) → Splits (p ∷ ps) p ps
unfolding has_name
Splits-here p ps = (λ name. refl, refl)

Splits-later : (p q : Pod) (ps rest : List Pod) → Splits ps q rest → Splits (p ∷ ps) q (p ∷ rest)
unfolding has_name
Splits-later p q ps rest (h, d) =
    (λ name. ground (arith, h name), ground (arith, d, h p.name, str_eq_sym p.name q.name))

Splits-last : (p : Pod) (ps : List Pod) → Splits (p ∷ ps) (last_of p ps) (but_last p ps)
Splits-last p [] = Splits-here p []
Splits-last p (q ∷ qs) = Splits-later p (last_of q qs) (q ∷ qs) (but_last q qs) (Splits-last q qs)

Splits-swap : (p l : Pod) (ps rest : List Pod) → Splits ps l rest → Splits (p ∷ ps) p (l ∷ rest)
unfolding has_name
Splits-swap p l ps rest (h, d) = (λ name. ground (arith, h name), ground (arith, h p.name, d))

-- The pod at an index, the first one in the place of a missing one.
abbrev nth : Pod → List Pod → ℕ → Pod
nth p ps zero = p
nth p [] (suc i) = p
nth p (q ∷ qs) (suc i) = nth q qs i

but_last-set_pod :
    (p q : Pod) (qs : List Pod) (i : ℕ) (l : Pod)
    → but_last p (set_pod (q ∷ qs) i l) ≡ p ∷ all_but_last (set_pod (q ∷ qs) i l)
but_last-set_pod p q qs zero l = refl
but_last-set_pod p q qs (suc i) l = refl

Splits-remove :
    (p : Pod) (ps : List Pod) (i : ℕ)
    → i ≤ length ps
    → Splits (p ∷ ps) (nth p ps i) (remove (p ∷ ps) i)
unfolding remove
Splits-remove p [] zero h = Splits-here p []
Splits-remove p [] (suc i) h = ground (arith, h)
Splits-remove p (q ∷ qs) zero h =
    Splits-swap p (last_of q qs) (q ∷ qs) (but_last q qs) (Splits-last q qs)
Splits-remove p (q ∷ qs) (suc i) h = rw (but_last-set_pod p q qs i (last_of q qs)) (
    Splits-later p (nth q qs i) (q ∷ qs) (remove (q ∷ qs) i)
      (Splits-remove q qs i (omega (arith, h))))

index_of-nth :
    (name : String) (p : Pod) (ps : List Pod) (i : ℕ)
    → index_of name (p ∷ ps) ≡ some i
    → (i ≤ length ps) × (str_eq (nth p ps i).name name ≡ true)
unfolding index_of
index_of-nth name p [] zero h = ground arith
index_of-nth name p [] (suc i) h = ground arith
index_of-nth name p (q ∷ qs) zero h = ground arith
index_of-nth name p (q ∷ qs) (suc i) h = ground (arith, index_of-nth name q qs i)

pub index_of-has_name :
    (name : String) (ps : List Pod) → index_of name ps ≡ none → has_name name ps ≡ false
unfolding index_of has_name
index_of-has_name name [] h = refl
index_of-has_name name (p ∷ ps) h = ground (arith, index_of-has_name name ps)

-- The removal of the pod with a name leaves the other names, each once.
pub remove-names :
    (name : String) (ps : List Pod) (i : ℕ)
    → index_of name ps ≡ some i
    → distinct ps ≡ true
    → (distinct (remove ps i) ≡ true)
      × ((other : String)
          → has_name other (remove ps i) ≡ (if str_eq name other then false else has_name other ps))
unfolding index_of
remove-names name [] i h d = ground (arith, h)
remove-names name (p ∷ ps) i h d =
    let (b, e) = index_of-nth name p ps i h in
    let (f, g) = Splits-remove p ps i b in
    let same : (nth p ps i).name ≡ name = (eq_iff (nth p ps i).name name).0 e in
    (
      ground (arith, g, d),
      λ other. rw (← same) (ground (arith, f other, g, d, eq_iff (nth p ps i).name other)),
    )
