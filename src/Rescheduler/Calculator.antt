-- ===== src/Rescheduler/Calculator.antt =====
-- The resource calculator of pkg/rescheduler/rescheduler.go. The arithmetic of float64 is an interface:
-- what is proved of the plugin holds for every rounding.
pub use plugins_improve.Floats.{Float64}
use plugins_improve.Prelude.{
  ℤ, pos, Bool, ◌&&◌, ◌||◌, List, [], ◌∷◌, String, add64, ltb_ℤ, if◌then◌else◌,
}

-- What the plugin reads of a pod. A container is the milli value of its cpu request and the value of
-- its memory request; a priority that is nil is 0.
pub record Pod : Type 0 where
  pub namespace : String
  pub name : String
  pub node_name : String
  pub running : Bool
  pub priority : ℤ
  pub owner_kinds : List String
  pub annotations : List (String × String)
  pub containers : List (ℤ × ℤ)

pub record Node : Type 0 where
  pub name : String
  pub unschedulable : Bool
  pub labels : List (String × String)
  pub cpu_capacity : ℤ
  pub memory_capacity : ℤ

pub record ResourceRequests : Type 0 where
  pub cpu : ℤ
  pub memory : ℤ

abbrev pub add_requests : ResourceRequests → ResourceRequests → ResourceRequests
add_requests a b = record { cpu = add64 a.cpu b.cpu; memory = add64 a.memory b.memory }

abbrev pub no_requests : ResourceRequests
no_requests = record { cpu = pos 0; memory = pos 0 }

add_containers : List (ℤ × ℤ) → ResourceRequests → ResourceRequests
add_containers [] r = r
add_containers (c ∷ cs) r = add_containers cs (add_requests r (record { cpu = c.0; memory = c.1 }))

unfoldable pub calculate_pod_resource_requests : Pod → ResourceRequests
unfolding add_containers
calculate_pod_resource_requests pod = add_containers pod.containers no_requests

module _ (float : Float64) where
  open float use {F, of_int, add, sub, mul, div, less}

  pub record ResourceUsagePercent : Type 0 where
    pub cpu : F
    pub memory : F

  pub record Config : Type 0 where
    pub cpu_threshold : F
    pub memory_threshold : F
    pub cpu_score_weight : F
    pub memory_score_weight : F
    pub load_balance_bonus : F
    pub excluded_namespaces : List String
    pub enable_scheduling_optimization : Bool

  abbrev pub percent : ℤ → ℤ → F
  percent requests capacity =
      if ltb_ℤ (pos 0) capacity
      then mul (div (of_int requests) (of_int capacity)) (of_int (pos 100))
      else of_int (pos 0)

  abbrev pub measured : ℤ → ℤ → F
  measured usage capacity =
      if ltb_ℤ (pos 0) capacity || ltb_ℤ capacity (pos 0)
      then mul (div (of_int usage) (of_int capacity)) (of_int (pos 100))
      else of_int (pos 0)

  unfoldable pub calculate_usage_percent : ResourceRequests → Node → ResourceUsagePercent
  calculate_usage_percent requests node = record {
    cpu = percent requests.cpu node.cpu_capacity;
    memory = percent requests.memory node.memory_capacity;
  }

  -- The amounts are the milli values of the processor and the values of the memory; a quantity is 0
  -- where its amount is 0.
  unfoldable pub calculate_usage_from_metrics : (usage capacity : ℤ × ℤ) → ResourceUsagePercent
  calculate_usage_from_metrics usage capacity = record {
    cpu = measured usage.0 capacity.0;
    memory = measured usage.1 capacity.1;
  }

  unfoldable pub calculate_score : Config → ResourceUsagePercent → F
  calculate_score config usage =
      let total =
        add (mul (sub (of_int (pos 100)) usage.cpu) config.cpu_score_weight)
          (mul (sub (of_int (pos 100)) usage.memory) config.memory_score_weight) in
      if less usage.cpu (of_int (pos 30)) && less usage.memory (of_int (pos 30))
      then add total config.load_balance_bonus
      else total

  unfoldable pub is_overloaded : Config → ResourceUsagePercent → Bool
  is_overloaded config usage =
      less config.cpu_threshold usage.cpu || less config.memory_threshold usage.memory
