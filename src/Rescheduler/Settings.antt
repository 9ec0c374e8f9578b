-- ===== src/Rescheduler/Settings.antt =====
-- The configuration of pkg/rescheduler/rescheduler.go. The warnings of the validation are only logged. No threshold is NaN, since an argument that is NaN is not
-- above 0 and the old value stays.
pub mod Parsing
pub mod Ranges
use plugins_improve.Prelude.{
  ℤ, pos, Bool, true, false, not, ◌&&◌, ◌||◌, Option, none, some, List, [], ◌∷◌, String, str_eq,
  elem, if◌then◌else◌,
}
use plugins_improve.Floats.{Float64}

module _ (float : Float64) where
  open float use {F, of_int, less}

  pub record ReschedulerConfig : Type 0 where
    pub cpu_threshold : F
    pub memory_threshold : F
    pub excluded_namespaces : List String
    pub enable_scheduling_optimization : Bool
    pub enable_preventive_rescheduling : Bool
    pub cpu_score_weight : F
    pub memory_score_weight : F
    pub load_balance_bonus : F
    pub enable_rescheduling_controller : Bool
    pub rescheduling_interval : String

  pub record ReschedulerArgs : Type 0 where
    pub cpu_threshold : F
    pub memory_threshold : F
    pub excluded_namespaces : List String
    pub enable_scheduling_optimization : Option Bool
    pub enable_preventive_rescheduling : Option Bool
    pub cpu_score_weight : F
    pub memory_score_weight : F
    pub load_balance_bonus : F
    pub enable_rescheduling_controller : Option Bool
    pub rescheduling_interval : String

  abbrev pub given : Option Bool → Bool → Bool
  given none old = old
  given (some b) old = b

  abbrev pub nonempty : List String → List String → List String
  nonempty [] old = old
  nonempty (n ∷ ns) old = n ∷ ns

  -- The threshold or the weight that holds after an argument, or the error of one that is too large.
  unfoldable pub set_limited : F → F → F → Option F
  set_limited limit arg old =
      if less (of_int (pos 0)) arg then if less limit arg then none else some arg else some old

  unfoldable pub validate_config : ReschedulerConfig → Bool
  unfolding elem
  validate_config config =
      if not (less (of_int (pos 0)) config.cpu_threshold)
        || less (of_int (pos 100)) config.cpu_threshold
      then false
      else if not (less (of_int (pos 0)) config.memory_threshold)
          || less (of_int (pos 100)) config.memory_threshold
      then false
      else if less config.cpu_score_weight (of_int (pos 0))
          || less (of_int (pos 1)) config.cpu_score_weight
      then false
      else if less config.memory_score_weight (of_int (pos 0))
          || less (of_int (pos 1)) config.memory_score_weight
      then false
      else not (elem "" config.excluded_namespaces)

  -- The steps write the one configuration, so that what an earlier step wrote stays after an error.
  abbrev pub and_then :
      ReschedulerConfig × Bool
      → (ReschedulerConfig → ReschedulerConfig × Bool)
      → ReschedulerConfig × Bool
  and_then (config, false) f = (config, false)
  and_then (config, true) f = f config

  abbrev pub set_cpu_threshold : ReschedulerArgs → ReschedulerConfig → ReschedulerConfig × Bool
  set_cpu_threshold args config =
      elim (set_limited (of_int (pos 100)) args.cpu_threshold config.cpu_threshold) [
        | none ↦ (config, false)
        | some t ↦ (record config { cpu_threshold = t }, true)
      ]

  abbrev pub set_memory_threshold : ReschedulerArgs → ReschedulerConfig → ReschedulerConfig × Bool
  set_memory_threshold args config =
      elim (set_limited (of_int (pos 100)) args.memory_threshold config.memory_threshold) [
        | none ↦ (config, false)
        | some t ↦ (record config { memory_threshold = t }, true)
      ]

  abbrev pub set_switches : ReschedulerArgs → ReschedulerConfig → ReschedulerConfig × Bool
  set_switches args config = (
    record config {
      excluded_namespaces = nonempty args.excluded_namespaces config.excluded_namespaces;
      enable_scheduling_optimization =
          given args.enable_scheduling_optimization config.enable_scheduling_optimization;
      enable_preventive_rescheduling =
          given args.enable_preventive_rescheduling config.enable_preventive_rescheduling;
    },
    true,
  )

  abbrev pub set_cpu_score_weight : ReschedulerArgs → ReschedulerConfig → ReschedulerConfig × Bool
  set_cpu_score_weight args config =
      elim (set_limited (of_int (pos 1)) args.cpu_score_weight config.cpu_score_weight) [
        | none ↦ (config, false)
        | some w ↦ (record config { cpu_score_weight = w }, true)
      ]

  abbrev pub set_memory_score_weight :
      ReschedulerArgs → ReschedulerConfig → ReschedulerConfig × Bool
  set_memory_score_weight args config =
      elim (set_limited (of_int (pos 1)) args.memory_score_weight config.memory_score_weight) [
        | none ↦ (config, false)
        | some w ↦ (record config { memory_score_weight = w }, true)
      ]

  abbrev pub set_rest : ReschedulerArgs → ReschedulerConfig → ReschedulerConfig × Bool
  set_rest args config = (
    record config {
      load_balance_bonus =
          if less (of_int (pos 0)) args.load_balance_bonus
          then args.load_balance_bonus
          else config.load_balance_bonus;
      enable_rescheduling_controller =
          given args.enable_rescheduling_controller config.enable_rescheduling_controller;
      rescheduling_interval =
          if str_eq args.rescheduling_interval ""
          then config.rescheduling_interval
          else args.rescheduling_interval;
    },
    true,
  )

  abbrev pub set_thresholds : ReschedulerArgs → ReschedulerConfig → ReschedulerConfig × Bool
  set_thresholds args config = and_then (set_cpu_threshold args config) (set_memory_threshold args)

  abbrev pub set_weights : ReschedulerArgs → ReschedulerConfig → ReschedulerConfig × Bool
  set_weights args config =
      and_then (set_cpu_score_weight args config) (set_memory_score_weight args)

  abbrev pub set_limits : ReschedulerArgs → ReschedulerConfig → ReschedulerConfig × Bool
  set_limits args config =
      and_then (and_then (set_thresholds args config) (set_switches args)) (set_weights args)

  abbrev pub set_all : ReschedulerArgs → ReschedulerConfig → ReschedulerConfig × Bool
  set_all args config = and_then (set_limits args config) (set_rest args)

  -- The configuration afterwards, and whether there was no error.
  unfoldable pub apply_plugin_config :
      ReschedulerArgs → ReschedulerConfig → ReschedulerConfig × Bool
  unfolding set_limited validate_config
  apply_plugin_config args config = and_then (set_all args config) (λ c. (c, validate_config c))
