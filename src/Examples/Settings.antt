-- ===== src/Examples/Settings.antt =====
-- The theorem on the configuration of the rescheduler, with a refused threshold.
use plugins_improve.Prelude.{ℤ, pos, ltb_ℤ, true, false, none, [], ◌∷◌, ◌≡◌, refl, arith}
use plugins_improve.Rescheduler.Settings.{ReschedulerConfig, ReschedulerArgs}
use plugins_improve.Rescheduler.Settings.Parsing.{Decoders, no_args, unknown, configured}
use plugins_improve.Rescheduler.Settings.Ranges.{InRange, configured-InRange}
use plugins_improve.Examples.Rescheduling.{fixed_point}

fixed_point_asym : (a b : ℤ) → ltb_ℤ a b ≡ true → ltb_ℤ b a ≡ false
fixed_point_asym a b h = ground arith

-- The memory threshold of 150 is refused after the cpu threshold of 70 was taken.
abbrev some_args : ReschedulerArgs fixed_point
some_args = record (no_args fixed_point) {
  cpu_threshold = pos 70000;
  memory_threshold = pos 150000;
}

abbrev decoders : Decoders fixed_point
decoders = record {
  json = λ raw args. (some_args, true);
  yaml = λ raw args. (args, false);
  yaml_to_json = λ raw. none;
}

abbrev defaults : ReschedulerConfig fixed_point
defaults = record {
  cpu_threshold = pos 80000;
  memory_threshold = pos 80000;
  excluded_namespaces = "kube-system" ∷ [];
  enable_scheduling_optimization = true;
  enable_preventive_rescheduling = true;
  cpu_score_weight = pos 600;
  memory_score_weight = pos 400;
  load_balance_bonus = pos 10000;
  enable_rescheduling_controller = true;
  rescheduling_interval = "30s";
}

configured-InRange_example :
    InRange fixed_point fixed_point_asym
      (configured fixed_point decoders (unknown "{cpuThreshold: 70}") defaults)
configured-InRange_example =
    configured-InRange fixed_point fixed_point_asym decoders (unknown "{cpuThreshold: 70}") defaults
      ((refl, refl), (refl, refl), (refl, refl), (refl, refl))
