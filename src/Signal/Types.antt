-- ===== src/Signal/Types.antt =====
-- ai/signal/signal_types.py, ai/signal/signal_decision.py and the record of one lane's statistics of
-- ai/analytics/analytics_exporter.py. A lane identifier stands for its text up to case, since the
-- code folds case by `lower()` and `capitalize()` wherever it compares lanes.
use smart_traffic_management.Common.{
  ℕ, String, ◌≡◌, ◌↔◌, Bool, true, false, Option, List, arith, ◌||◌, if◌then◌else◌,
}
use smart_traffic_management.Common.Equality.{Eq, beq, beq→eq, eq→beq, string_eq}
use smart_traffic_management.Common.Float.{Float, fl_zero}
use smart_traffic_management.Common.Dict.{Dict}

-- `LaneName`
pub data Lane : Type 0 where
  north south east west : Lane

-- A member of `LaneName`, or the text of another lane.
pub data LaneId : Type 0 where
  approach : Lane → LaneId
  other : String → LaneId

pub data DecisionReason : Type 0 where
  normal emergency starvation manual_override : DecisionReason

pub data Density : Type 0 where
  low medium high congested : Density

pub record PriorityBreakdown (F : Type 0) : Type 0 where
  pub pce : F
  pub queue : F
  pub congestion : F
  pub fairness_bonus : F
  pub raw_pce : F
  pub raw_queue_sec : F
  pub raw_congestion_index : F

pub record PriorityScore (F : Type 0) : Type 0 where
  pub lane : LaneId
  pub score : F
  pub rank : ℕ
  pub breakdown : PriorityBreakdown F

pub record PriorityResult (F : Type 0) : Type 0 where
  pub scores : List (PriorityScore F)
  pub highest_priority : Option (PriorityScore F)
  pub timestamp : F

pub record SignalDecision (F : Type 0) : Type 0 where
  pub phase_id : ℕ
  pub green_lane : LaneId
  pub green_duration_sec : ℕ
  pub yellow_duration_sec : ℕ
  pub red_lanes : List LaneId
  pub priority_score : F
  pub reason : DecisionReason
  pub timestamp : F

pub record HardwareCommand (F : Type 0) : Type 0 where
  pub phase_id : ℕ
  pub green_lane : LaneId
  pub green_duration_sec : ℕ
  pub yellow_duration_sec : ℕ
  pub red_lanes : List LaneId
  pub priority_score : F
  pub reason : DecisionReason
  pub timestamp : F

pub record LaneStatistics (F : Type 0) : Type 0 where
  pub lane_name : LaneId
  pub live_count : ℕ
  pub pce_score : F
  pub stopped_count : ℕ
  pub total_queue_time_sec : F
  pub max_queue_time_sec : F
  pub avg_motion_px_sec : F
  pub congestion_index : F
  pub density : Density
  pub historical_count : ℕ
  pub has_priority_vehicle : Bool
  pub vehicle_breakdown : Dict String ℕ
  pub raw_count : ℕ
  pub smoothed_count : F

-- `Dict[str, LaneStatistics]`
abbrev pub Stats : Type 0 → Type 0
Stats F = Dict LaneId (LaneStatistics F)

abbrev pub lane_eq : Lane → Lane → Bool
lane_eq north north = true
lane_eq south south = true
lane_eq east east = true
lane_eq west west = true
lane_eq _ _ = false

abbrev pub lane_id_eq : LaneId → LaneId → Bool
lane_id_eq (approach a) (approach b) = lane_eq a b
lane_id_eq (other s) (other t) = beq s t
lane_id_eq _ _ = false

pub lane_eq_iff : (a b : Lane) → (lane_eq a b ≡ true) ↔ (a ≡ b)
lane_eq_iff a b = ground arith

pub lane_id_eq_iff : (a b : LaneId) → (lane_id_eq a b ≡ true) ↔ (a ≡ b)
lane_id_eq_iff (approach a) (approach b) = ground (arith, lane_eq_iff a b)
lane_id_eq_iff (other s) (other t) = ground (arith, beq→eq s t, eq→beq s t)
lane_id_eq_iff (approach a) (other t) = ground arith
lane_id_eq_iff (other s) (approach b) = ground arith

instance abbrev pub lane_eq_inst : Eq Lane
lane_eq_inst = record { beq = lane_eq; beq_iff = lane_eq_iff }

instance abbrev pub lane_id_eq_inst : Eq LaneId
lane_id_eq_inst = record { beq = lane_id_eq; beq_iff = lane_id_eq_iff }

-- `LaneStatistics(lane_name=lane)`: every other field at its default.
abbrev pub no_statistics : {F : Type 0} ⦃fl : Float F⦄ → LaneId → LaneStatistics F
no_statistics lane = record {
  lane_name = lane;
  live_count = 0;
  pce_score = fl_zero;
  stopped_count = 0;
  total_queue_time_sec = fl_zero;
  max_queue_time_sec = fl_zero;
  avg_motion_px_sec = fl_zero;
  congestion_index = fl_zero;
  density = low;
  historical_count = 0;
  has_priority_vehicle = false;
  vehicle_breakdown = List.[];
  raw_count = 0;
  smoothed_count = fl_zero;
}

-- `t or now`: a timestamp of 0.0 counts as missing.
abbrev pub or_now : {F : Type 0} ⦃fl : Float F⦄ → F → F → F
or_now ⦃fl⦄ t now = if fl.lt fl_zero t || fl.lt t fl_zero then t else now
