-- ===== src/Intersection.antt =====
-- ai/pipeline/digital_intersection.py in simulation mode: the signal phases of one intersection, the
-- operations that change them, and the snapshot. Durations and time steps are in milliseconds;
-- `time.time()` is the argument `now`.
pub mod Snapshot
pub mod Invariant
pub mod Stepping
pub mod Phases
pub mod Trace
pub mod Clearance
pub mod Service
use smart_traffic_management.Common.{
  ℕ, zero, suc, ◌+◌, ◌-◌, ◌*◌, ◌≤◌, String, Bool, true, false, not, ◌&&◌, ◌||◌, Option, none, some,
  List, [], ◌∷◌, ◌++◌, ltb, leb, ◌==◌, if◌then◌else◌, or_default, any, all, length, map,
}
use smart_traffic_management.Common.Equality.{beq}
use smart_traffic_management.Common.Dict.{Dict, get, put, contains, values}
use smart_traffic_management.Common.Float.{Float, fl_zero}
use smart_traffic_management.Signal.Types.{
  LaneId, approach, north, south, east, west, PriorityScore, PriorityResult, SignalDecision,
  LaneStatistics, Stats, no_statistics, lane_id_eq_inst,
}
use smart_traffic_management.Signal.Scheduler.{
  Scheduler, new_scheduler, Outcome, value_error, returned, select_eligible, schedule,
}
use smart_traffic_management.Signal.Priority.{calculate, init_weights}

pub data PhaseState : Type 0 where
  green yellow all_red : PhaseState

pub data CameraStatus : Type 0 where
  healthy degraded offline : CameraStatus

pub record Intersection (F : Type 0) : Type 0 where
  pub yellow_sec : ℕ
  pub all_red_sec : ℕ
  pub sim_scheduler : Scheduler
  pub weights : Dict String F
  pub phase_state : PhaseState
  pub active_lane : Option LaneId
  pub remaining : ℕ
  pub cycle_count : ℕ
  pub lanes_served : List LaneId
  pub ai_stalled : Bool
  pub camera_status : Dict LaneId CameraStatus
  pub stats : Stats F
  pub last_priority_scores : Dict LaneId F

-- An entry of `lane_demands`; a missing key is `none`.
pub record Demand (F : Type 0) : Type 0 where
  pub vehicles : Option ℕ
  pub queue : Option ℕ
  pub pce : Option F
  pub has_priority : Option Bool

abbrev pub is_offline : CameraStatus → Bool
is_offline offline = true
is_offline _ = false

abbrev pub is_green : PhaseState → Bool
is_green green = true
is_green _ = false

-- `APPROACH_NAMES`
abbrev pub approach_names : List LaneId
approach_names = approach north ∷ approach east ∷ approach south ∷ approach west ∷ []

-- `all(s == "OFFLINE" for s in sim_camera_status.values())`
unfoldable pub all_cameras_offline : Dict LaneId CameraStatus → Bool
all_cameras_offline cameras = all is_offline (values cameras)

-- The lanes whose camera is not offline.
unfoldable pub active_fresh : Dict LaneId CameraStatus → List LaneId
active_fresh [] = []
active_fresh ((lane, status) ∷ rest) =
    let others = active_fresh rest in if is_offline status then others else lane ∷ others

module _ {F : Type 0} where
  -- ALL_RED with no active lane and no time left.
  unfoldable pub hold : Intersection F → Intersection F
  hold st = record st { phase_state = all_red; active_lane = none; remaining = 0 }

  -- Stalled perception, or no camera left.
  abbrev pub must_hold : Intersection F → Bool
  must_hold st = st.ai_stalled || all_cameras_offline st.camera_status

  unfoldable pub trigger_ai_stall : Bool → Intersection F → Intersection F
  unfolding hold
  trigger_ai_stall true st = hold (record st { ai_stalled = true })
  trigger_ai_stall false st = record st { ai_stalled = false }

  abbrev pub is_active : LaneId → Intersection F → Bool
  is_active lane st = elim (st.active_lane) [ none ↦ false | some l ↦ beq l lane ]

  -- A dropout of the camera of the green lane starts the yellow phase at once.
  unfoldable pub trigger_camera_dropout : LaneId → CameraStatus → Intersection F → Intersection F
  trigger_camera_dropout lane status st =
      let noted = record st { camera_status = put lane status st.camera_status } in
      if not (contains lane st.camera_status)
      then st
      else if is_active lane st && is_green st.phase_state
      then record noted { phase_state = yellow; remaining = st.yellow_sec * 1000 }
      else noted

  -- `for s in priority_res.scores: sim_last_priority_scores[lane] = s.score`
  unfoldable pub note_scores : List (PriorityScore F) → Dict LaneId F → Dict LaneId F
  note_scores [] d = d
  note_scores (s ∷ rest) d = note_scores rest (put s.lane s.score d)

  -- The lanes served in this cycle, and the number of cycles.
  unfoldable pub count_service : LaneId → Intersection F → Intersection F
  count_service winner st =
      let served = st.lanes_served ++ winner ∷ [] in
      if any (beq winner) st.lanes_served || leb 4 (length st.lanes_served)
      then record st { cycle_count = st.cycle_count + 1; lanes_served = winner ∷ [] }
      else if length served == 4
      then record st { cycle_count = st.cycle_count + 1; lanes_served = [] }
      else record st { lanes_served = served }

module _ {F : Type 0} ⦃fl : Float F⦄ where
  -- `__init__`, with the durations in seconds.
  unfoldable pub new_intersection : ℕ → ℕ → ℕ → ℕ → Intersection F
  unfolding init_weights
  new_intersection min_green_sec max_green_sec yellow_sec all_red_sec = record {
    yellow_sec = yellow_sec;
    all_red_sec = all_red_sec;
    sim_scheduler = new_scheduler min_green_sec max_green_sec yellow_sec;
    weights = init_weights none;
    phase_state = all_red;
    active_lane = none;
    remaining = 0;
    cycle_count = 0;
    lanes_served = [];
    ai_stalled = false;
    camera_status = map (λ lane. (lane, healthy)) approach_names;
    stats = map (λ lane. (lane, no_statistics lane)) approach_names;
    last_priority_scores = map (λ lane. (lane, fl_zero)) approach_names;
  }

  abbrev demanded : LaneId → LaneStatistics F → Demand F → LaneStatistics F
  demanded lane old d =
      let raw = or_default d.vehicles old.raw_count in
      record (no_statistics lane) {
        live_count = raw;
        raw_count = raw;
        stopped_count = or_default d.queue old.stopped_count;
        pce_score = or_default d.pce old.pce_score;
        has_priority_vehicle = or_default d.has_priority old.has_priority_vehicle;
      }

  abbrev put_demand : LaneId → Option (LaneStatistics F) → Demand F → Stats F → Stats F
  put_demand lane none d stats = stats
  put_demand lane (some old) d stats = put lane (demanded lane old d) stats

  -- Demands on lanes that have no statistics are ignored.
  unfoldable pub update_stats : Dict LaneId (Demand F) → Stats F → Stats F
  update_stats [] stats = stats
  update_stats ((lane, d) ∷ rest) stats =
      update_stats rest (put_demand lane (get lane stats) d stats)

  -- The winner's green phase; `schedule` does not raise here.
  abbrev pub start_green : LaneId → Outcome (SignalDecision F) → Intersection F → Intersection F
  start_green winner value_error st = st
  start_green winner (returned d) st = count_service winner (record st {
    active_lane = some winner;
    phase_state = green;
    remaining = d.green_duration_sec * 1000;
  })

  abbrev pub grant_winner :
      Option (PriorityScore F) → Outcome (SignalDecision F) → Intersection F → Intersection F
  grant_winner none decision st = hold st
  grant_winner (some winner) decision st = start_green winner.lane decision st

  -- The end of the clearance: the next lane with demand, or ALL_RED.
  unfoldable pub next_green :
      Scheduler × Option (PriorityResult F) → F → Intersection F → Intersection F
  next_green (scheduler, none) now st = hold (record st { sim_scheduler = scheduler })
  next_green (scheduler, some result) now st =
      grant_winner result.highest_priority (schedule scheduler (some result) 1 now)
        (record st { sim_scheduler = scheduler })

  abbrev pub select_lane : PriorityResult F → Intersection F → Scheduler × Option (PriorityResult F)
  select_lane result st =
      select_eligible st.sim_scheduler result st.stats (active_fresh st.camera_status)

  unfoldable pub progress : PhaseState → ℕ → PriorityResult F → F → Intersection F → Intersection F
  progress green dt result now st =
      if leb st.remaining dt
      then record st { phase_state = yellow; remaining = st.yellow_sec * 1000 }
      else record st { remaining = st.remaining - dt }
  progress yellow dt result now st =
      if leb st.remaining dt
      then record st { phase_state = all_red; remaining = st.all_red_sec * 1000 }
      else record st { remaining = st.remaining - dt }
  progress all_red dt result now st =
      if leb st.remaining dt
      then next_green (select_lane result st) now (record st { remaining = 0 })
      else record st { remaining = st.remaining - dt }

  abbrev pub scored : PriorityResult F → Intersection F → Intersection F
  scored result st = record st {
    last_priority_scores = note_scores result.scores st.last_priority_scores;
  }

  -- `step_simulation`, whose result is the snapshot of the state that it leaves.
  unfoldable pub step_simulation : ℕ → Dict LaneId (Demand F) → F → Intersection F → Intersection F
  step_simulation dt demands now st =
      let st' = record st { stats = update_stats demands st.stats } in
      let result = calculate st'.weights st'.stats now in
      if must_hold st' then hold st' else progress st'.phase_state dt result now (scored result st')
