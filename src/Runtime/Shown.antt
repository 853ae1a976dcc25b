-- ===== src/Runtime/Shown.antt =====
-- When the snapshot of server/runtime.py shows a phase.
use smart_traffic_management.Common.{
  &&_parts, Bool, Bool-cases, List, Option, [], any, ap, arith, false, inl, inr, is_empty, is_some,
  none, not, or_default, refl, some, sym, true, ℕ, ◌&&◌, ◌-◌, ◌<◌, ◌∙◌, ◌∷◌, ◌≡◌, ◌⊎◌,
}
use smart_traffic_management.Common.Dict.{Dict, IsDict, get, get-put, put-IsDict}
use smart_traffic_management.Common.Equality.{beq, beq→eq, eq→beq, nat_eq, string_eq}
use smart_traffic_management.Common.Float.{Float}
use smart_traffic_management.Intersection.{all_red, approach_names}
use smart_traffic_management.Runtime.{Context, LaneView, Snapshot, StreamStatus}
use smart_traffic_management.Runtime.Iteration.{
  empty_snapshot, guard_phase, is_among, is_fresh, is_live_status, lane_status, live_names,
  runtime_snapshot, status_of, sum_live, view_lanes, viewed,
}
use smart_traffic_management.Runtime.Processing.{lane_view}
use smart_traffic_management.Sessions.{NodeSession, get_session_by_direction, holds}
use smart_traffic_management.Signal.Types.{LaneId, lane_id_eq_inst}

abbrev status_in : {F : Type 0} → Option (LaneView F) → Option StreamStatus
status_in none = none
status_in (some v) = some v.stream_status

abbrev is_live_option : {F : Type 0} → Option (LaneView F) → Bool
is_live_option none = false
is_live_option (some v) = is_live_status v.stream_status

-- The system runs, a live session holds the direction, and a frame came less than 3 seconds ago.
pub record IsLive {A F : Type 0} (now now_mono : ℕ) (lane : LaneId) (c : Context A F) : Type 0 where
  pub runs : c.server.system_running ≡ true
  pub session :
      (s : NodeSession) × (get_session_by_direction now (some lane) c.server.session_manager
        ≡ some s)
  pub seen_at : (t : ℕ) × (get lane c.frame_updated_at ≡ some t) × (now_mono - t < 3000)

live_status :
    (running has_session fresh has_seen : Bool)
    → is_live_status (status_of (running && has_session && fresh) has_session has_seen) ≡ true
    → (running ≡ true) × (has_session ≡ true) × (fresh ≡ true)
live_status running has_session fresh has_seen h = ground arith

is_some_eq {ℓ} : {A : Type ℓ} (o : Option A) → is_some o ≡ true → (a : A) × (o ≡ some a)
is_some_eq none h = cc
is_some_eq (some a) h = (a, refl)

is_fresh_eq :
    (now_mono : ℕ) (o : Option ℕ)
    → is_fresh now_mono o ≡ true
    → (t : ℕ) × (o ≡ some t) × (now_mono - t < 3000)
is_fresh_eq now_mono none h = cc
is_fresh_eq now_mono (some t) h = (t, refl, ground arith)

module _ {F : Type 0} where
  any-live_names :
      (lane : LaneId) (lanes : Dict LaneId (LaneView F))
      → IsDict lanes
      → any (beq lane) (live_names lanes) ≡ is_live_option (get lane lanes)
  any-live_names lane [] d = refl
  any-live_names lane ((k, v) ∷ lanes) (absent, d) = elim (Bool-cases (beq k lane)) [
    | inl same ↦
        let e : k ≡ lane = beq→eq k lane same in
        let gone : get lane lanes ≡ none = rw e at absent in
        rw same (ground (arith, any-live_names lane lanes d, gone, eq→beq lane k, sym e))
    | inr apart ↦
        rw apart (ground (arith, any-live_names lane lanes d, beq→eq lane k, eq→beq k lane))
  ]

module _ {A F : Type 0} ⦃fl : Float F⦄ (now now_mono : ℕ) (c : Context A F) (lane : LaneId) where
  view_lanes-IsDict :
      (lane_names : List LaneId) (lanes : Dict LaneId (LaneView F))
      → IsDict lanes
      → IsDict (view_lanes now now_mono lane_names c lanes)
  view_lanes-IsDict [] lanes d = d
  view_lanes-IsDict (n ∷ lane_names) lanes d =
      view_lanes-IsDict lane_names _ (put-IsDict n _ lanes d)

  viewed_status :
      (status : StreamStatus) (o : Option (LaneView F)) (n : LaneId)
      → (viewed status o n).stream_status ≡ status
  unfolding lane_view
  viewed_status status none n = refl
  viewed_status status (some v) n = refl

  view_lanes_kept :
      (lane_names : List LaneId) (lanes : Dict LaneId (LaneView F))
      → status_in (get lane lanes) ≡ some (lane_status now now_mono lane c)
      → status_in (get lane (view_lanes now now_mono lane_names c lanes))
        ≡ some (lane_status now now_mono lane c)
  view_lanes_kept [] lanes h = h
  view_lanes_kept (n ∷ lane_names) lanes h =
      view_lanes_kept lane_names _ (elim (Bool-cases (beq n lane)) [
        | inl same ↦
            rw (get-put, same)
              (ap some (viewed_status _ (get n lanes) n)
                ∙ ap (λ k. some (lane_status now now_mono k c)) (beq→eq n lane same))
        | inr apart ↦ rw (get-put, apart) h
      ])

  view_lanes_status :
      (lane_names : List LaneId) (lanes : Dict LaneId (LaneView F))
      → any (beq lane) lane_names ≡ true
      → status_in (get lane (view_lanes now now_mono lane_names c lanes))
        ≡ some (lane_status now now_mono lane c)
  view_lanes_status [] lanes h = cc
  view_lanes_status (n ∷ lane_names) lanes h = elim (Bool-cases (beq lane n)) [
    | inl same ↦
        let e : lane ≡ n = beq→eq lane n same in
        view_lanes_kept lane_names _ (
          rw (get-put, eq→beq n lane (sym e))
            (ap some (viewed_status _ (get n lanes) n)
              ∙ ap (λ k. some (lane_status now now_mono k c)) (sym e)))
    | inr apart ↦ view_lanes_status lane_names _ (rw apart at h)
  ]

  -- A lane that the snapshot lists as live is live.
  live_names-IsLive :
      (lanes : Dict LaneId (LaneView F))
      → IsDict lanes
      → any (beq lane) approach_names ≡ true
      → any (beq lane) (live_names (view_lanes now now_mono approach_names c lanes)) ≡ true
      → IsLive now now_mono lane c
  unfolding lane_status
  live_names-IsLive lanes d known h =
      let lanes' = view_lanes now now_mono approach_names c lanes in
      let found = sym (any-live_names lane lanes' (view_lanes-IsDict approach_names lanes d)) ∙ h in
      let (runs, holds, fresh) =
        live_status c.server.system_running
          (is_some (get_session_by_direction now (some lane) c.server.session_manager))
          (is_fresh now_mono (get lane c.frame_updated_at)) (is_some (get lane c.frame_updated_at))
          (has_live (get lane lanes') (view_lanes_status approach_names lanes known) found) in
      record {
        runs = runs;
        session = is_some_eq _ holds;
        seen_at = is_fresh_eq now_mono (get lane c.frame_updated_at) fresh;
      }
    where
      has_live :
          (o : Option (LaneView F))
          → status_in o ≡ some (lane_status now now_mono lane c)
          → is_live_option o ≡ true
          → is_live_status (lane_status now now_mono lane c) ≡ true
      has_live none e l = cc
      has_live (some v) e l = ground arith

-- The phase is withdrawn: nothing is green.
pub record IsWithdrawn {F : Type 0} (s : Snapshot F) : Type 0 where
  pub no_phase : s.active_phase ≡ none
  pub dark : s.signal_state ≡ all_red
  pub no_green : s.green_duration ≡ 0
  pub no_time : s.time_remaining ≡ 0

module _ {A F : Type 0} ⦃fl : Float F⦄ (now now_mono : ℕ) (c : Context A F) where
  guard_phase_cases :
      (running : Bool) (live_lanes : List LaneId) (s : Snapshot F)
      → IsWithdrawn (guard_phase running live_lanes s)
        ⊎ ((guard_phase running live_lanes s ≡ s) × (is_among s.active_phase live_lanes ≡ true))
  unfolding guard_phase
  guard_phase_cases running live_lanes s = elim (Bool-cases shows) [
    | inl yes_shown ↦ rw yes_shown (
        inr (
          refl,
          (&&_parts (running && not (is_empty live_lanes)) (is_among s.active_phase live_lanes)
              yes_shown).1,
        ))
    | inr not_shown ↦
        rw not_shown
          (inl (record { no_phase = refl; dark = refl; no_green = refl; no_time = refl }))
  ]
    where
      shows : Bool
      shows = running && not (is_empty live_lanes) && is_among s.active_phase live_lanes

  -- The snapshot that was kept is one of the four approaches' as far as it names a phase, and its
  -- lanes stand once each.
  pub record IsKept : Type 0 where
    pub lanes : IsDict (or_default c.latest_snapshot empty_snapshot).lanes
    pub phase :
        (lane : LaneId)
        → (or_default c.latest_snapshot empty_snapshot).active_phase ≡ some lane
        → any (beq lane) approach_names ≡ true

  -- Where the snapshot that was kept has its lanes once each and names no phase but one of the four
  -- approaches': the runtime's snapshot shows no phase, and all red, with no green and no time left;
  -- or it shows the phase of an approach while the system runs, a live session holds the approach,
  -- and a frame of it was published less than three seconds ago.
  pub runtime_snapshot-IsLive :
      IsKept
      → IsWithdrawn (runtime_snapshot now now_mono c)
        ⊎ ((lane : LaneId) × ((runtime_snapshot now now_mono c).active_phase ≡ some lane)
            × IsLive now now_mono lane c)
  unfolding runtime_snapshot
  runtime_snapshot-IsLive kept =
      elim (guard_phase_cases c.server.system_running (live_names lanes) shown) [
        | inl withdrawn_now ↦ inl withdrawn_now
        | inr (same, among) ↦ go base.active_phase refl among same
      ]
    where
      base : Snapshot F
      base = or_default c.latest_snapshot empty_snapshot

      lanes : Dict LaneId (LaneView F)
      lanes = view_lanes now now_mono approach_names c base.lanes

      shown : Snapshot F
      shown = record base {
        lanes = lanes;
        total_vehicles = sum_live LaneView.vehicles lanes;
        queue_length = sum_live LaneView.queue lanes;
        system_running = c.server.system_running;
        pipeline_healthy = c.server.system_running && not (is_empty (live_names lanes));
      }

      result : Snapshot F
      result = guard_phase c.server.system_running (live_names lanes) shown

      go :
          (o : Option LaneId)
          → base.active_phase ≡ o
          → is_among o (live_names lanes) ≡ true
          → result ≡ shown
          → IsWithdrawn result
            ⊎ ((lane : LaneId) × (result.active_phase ≡ some lane) × IsLive now now_mono lane c)
      go none e among same = cc
      go (some lane) e among same = inr (
        lane,
        ap (λ x. Snapshot.active_phase x) same ∙ e,
        live_names-IsLive now now_mono c lane base.lanes kept.lanes (kept.phase lane e) among,
      )
