-- ===== src/Pipeline/Release.antt =====
-- When a step of ai/pipeline/traffic_pipeline.py may end a phase: the early release of an empty lane
-- shortens the green, and the clearance still runs.
use mathlib.Core.Path.{subst}
use smart_traffic_management.Common.{
  &&_parts, Bool-cases, Option, arith, inl, inr, leb, ltb, ltb→lt, none, refl, some, sym, true, ℕ,
  ◌&&◌, ◌*◌, ◌-◌, ◌<◌, ◌≡◌, ◌≤◌, ◌⊎◌,
}
use smart_traffic_management.Common.Dict.{Dict, contains, get}
use smart_traffic_management.Common.Float.{Float}
use smart_traffic_management.Pipeline.{Payload, Pipeline, empty_lane_release_ms}
use smart_traffic_management.Pipeline.Decide.{
  floor_seconds, has_emergency, is_empty_lane, is_no_emergency, must_change, phase_elapsed,
  phase_ms, release_active, release_after, release_empty,
}
use smart_traffic_management.Signal.Types.{LaneId, SignalDecision, Stats, lane_id_eq_inst}

module _ {F : Type 0} ⦃fl : Float F⦄ where
  -- A decision that a step keeps: as it was, or with its green cut to the seconds that have passed.
  abbrev pub IsKept : ℕ → SignalDecision F → SignalDecision F → Type 0
  IsKept elapsed d d' =
      (d' ≡ d)
      ⊎ ((d' ≡ record d { green_duration_sec = floor_seconds elapsed })
          × (elapsed < d.green_duration_sec * 1000))

  -- A state in which a decision runs on.
  pub record RunsOn (now : ℕ) (p q : Pipeline F) (d : SignalDecision F) : Type 0 where
    pub decision : SignalDecision F
    pub active : q.active_decision ≡ some decision
    pub kept : IsKept (phase_elapsed now p) d decision
    pub start : q.phase_start_time ≡ p.phase_start_time
    pub command : q.active_hardware_cmd ≡ p.active_hardware_cmd
    pub counter : q.phase_counter ≡ p.phase_counter
    pub scheduler : q.signal_scheduler ≡ p.signal_scheduler

  runs_on :
      (now : ℕ) (p : Pipeline F) (d : SignalDecision F) (since : Option ℕ)
      → p.active_decision ≡ some d
      → RunsOn now p (record p { active_empty_since = since }) d
  runs_on now p d since a = record {
    decision = d;
    active = a;
    kept = inl refl;
    start = refl;
    command = refl;
    counter = refl;
    scheduler = refl;
  }

  release_after-RunsOn :
      (now : ℕ) (d : SignalDecision F) (o : Option ℕ) (p : Pipeline F)
      → p.active_decision ≡ some d
      → RunsOn now p (release_after now (phase_elapsed now p) d o p) d
  release_after-RunsOn now d none p a = runs_on now p d (some now) a
  release_after-RunsOn now d (some since) p a =
      elim (Bool-cases (
        leb empty_lane_release_ms (now - since)
        && ltb (phase_elapsed now p) (d.green_duration_sec * 1000))) [
          | inl cuts ↦ rw cuts (record {
            decision = record d { green_duration_sec = floor_seconds (phase_elapsed now p) };
            active = refl;
            kept = inr (refl, ltb→lt _ _ (&&_parts _ _ cuts).1);
            start = refl;
            command = refl;
            counter = refl;
            scheduler = refl;
          })
          | inr uncut ↦ rw uncut (runs_on now p d p.active_empty_since a)
        ]

  pub release_active-RunsOn :
      (now : ℕ) (frames : Dict LaneId (Payload F)) (lane_stats : Stats F) (p : Pipeline F)
      (d : SignalDecision F)
      → p.active_decision ≡ some d
      → RunsOn now p (release_active now frames lane_stats (some d) p) d
  release_active-RunsOn now frames lane_stats p d a =
      elim (Bool-cases (contains d.green_lane frames)) [
        | inr absent ↦ rw absent (runs_on now p d p.active_empty_since a)
        | inl there ↦ elim (Bool-cases (is_empty_lane (get d.green_lane lane_stats))) [
          | inl vacant ↦ rw (there, vacant) (release_after-RunsOn now d p.active_empty_since p a)
          | inr busy ↦ rw (there, busy) (runs_on now p d none a)
        ]
      ]

  pub release_empty-RunsOn :
      (now : ℕ) (frames : Dict LaneId (Payload F)) (lane_stats : Stats F) (p : Pipeline F)
      (d : SignalDecision F)
      → p.active_decision ≡ some d
      → RunsOn now p (release_empty now frames lane_stats p) d
  unfolding release_empty
  release_empty-RunsOn now frames lane_stats p d a =
      subst (λ o. RunsOn now p (release_active now frames lane_stats o p) d) (sym a)
        (release_active-RunsOn now frames lane_stats p d a)

  -- A green that is cut now has its yellow and all-red time still to come.
  kept_not_over :
      (elapsed : ℕ) (d d' : SignalDecision F)
      → IsKept elapsed d d'
      → leb (phase_ms d') elapsed ≡ true
      → phase_ms d ≤ elapsed
  kept_not_over elapsed d d' (inl same) over = let late = rw same at over in ground (arith, late)
  kept_not_over elapsed d d' (inr (cut, short)) over =
      let late = rw cut at over in absurd (ground (arith, late))

  -- Where a decision runs on that must change, its time was over before, or there is an alarm.
  pub must_change-RunsOn :
      (now : ℕ) (lane_stats : Stats F) (p q : Pipeline F) (d : SignalDecision F)
      → RunsOn now p q d
      → must_change now lane_stats q ≡ true
      → (phase_ms d ≤ phase_elapsed now p)
        ⊎ ((has_emergency lane_stats ≡ true) × (is_no_emergency d.reason ≡ true))
  unfolding must_change phase_elapsed
  must_change-RunsOn now lane_stats p q d runs must =
      elim (Bool-cases (leb (phase_ms runs.decision) (phase_elapsed now p))) [
        | inl over ↦ inl (kept_not_over (phase_elapsed now p) d runs.decision runs.kept over)
        | inr running ↦
            let (alarm, calm) =
              &&_parts (has_emergency lane_stats) (is_no_emergency runs.decision.reason)
                (rw (runs.active, runs.start, running) at must) in
            inr (
              alarm,
              elim runs.kept [ inl same ↦ rw (← same) calm | inr (cut, short) ↦ rw cut at calm ],
            )
      ]
