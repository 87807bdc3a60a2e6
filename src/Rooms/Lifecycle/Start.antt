-- ===== src/Rooms/Lifecycle/Start.antt =====
-- `roomsLifecycle` up to its first cycle: the key, the operator, and the stored stage.
use pongit.Common.{ℕ, false, not, if◌then◌else◌, List, [], Option, none, some, Text}
use pongit.Rooms.Availability.{same_app}
use pongit.Rooms.Lifecycle.{Stage, playing, Job, EngineJob, State}

-- The row of `il_lifecycle`, where the app has one.
pub record Stored : Type 0 where
  pub stage : Stage
  pub changed_at : ℕ
  pub epoch : ℕ

abbrev pub stored_or_playing : ℕ → Option Stored → Stored
stored_or_playing now_ms (some row) = row
stored_or_playing now_ms none = record { stage = playing; changed_at = now_ms; epoch = 0 }

-- What `roomsLifecycle` comes to: no key, a key of another account than the operator's, or a state.
pub data Started : Type 0 where
  disabled refused : Started
  running : State → Started

unfoldable pub rooms_lifecycle :
    Option Text → Text → ℕ → Option Stored → List Job → List EngineJob → Started
unfolding same_app
rooms_lifecycle none operator now_ms row jobs engine_jobs = disabled
rooms_lifecycle (some account) operator now_ms row jobs engine_jobs =
    let kept = stored_or_playing now_ms row in
    if not (same_app operator account)
    then refused
    else running (record {
      stage = kept.stage;
      changed_at = kept.changed_at;
      epoch = kept.epoch;
      jobs = jobs;
      engine_jobs = engine_jobs;
      working = false;
      healthy = false;
      error = none;
      session = record { epoch = 0; expires_at = 0; release_at = 0; batch = 0 };
      log = [];
    })
