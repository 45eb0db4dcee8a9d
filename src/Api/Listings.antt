-- ===== src/Api/Listings.antt =====
-- internal/api: the lists of leases and devices, the health of the pool, and the stream of events of
-- internal/api/events.go. The JSON of an event is a parameter, and whether writing succeeds is not
-- looked moment, as in the source.
use droidpool.Prelude.{
  ℕ, ◌+◌, Bool, List, [], ◌∷◌, ◌++◌, Option, none, some, if◌then◌else◌, Text, codes,
}
use droidpool.Exec.{Result, ok, err, pure, ◌>>=◌}
use droidpool.Pool.Time.{Time}
use droidpool.Pool.State.{DeviceState, state_eq}
use droidpool.Pool.Lease.{Device, Lease}
use droidpool.Store.Sql.{Db}
use droidpool.Store.Devices.{list_devices}
use droidpool.Store.Leases.{list_leases}
use droidpool.Api.Leases.{is_under_pressure}
use droidpool.Api.Wall.{Snapshot}

abbrev answered : {A : Type 0} → Result A × Db → (ℕ × Option A) × Db
answered (ok a, db) = ((200, some a), db)
answered (err e, db) = ((500, none), db)

unfoldable pub handle_list_leases : Db → (ℕ × Option (List Lease)) × Db
unfolding list_leases
handle_list_leases db = answered (list_leases db)

unfoldable pub handle_list_devices : Db → (ℕ × Option (List Device)) × Db
unfolding list_devices
handle_list_devices db = answered (list_devices db)

-- How many devices are in the state.
unfoldable pub count_state : DeviceState → List Device → ℕ
count_state s [] = 0
count_state s (d ∷ ds) =
    let rest = count_state s ds in if state_eq d.state s then rest + 1 else rest

-- The count of each state, and the node's available memory with the verdict on it.
pub record HealthReport : Type 0 where
  pub counts : DeviceState → ℕ
  pub node : Option (ℕ × Bool)

abbrev verdict : Option ℕ → ℕ → Option (ℕ × Bool)
verdict none min_avail = none
verdict (some mem) min_avail = some (mem, is_under_pressure mem min_avail)

abbrev report : Option ℕ → ℕ → List Device → HealthReport
report health min_avail ds = record {
  counts = λ s. count_state s ds;
  node = verdict health min_avail;
}

unfoldable pub handle_health : Option ℕ → ℕ → Db → (ℕ × Option HealthReport) × Db
unfolding list_devices count_state is_under_pressure
handle_health health min_avail db =
    answered ((do ds ← list_devices; pure (report health min_avail ds)) db)

-- What the loop of the stream waits for: the request ends, an event of this kind and time comes, the
-- channel is closed, or the tick.
pub data Signal : Type 0 where
  ended closed : Signal
  event : Text → Time → Signal
  tick : Time → Signal

module _ (snapshot : Db → Option Snapshot × Db)
    (marshal : Text → Option Snapshot → Time → Option Text) where
  abbrev framed : Text → Option Text → Text
  framed kind none = []
  framed kind (some b) = codes "event: " ++ (kind ++ (10 ∷ (codes "data: " ++ (b ++ 10 ∷ 10 ∷ []))))

  unfoldable pub write_sse : Text → Option Snapshot → Time → Text
  write_sse kind snap moment = framed kind (marshal kind snap moment)

  abbrev with_snapshot : Text → Time → Option Snapshot × Db → Text × Db
  with_snapshot kind moment (snap, db) = (write_sse kind snap moment, db)

  -- The data of an event is replaced by the whole state, whatever it was.
  unfoldable pub send_state : Text → Time → Db → Text × Db
  unfolding write_sse
  send_state kind moment db = with_snapshot kind moment (snapshot db)

  -- What is sent for the signals, the first one first, up to the end.
  unfoldable pub stream_events : List Signal → Text → Db → Text × Db
  unfolding send_state
  stream_events [] sent db = (sent, db)
  stream_events (ended ∷ ss) sent db = (sent, db)
  stream_events (closed ∷ ss) sent db = (sent, db)
  stream_events (event kind moment ∷ ss) sent db =
      let (frame, db') = send_state kind moment db in stream_events ss (sent ++ frame) db'
  stream_events (tick moment ∷ ss) sent db =
      let (frame, db') = send_state (codes "tick") moment db in stream_events ss (sent ++ frame) db'

  unfoldable pub handle_events : Time → List Signal → Db → Text × Db
  unfolding stream_events send_state
  handle_events start ss db =
      let (first, db') = send_state (codes "snapshot") start db in stream_events ss first db'
