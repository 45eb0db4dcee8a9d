-- ===== src/Daemon/Ports.antt =====
-- The ports on the daemon's own machine that the agents and the live video sessions forward.
use droidpool.Prelude.{ℕ, ◌+◌, ◌^◌, ◌<◌, ◌≡◌, ◌≢◌, ap, inl, inr, Text, some, arith}
use droidpool.Manager.World.{Manager}
use droidpool.Manager.Index.{device_id}
use droidpool.Node.Cameras.{trailing_number-device_id}
use droidpool.Api.Ui.{ui_port_for}
use droidpool.Api.Sessions.{Sessions, acquire_capped}
use droidpool.Api.Sessions.Takeover.{acquired}
use droidpool.Api.Live.{ws_max_devices}
use droidpool.Daemon.Start.{scrcpy_port_base, ui_config}

ui_port_for-device_id :
    (dex : Text) (m : Manager) (i : ℕ)
    → i < 2 ^ 63
    → ui_port_for (ui_config dex) (device_id m i) ≡ 27400 + i
unfolding ui_port_for ui_config
ui_port_for-device_id dex m i small = ap (λ t. 27400 + t) (trailing_number-device_id m i small)

-- On the daemon's machine, the agents of two devices with different numbers below 2^63 forward
-- different ports, and neither is a port that a live video session gets.
pub ports-Apart :
    (dex id : Text) (m : Manager) (i j gen port : ℕ) (h h' : Sessions)
    → i < 2 ^ 63
    → j < 2 ^ 63
    → i ≢ j
    → h.next + 1 < 2 ^ 31
    → acquire_capped id scrcpy_port_base ws_max_devices h ≡ (some (gen, port), h')
    → (ui_port_for (ui_config dex) (device_id m i) ≢ ui_port_for (ui_config dex) (device_id m j))
      × (ui_port_for (ui_config dex) (device_id m i) ≢ port)
ports-Apart dex id m i j gen port h h' si sj ne room e =
    let p = ui_port_for-device_id dex m i si in
    let q = ui_port_for-device_id dex m j sj in
    let range : port < 27264 = elim (acquired id scrcpy_port_base ws_max_devices h room) [
      | inl full ↦ absurd (ground (arith, full, e))
      | inr (olds, taken, _) ↦ ground (arith, taken, e)
    ] in
    (λ same. ne (omega (arith, p, q, same)), λ same. omega (arith, p, same, range))
