-- ===== src/Node/Camera.antt =====
-- internal/node/camera.go: the container that feeds a device's camera, and the HAL's configuration.
use droidpool.Prelude.{
  ℕ, zero, suc, ◌+◌, ◌*◌, List, [], ◌∷◌, ◌++◌, if◌then◌else◌, ltb, is_empty, Text, codes,
}
use droidpool.Prelude.Int.{ℤ, pos, ◌+ℤ◌, same_int}
use droidpool.Adb.{itoa}
use droidpool.Exec.{Exec, pure, raise, ◌>>◌, no_camera}
use droidpool.Pool.Time.{second}
use droidpool.Node.Host.{Host, Node, Log, do_docker, try_docker, sleep}
use droidpool.Node.Names.{container_name, cam_feed_name, camera_device, trailing_number}

abbrev pub cam_max_devices : ℕ
cam_max_devices = 16

abbrev pub ignored_id : ℤ → Text
ignored_id i = codes "<id>" ++ (itoa i ++ codes "</id>")

-- The loop over the `k` numbers from `i` on.
unfoldable pub ignores_from : ℕ → ℤ → ℤ → Text
ignores_from zero i mine = []
ignores_from (suc k) i mine =
    (if same_int i mine then [] else ignored_id i) ++ ignores_from k (i +ℤ pos 1) mine

-- All numbers of the range but the device's own.
unfoldable pub ignores : Node → Text → Text
unfolding ignores_from trailing_number
ignores n id =
    ignores_from (cam_max_devices + 1) n.camera_video_base
      (n.camera_video_base +ℤ pos (trailing_number id))

abbrev newline : Text → Text
newline s = s ++ 10 ∷ []

-- camConfigTmpl
abbrev pub cam_config : Text → Text
cam_config ignored =
    newline (codes "<ExternalCamera>")
    ++ (newline (codes "    <Provider>")
        ++ (newline (codes "        <ignore>" ++ (ignored ++ codes "</ignore>"))
            ++ (newline (codes "    </Provider>")
                ++ (newline (codes "    <Device>")
                    ++ (newline (codes "        <MaxJpegBufferSize bytes=\"3145728\"/>")
                        ++ (newline (codes "        <NumVideoBuffers count=\"4\"/>")
                            ++ (newline (codes "        <NumStillBuffers count=\"2\"/>")
                                ++ (newline (codes "        <FpsList>")
                                    ++ (newline (
                                          codes
                                            "            <Limit width=\"640\" height=\"480\" fpsBound=\"30.0\"/>")
                                        ++ (newline (
                                              codes
                                                "            <Limit width=\"1280\" height=\"720\" fpsBound=\"30.0\"/>")
                                            ++ (newline (codes "        </FpsList>")
                                                ++ (newline (codes "    </Device>")
                                                    ++ codes "</ExternalCamera>"))))))))))))

abbrev pub settle : Node → ℕ
settle n = if ltb 0 n.cam_settle then n.cam_settle else 8 * second

abbrev pub feed_command : Text → Text → Text → List Text
feed_command id dev rtsp =
    codes "run"
    ∷ codes "-d"
    ∷ codes "--name"
    ∷ cam_feed_name id
    ∷ codes "--restart"
    ∷ codes "unless-stopped"
    ∷ codes "--device"
    ∷ dev
    ∷ codes "linuxserver/ffmpeg"
    ∷ codes "-hide_banner"
    ∷ codes "-loglevel"
    ∷ codes "warning"
    ∷ codes "-nostdin"
    ∷ codes "-rtsp_transport"
    ∷ codes "tcp"
    ∷ codes "-re"
    ∷ codes "-i"
    ∷ rtsp
    ∷ codes "-vf"
    ∷ codes "scale=1280:720"
    ∷ codes "-r"
    ∷ codes "15"
    ∷ codes "-c:v"
    ∷ codes "mjpeg"
    ∷ codes "-q:v"
    ∷ codes "5"
    ∷ codes "-f"
    ∷ codes "v4l2"
    ∷ dev
    ∷ []

module _ (h : Host) (n : Node) where
  abbrev config_script : Text → Text
  config_script id =
      newline (codes "cat > /out/" ++ (id ++ codes ".xml <<'DROIDPOOLEOF'"))
      ++ (newline (cam_config (ignores n id)) ++ codes "DROIDPOOLEOF")

  unfoldable pub write_camera_config : Text → Exec Log (Unit {0})
  unfolding ignores
  write_camera_config id =
      if same_int n.camera_video_base (pos 0)
      then pure tt
      else do_docker h (
          codes "run"
          ∷ codes "--rm"
          ∷ codes "-v"
          ∷ (n.data_root ++ codes "/camcfg:/out")
          ∷ codes "busybox:stable"
          ∷ codes "sh"
          ∷ codes "-c"
          ∷ config_script id
          ∷ [])

  unfoldable pub rescan_camera : Text → Exec Log (Unit {0})
  unfolding camera_device
  rescan_camera id = do
    sleep h (settle n)
    do_docker h (
        codes "exec"
        ∷ container_name id
        ∷ codes "sh"
        ∷ codes "-c"
        ∷ (codes "chmod 0666 "
            ++ (camera_device n id ++ codes "; setprop ctl.restart vendor.camera.provider-ext"))
        ∷ [])

  unfoldable pub start_feed : Text → Text → Exec Log (Unit {0})
  unfolding camera_device rescan_camera
  start_feed id rtsp =
      if is_empty (camera_device n id)
      then raise no_camera
      else (do do_docker h (feed_command id (camera_device n id) rtsp); rescan_camera id)

  unfoldable pub set_camera : Text → Text → Exec Log (Unit {0})
  unfolding start_feed
  set_camera id rtsp = do
    try_docker h (codes "rm" ∷ codes "-f" ∷ cam_feed_name id ∷ [])
    if is_empty rtsp then pure tt else start_feed id rtsp

  unfoldable pub remove_cam_feed : Text → Exec Log (Unit {0})
  remove_cam_feed id = try_docker h (codes "rm" ∷ codes "-f" ∷ cam_feed_name id ∷ [])
