-- ===== src/Lib.antt =====
-- A verification of droidpool, a pool of Android devices that agents lease and that people watch and
-- take over.
--
-- The program's parts and how they interact. The store (internal/store) keeps two SQLite tables,
-- devices and leases. The manager (internal/pool/manager.go) creates, wipes and configures the devices
-- through a node driver and keeps their rows up to date; the driver (internal/node) runs docker on the
-- node's host. The daemon (cmd/droidpoold) sets both up from the configuration (internal/config). The
-- reaper (internal/pool/reaper.go) releases leases that ran out and has their devices reset; the
-- health checker (internal/pool/health.go) marks devices that do not answer to adb (internal/adb). The
-- server (internal/api) hands out leases over HTTP and keeps the table of live video sessions;
-- internal/scrcpy talks to the scrcpy server on a device, and internal/uiagent to the agent there that
-- reads views. Agents and people use the server by the client (cmd/droidpool), and agents also by the
-- tools of cmd/droidpool-mcp, one of which runs the client.
--
-- Where each part is, by file of this library:
-- - Pool: internal/pool/model.go. Pool/State is DeviceState and CanTransition, Pool/Identity is
--   Identity with Normalized, Validate and slug, and sameIdentity of internal/pool/manager.go;
--   Pool/Location is ParseLocation and FormatLocation; Pool/Lease is Device, Lease, Expired,
--   ShouldReap and IdempotencyKey; Pool/Watchdog has the theorem on ShouldReap. Pool/Time is
--   time.Time with unix and fromUnix of internal/store/store.go.
-- - Exec: actions on a state that return a value or an error, as the Go functions return one. What
--   such an action has written before an error stays written. Exec/Keeps has the rules for invariants.
-- - Store: internal/store/store.go. Store/Tables has the rows and scanning, Store/Sql the connection
--   and transactions, Store/Devices and Store/Leases one function per method of Store. Store/Rows,
--   Store/Consistency and Store/Keeps carry the proofs; the theorems are in Store/Claim,
--   Store/Release, Store/Upsert, Store/Sql and Store/History.
-- - Manager: internal/pool/manager.go. Manager/World has the driver and the settings, Manager/Index
--   the ids and ports, Manager/Rebuild rebuild, Reset, createOne, Ensure and ReconcileStore,
--   Manager/Settings SetLocation, SetIdentity, SetCamera and SetEgress. Manager/Clean, Manager/Reset,
--   Manager/Renamed, Manager/Ensured and Manager/Upkeep have the theorems, Manager/Keeps what they share.
-- - Reaper and Health: ReapOnce of internal/pool/reaper.go and CheckOnce of internal/pool/health.go,
--   with theorems in Reaper/Round, Reaper/Resetter and Health/Verdicts.
-- - Api: Api/Sessions is h264Sessions of internal/api/h264.go; Api/Leases is handleClaim, handleRenew,
--   handleHeartbeat, handleHuman and handleRelease of internal/api/api.go, with UnderPressure of
--   internal/node/node.go; Api/Settings is handleSetEgress, handleSetCamera, handleSetIdentity
--   and handleSetLocation; Api/Urls is maskURLCredentials, validateRTSP and validateProxy; Api/Hub is
--   Hub of internal/api/events.go. Api/Wall is shotCache, wallSnapshot and what handleStream decides
--   of internal/api/wall.go, and Api/Input is handleInput; Api/Socket is dispatchWSInput and the
--   reading of internal/api/ws.go, and Api/Live the start of handleWS, wsPumpVideo and closeReason.
--   Api/Routes is Routes, auth and servePage, Api/Listings handleListLeases, handleListDevices,
--   handleHealth, and handleEvents and writeSSE of internal/api/events.go; Api/Ui is
--   internal/api/ui.go; Api/Stream is handleH264Stream of internal/api/h264.go and CloseSessions,
--   and Api/Pictures handleStream of internal/api/wall.go.
--   The theorems are in Api/Sessions/Takeover, Api/Answers, Api/Settings/Stored,
--   Api/Masked, Api/Hub/Delivery, Api/Input/Fresh, Api/Socket/Lands, Api/Live/Reasons,
--   Api/Live/Opened, Api/Stream/Left, Api/Pictures/Still, Api/Routes/Guarded and Api/Ui/Kept.
-- - Scrcpy: Scrcpy/Control is internal/scrcpy/control.go, Scrcpy/Stream is handshake, ReadFrame and
--   ReadDeviceMessage of internal/scrcpy/scrcpy.go, Scrcpy/Server its Start, connect, Alive and Close,
--   Scrcpy/Swipe is Swipe, Scrcpy/BigEndian is encoding/binary. The theorems are in Scrcpy/Frames,
--   Scrcpy/Pointer, Scrcpy/Server/Stopped and Scrcpy/Swiped, which Scrcpy/Fingers prepares.
-- - Uiagent: internal/uiagent/uiagent.go, with theorems in Uiagent/Answered and Uiagent/Lines.
-- - Node: internal/node. Node/Host is the Node's settings and the commands it runs, Node/Names the
--   names and the quoting, Node/Containers WaitBoot, Running, Reconcile and WipeData, Node/Props
--   identity.go, Node/Egress egress.go, Node/Camera camera.go, Node/Golden MakeGolden and Health, and
--   Node/Driver Create, Remove and the Node as the manager's driver. The theorems are in Node/Waits,
--   Node/Reconciled, Node/Rebuilt, Node/Quoted, Node/Cameras and Node/Rewritten; Node/Extends is what
--   Node/Rebuilt needs.
-- - Config: internal/config/config.go, with theorems in Config/Valid and Config/Target. Daemon: how
--   cmd/droidpoold/main.go sets a node up, and its reconciliation at the start. Daemon/Start is the
--   start of the pool in run, up to the connections of adb, and what the server is given; the
--   theorems are in Daemon and Daemon/Ports.
-- - Adb: internal/adb/adb.go, with theorems in Adb/Probed and Adb/Typed.
-- - Client: cmd/droidpool/main.go and the names of internal/localstate/localstate.go. Client/Commands
--   has the commands on the lease and Client/Device those on the device; Client/Flags is what package
--   flag does with the arguments, Client/Run is cmdSeedEdge and cmdRun, and Client/Main is main,
--   cmdDevices and cmdUIDump. The theorems are in Client/Released and Client/Powered, and in
--   Client/Served the one on the client's release over the server's handler.
-- - Mcp: cmd/droidpool-mcp/main.go. Mcp has the answers and how their JSON is decoded, Mcp/Tools one
--   function per tool; the theorems are in Mcp/Recorded, Mcp/Misread and Mcp/Rejected.
-- - Certfile: internal/certfile/certfile.go, with theorems in Certfile/Served.
-- - Prelude: tests on numbers, lists, byte strings and decimal numbers. Tests: runs at single values.
--
-- How it is modelled. Strings are lists of bytes, and numbers are natural numbers. A time is the zero
-- time or a number of nanoseconds since 1970; durations are not negative, except where a term has
-- wrapped around in 64 bits, which Api/Leases and Api/Input write out, as Api/Sessions does for the 32
-- bits of the generations. Every statement on the database may fail, as a list of faults says beforehand; a
-- transaction is undone by an error, a failed commit included. SQLite itself, running docker, ssh and
-- adb, the clock, the prober, net.SplitHostPort, archive/tar, os.ExpandEnv, the TOML decoder and floats
-- are not in the repository or are I/O: the statements have the effect that their text says, and the
-- others are functions that the definitions take as arguments, whose answers depend on all that was
-- run before. Of package strings, white space is that of ASCII.
-- http.ServeMux is taken as documented: it redirects a path with empty or dotted segments to the clean
-- one before it looks for a pattern, and answers a path of another method by 405; the decoding of
-- percent signs is a parameter. fmt.Sscanf's %d skips the spaces of Unicode and fails at a newline.
-- The loops of the source are over a list or a number, with three exceptions that run on fuel, one
-- more round than the timeout has pauses: waiting for a boot (pauses of two seconds and one round
-- spare), for the agent (15 s and 200 ms) and for the video socket (15 s and 100 ms). Under a clock
-- that moves on while it sleeps none of them runs out of it (diverged). A read without a deadline of
-- what the other side neither sends nor ends, as the handshake of a video session can be, is
-- diverged as well. The loops of stream handlers
-- and background work, which end only with the program or the connection, are modelled by one turn
-- or by the list of what arrives.
--
-- What is not modelled: the pings and deadlines of the WebSocket, the ticks and the shutdown of
-- background loops and servers, and the SDK's registration of the tools, which are I/O; of the
-- modelled files gitInfo, the certificate's pin and the regular expression of boundsCenter in the
-- client, ScreenshotJPEG, which uses picture libraries, the JSON of the identity column, logging, and
-- what is printed. The product of a distance with a part of the way in Swipe, which is computed in
-- floats, is a parameter.
pub mod Prelude
pub mod Pool
pub mod Exec
pub mod Store
pub mod Manager
pub mod Reaper
pub mod Health
pub mod Api
pub mod Scrcpy
pub mod Node
pub mod Config
pub mod Daemon
pub mod Adb
pub mod Client
pub mod Certfile
pub mod Mcp
pub mod Uiagent
pub mod Tests
