-- ===== src/Store/Tables.antt =====
-- internal/store/store.go: the two tables of the schema as lists of rows, and what scanning a row
-- gives. A row's identity column holds the identity itself and not its JSON.
use droidpool.Prelude.{
  ℕ, Bool, not, ◌&&◌, List, [], ◌∷◌, Option, ◌==◌, if◌then◌else◌, Text, text_eq, text_le, leb,
}
use droidpool.Pool.State.{DeviceState}
use droidpool.Pool.Time.{unix, from_unix}
use droidpool.Pool.Identity.{Identity}
use droidpool.Pool.Lease.{Device, Lease, EdgeMode}

pub record DeviceRow : Type 0 where
  pub id : Text
  pub node : Text
  pub container : Text
  pub adb_addr : Text
  pub state : DeviceState
  pub created_at : ℕ
  pub last_health_at : ℕ
  pub health_fails : ℕ
  pub egress_proxy : Text
  pub camera_rtsp : Text
  pub identity : Option Identity
  pub mock_location : Text

pub record LeaseRow : Type 0 where
  pub id : Text
  pub device_id : Text
  pub owner : Text
  pub host : Text
  pub worktree : Text
  pub branch : Text
  pub head_sha : Text
  pub created_at : ℕ
  pub expires_at : ℕ
  pub human_takeover : ℕ
  pub human_note : Text
  pub edge_mode : EdgeMode
  pub released_at : ℕ
  pub last_seen_at : ℕ

unfoldable pub scan_device : DeviceRow → Device
scan_device r = record {
  id = r.id;
  node = r.node;
  container = r.container;
  adb_addr = r.adb_addr;
  state = r.state;
  created_at = from_unix r.created_at;
  last_healthy = from_unix r.last_health_at;
  health_fails = r.health_fails;
  egress_proxy = r.egress_proxy;
  camera_rtsp = r.camera_rtsp;
  identity = r.identity;
  mock_location = r.mock_location;
}

unfoldable pub scan_lease : LeaseRow → Lease
scan_lease r = record {
  id = r.id;
  device_id = r.device_id;
  owner = r.owner;
  host = r.host;
  worktree = r.worktree;
  branch = r.branch;
  head_sha = r.head_sha;
  created_at = from_unix r.created_at;
  expires_at = from_unix r.expires_at;
  last_seen_at = from_unix r.last_seen_at;
  human_takeover = not (r.human_takeover == 0);
  human_note = r.human_note;
  edge_mode = r.edge_mode;
}

-- The values of `INSERT INTO devices`.
unfoldable pub device_row : Device → DeviceRow
device_row d = record {
  id = d.id;
  node = d.node;
  container = d.container;
  adb_addr = d.adb_addr;
  state = d.state;
  created_at = unix d.created_at;
  last_health_at = unix d.last_healthy;
  health_fails = d.health_fails;
  egress_proxy = d.egress_proxy;
  camera_rtsp = d.camera_rtsp;
  identity = d.identity;
  mock_location = d.mock_location;
}

-- WHERE released_at = 0
abbrev pub is_active : LeaseRow → Bool
is_active r = r.released_at == 0

abbrev pub has_device : Text → DeviceRow → Bool
has_device id r = text_eq r.id id

abbrev pub has_lease : Text → LeaseRow → Bool
has_lease id r = text_eq r.id id && is_active r

abbrev pub holds : Text → LeaseRow → Bool
holds device_id r = text_eq r.device_id device_id && is_active r

abbrev pub is_for : Text → Text → LeaseRow → Bool
is_for host worktree r = text_eq r.host host && text_eq r.worktree worktree && is_active r

-- UPDATE … SET … WHERE …
unfoldable pub update_where {ℓ} : {A : Type ℓ} → (A → Bool) → (A → A) → List A → List A
update_where p f [] = []
update_where p f (r ∷ rows) = (if p r then f r else r) ∷ update_where p f rows

-- ORDER BY: an insertion into rows that are in order, and the sort that is made of it.
unfoldable pub insert_by {ℓ} : {A : Type ℓ} → (A → A → Bool) → A → List A → List A
insert_by le r [] = r ∷ []
insert_by le r (x ∷ xs) = if le r x then r ∷ x ∷ xs else x ∷ insert_by le r xs

unfoldable pub order_by {ℓ} : {A : Type ℓ} → (A → A → Bool) → List A → List A
unfolding insert_by
order_by le [] = []
order_by le (x ∷ xs) = insert_by le x (order_by le xs)

abbrev pub by_id : DeviceRow → DeviceRow → Bool
by_id a b = text_le a.id b.id

abbrev pub by_created_at : LeaseRow → LeaseRow → Bool
by_created_at a b = leb a.created_at b.created_at
