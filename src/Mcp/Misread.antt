-- ===== src/Mcp/Misread.antt =====
-- What `status` of cmd/droidpool-mcp/main.go reads in the list of leases that internal/api sends.
use droidpool.Prelude.{
  ◌≡◌, refl, inl, inr, List, [], ◌∷◌, ◌++◌, Option, none, some, Text, codes, text_eq, is_empty,
  Bool-cases, if◌then◌else◌, find?, map,
}
use droidpool.Pool.Time.{Time}
use droidpool.Pool.Lease.{Lease, EdgeMode, unset, shared, dedicated}
use droidpool.Mcp.{Item, Message, decode, member, same_name, no_such_lease, taken_over, valid}
use droidpool.Mcp.Tools.{told_of}

abbrev pub edge_mode_text : EdgeMode → Text
edge_mode_text unset = []
edge_mode_text shared = codes "shared"
edge_mode_text dedicated = codes "dedicated"

-- The JSON of a lease, by the tags of its fields.
unfoldable pub lease_json : (Time → Text) → Lease → Item
lease_json format l = record {
  strings =
      (codes "id", l.id)
      ∷ (codes "device_id", l.device_id)
      ∷ (codes "owner", l.owner)
      ∷ (codes "host", l.host)
      ∷ (codes "worktree", l.worktree)
      ∷ (codes "branch", l.branch)
      ∷ (codes "head_sha", l.head_sha)
      ∷ (codes "created_at", format l.created_at)
      ∷ (codes "expires_at", format l.expires_at)
      ∷ (codes "last_seen_at", format l.last_seen_at)
      ∷ ((if is_empty l.human_note then [] else (codes "human_note", l.human_note) ∷ [])
          ++ (codes "edge_mode", edge_mode_text l.edge_mode) ∷ []);
  flag = l.human_takeover;
}

-- What is said of the lease that is found: its device, its end and its note are empty.
abbrev pub blank : Option Lease → Message
blank none = no_such_lease
blank (some l) = if l.human_takeover then taken_over [] else valid [] []

decoded :
    (format : Time → Text) (l : Lease)
    → let strings = (lease_json format l).strings in
      (decode (codes "ID") strings ≡ l.id)
      × (decode (codes "DeviceID") strings ≡ [])
      × (decode (codes "ExpiresAt") strings ≡ [])
      × (decode (codes "HumanNote") strings ≡ [])
unfolding decode member same_name text_eq lease_json
decoded format l = elim (Bool-cases (is_empty l.human_note)) [
  | inl silent ↦ rw silent (refl, refl, refl, refl)
  | inr noted ↦ rw noted (refl, refl, refl, refl)
]

-- Whatever leases the server lists, what the status tool tells of a lease has an empty device, an
-- empty end and an empty note: only whether the lease is there and whether a person has taken over
-- is told as it is.
pub told_of-lease_json :
    (format : Time → Text) (id : Text) (ls : List Lease)
    → told_of id (map (lease_json format) ls) ≡ blank (find? (λ l. text_eq l.id id) ls)
unfolding told_of
told_of-lease_json format id [] = refl
told_of-lease_json format id (l ∷ ls) =
    let (named, no_device, no_end, no_note) = decoded format l in
    elim (Bool-cases (text_eq l.id id)) [
      | inl same ↦ rw (named, same, no_device, no_end, no_note) (unfold lease_json in refl)
      | inr apart ↦ rw (named, apart) (told_of-lease_json format id ls)
    ]
