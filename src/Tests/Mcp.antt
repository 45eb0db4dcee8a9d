-- ===== src/Tests/Mcp.antt =====
-- The tools of agents, on one lease.
use droidpool.Prelude.{refl, [], ◌∷◌, none, some, codes, text_eq}
use droidpool.Mcp.Tools.{string, Rec, addr_key, write_adb_addr}
use droidpool.Mcp.Recorded.{Keeps, write_adb_addr-Keeps}

abbrev own : Rec
own = (codes "lease_id", string (codes "L1")) ∷ (addr_key, string (codes "h:1")) ∷ []

write_adb_addr-Keeps_example :
    Keeps none
      (codes "h:1")
      (codes "lease_id")
      (some own)
      (write_adb_addr none (codes "h:1") (some own))
unfolding text_eq
write_adb_addr-Keeps_example =
    write_adb_addr-Keeps none (codes "h:1") (codes "lease_id") (some own) refl
