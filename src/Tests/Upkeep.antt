-- ===== src/Tests/Upkeep.antt =====
-- The upkeep of the pool of the tests, on a node on which nothing succeeds.
use droidpool.Prelude.{◌≡◌, refl, Bool, false, Text, codes, text_eq}
use droidpool.Prelude.Decimal.{decimal}
use droidpool.Store.Consistency.{IsConsistent}
use droidpool.Manager.World.{World}
use droidpool.Manager.Index.{device_id}
use droidpool.Manager.Rebuild.{reset, ensure, reconcile_store}
use droidpool.Manager.Ensured.{AreUp}
use droidpool.Manager.Upkeep.{upkeep-IsConsistent}
use droidpool.Tests.Data.{now, idle_row, held_row, pool, manager, start}
use droidpool.Tests.Store.{pool-IsConsistent}

abbrev dead : World
dead = record { answers = λ calls. false; clock = λ calls. now }

both-AreUp : AreUp manager 2 1 pool
unfolding device_id text_eq decimal
both-AreUp = ((idle_row, refl, refl), ((held_row, refl, refl), tt))

abbrev none_runs : Text → Bool
none_runs c = false

upkeep-IsConsistent_example :
    (((reset dead manager (codes "n-1") start).1.leases ≡ start.leases)
      × IsConsistent (reset dead manager (codes "n-1") start).1.tables)
    × (((ensure dead manager start).1.leases ≡ start.leases)
        × IsConsistent (ensure dead manager start).1.tables)
    × (((reconcile_store dead manager none_runs start).1.leases ≡ start.leases)
        × IsConsistent (reconcile_store dead manager none_runs start).1.tables)
upkeep-IsConsistent_example =
    upkeep-IsConsistent dead manager (codes "n-1") none_runs start pool-IsConsistent
