-- ===== src/Store/Sql.antt =====
-- The database connection of internal/store/store.go. SQLite is not in the repository: a statement
-- has the effect that its text says, it is refused if it breaks a constraint of the schema, and it
-- may fail for reasons of its own (a lock, the disk), as the list of faults says beforehand.
use droidpool.Prelude.{◌≡◌, Bool, false, ◌||◌, List, [], ◌∷◌, arith, if◌then◌else◌}
use droidpool.Exec.{Error, database, Result, ok, err, Exec}
use droidpool.Store.Tables.{DeviceRow, LeaseRow}

pub record Tables : Type 0 where
  pub devices : List DeviceRow
  pub leases : List LeaseRow

-- The head of `faults` says whether the next statement fails; the empty list has no more faults.
pub record Db : Type 0 where
  pub tables : Tables
  pub open tables use *
  pub faults : List Bool

abbrev next_fails : List Bool → Bool
next_fails [] = false
next_fails (f ∷ fs) = f

abbrev later : List Bool → List Bool
later [] = []
later (f ∷ fs) = fs

unfoldable pub fails : Db → Bool
fails db = next_fails db.faults

unfoldable pub later_faults : Db → List Bool
later_faults db = later db.faults

abbrev pub spent : Db → Db
spent db = record db { faults = later_faults db }

-- SELECT
abbrev pub query : {A : Type 0} → (Tables → A) → Exec Db A
query f db = if fails db then (err database, spent db) else (ok (f db.tables), spent db)

-- UPDATE
abbrev pub exec : (Tables → Tables) → Exec Db (Unit {0})
exec f db =
    if fails db
    then (err database, spent db)
    else (ok tt, record (spent db) { tables = f db.tables })

-- INSERT, which a constraint may refuse.
abbrev pub exec_checked : (Tables → Bool) → (Tables → Tables) → Exec Db (Unit {0})
exec_checked refused f db =
    if fails db || refused db.tables
    then (err database, spent db)
    else (ok tt, record (spent db) { tables = f db.tables })

-- `tx.Commit()`, and the deferred `tx.Rollback()` on every other way out.
abbrev pub finish : {A : Type 0} → Tables → Result A × Db → Result A × Db
finish before (ok a, db) =
    if fails db then (err database, record (spent db) { tables = before }) else (ok a, spent db)
finish before (err e, db) = (err e, record db { tables = before })

-- `s.db.Begin()`, the statements, and the end of the transaction.
abbrev pub transaction : {A : Type 0} → Exec Db A → Exec Db A
transaction m db = if fails db then (err database, spent db) else finish db.tables (m (spent db))

-- A database over these tables in which no statement fails for a reason of its own.
abbrev pub healthy : Tables → Db
healthy t = record { tables = t; faults = [] }

-- A transaction that ends in an error has changed no row, whatever its statements were.
pub transaction-rolls_back :
    {A : Type 0} (m : Exec Db A) (db db' : Db) (e : Error)
    → transaction m db ≡ (err e, db')
    → db'.tables ≡ db.tables
transaction-rolls_back m db db' e h = ground arith
