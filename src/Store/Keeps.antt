-- ===== src/Store/Keeps.antt =====
-- Invariants of the tables: one rule for each kind of statement, and for a transaction.
use droidpool.Prelude.{◌≡◌, inl, inr, Bool, false, Text, Bool-cases}
use droidpool.Exec.{Result, ok, err, Exec}
use droidpool.Exec.Keeps.{Keeps, keeps_rules}
use droidpool.Store.Sql.{Tables, Db, query, exec, exec_checked, transaction, finish, spent, fails}
use droidpool.Store.Devices.{get_device, list_devices}

abbrev pub Holds : (Tables → Type 0) → Db → Type 0
Holds P db = P db.tables

module _ (P : Tables → Type 0) where
  pub Keeps-query : {A : Type 0} (f : Tables → A) → Keeps (Holds P) (query f)
  Keeps-query f = record {
    at = λ db p. elim (Bool-cases (fails db)) [ inl bad ↦ rw bad p | inr good ↦ rw good p ];
  }

  pub Keeps-exec : (f : Tables → Tables) → ((t : Tables) → P t → P (f t)) → Keeps (Holds P) (exec f)
  Keeps-exec f h = record {
    at = λ db p. elim (Bool-cases (fails db)) [
      | inl bad ↦ rw bad p
      | inr good ↦ rw good (h db.tables p)
    ];
  }

  pub Keeps-exec_checked :
      (refused : Tables → Bool) (f : Tables → Tables)
      → ((t : Tables) → refused t ≡ false → P t → P (f t))
      → Keeps (Holds P) (exec_checked refused f)
  Keeps-exec_checked refused f h = record {
    at = λ db p. elim (Bool-cases (fails db)) [
      | inl bad ↦ rw bad p
      | inr good ↦ elim (Bool-cases (refused db.tables)) [
        | inl no_good ↦ rw (good, no_good) p
        | inr fine ↦ rw (good, fine) (h db.tables fine p)
      ]
    ];
  }

  finish-holds :
      {A : Type 0} (before : Tables) (x : Result A × Db)
      → P before
      → P x.1.tables
      → P (finish before x).1.tables
  finish-holds before (ok a, db) p q = elim (Bool-cases (fails db)) [
    | inl bad ↦ rw bad p
    | inr good ↦ rw good q
  ]
  finish-holds before (err e, db) p q = p

  pub Keeps-transaction :
      {A : Type 0} (m : Exec Db A) → Keeps (Holds P) m → Keeps (Holds P) (transaction m)
  Keeps-transaction m k = record {
    at = λ db p. elim (Bool-cases (fails db)) [
      | inl bad ↦ rw bad p
      | inr good ↦ rw good (finish-holds db.tables (m (spent db)) p (k.at (spent db) p))
    ];
  }

module _ (P : Tables → Type 0) where
  pub Keeps-get_device : (id : Text) → Keeps (Holds P) (get_device id)
  unfolding get_device
  Keeps-get_device id = search (keeps_rules, Keeps-query P)

  pub Keeps-list_devices : Keeps (Holds P) list_devices
  unfolding list_devices
  Keeps-list_devices = search (keeps_rules, Keeps-query P)
