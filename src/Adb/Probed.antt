-- ===== src/Adb/Probed.antt =====
-- Whether `Alive` of internal/adb/adb.go tells a dead device from a stale connection, and which lock
-- `capLockFor` gives to a device.
use droidpool.Prelude.{
  ℕ, ◌+◌, ◌<◌, ◌≡◌, ◌≢◌, Bool, true, ◌&&◌, List, [], ◌∷◌, arith, inl, inr, Option-cases, All, Text,
  text_eq_iff,
}
use droidpool.Adb.{
  Adb, Runs, probe_args, connect_args, is_connected, says_one, probe, connect, alive, Locks,
  lock_of, cap_lock_for,
}

-- A device that works or not, over a connection that may be stale: a probe is answered by 1 exactly
-- if the device works and the connection is good, and connecting makes it good.
pub record Link (a : Adb) (serial : Text) (works : Bool) : Type 0 where
  pub good : Runs → Bool
  pub probes : (l : Runs) → says_one (a.output (probe_args serial ∷ l)) ≡ (works && good l)
  pub connects : (l : Runs) → is_connected (a.output (connect_args serial ∷ l)) ≡ true
  pub renewed : (l : Runs) → good (connect_args serial ∷ l) ≡ true

-- If a probe is answered by 1 exactly if the device works and the connection to it is good, and
-- connecting succeeds and makes it good, then Alive is true exactly if the device works, however
-- stale the connection was.
pub alive-Tells :
    (a : Adb) (serial : Text) (works : Bool) (runs : Runs)
    → Link a serial works
    → (alive a serial runs).0 ≡ works
unfolding alive probe connect
alive-Tells a serial works runs k =
    let second = connect_args serial ∷ probe_args serial ∷ runs in
    ground (
      arith,
      k.probes runs,
      k.connects (probe_args serial ∷ runs),
      k.probes second,
      k.renewed (probe_args serial ∷ runs),
    )

-- Every lock that is given out has a number below the next one.
abbrev pub AreBelow : ℕ → List (Text × ℕ) → Type 0
AreBelow next held = All (λ e. e.1 < next) held

AreBelow-suc : (next : ℕ) (held : List (Text × ℕ)) → AreBelow next held → AreBelow (next + 1) held
AreBelow-suc next [] h = tt
AreBelow-suc next (e ∷ held) h = (omega arith, AreBelow-suc next held h.1)

-- Below the next number, asking twice gives the same lock and state; asking for one serial leaves
-- another serial's lock as it is; and all numbers stay below the next one.
pub cap_lock_for-Apart :
    (s t : Text) (ls : Locks)
    → AreBelow ls.next ls.held
    → s ≢ t
    → ((cap_lock_for s (cap_lock_for s ls).1) ≡ (cap_lock_for s ls))
      × (lock_of t (cap_lock_for s ls).1.held ≡ lock_of t ls.held)
      × AreBelow (cap_lock_for s ls).1.next (cap_lock_for s ls).1.held
unfolding cap_lock_for lock_of
cap_lock_for-Apart s t ls h apart = elim (Option-cases (lock_of s ls.held)) [
  | inl new ↦ ground (arith, new, text_eq_iff s s, text_eq_iff s t, AreBelow-suc ls.next ls.held h)
  | inr (l, old) ↦ ground (arith, old)
]
