-- ===== src/Reaper/Round.antt =====
-- What a round of internal/pool/reaper.go does to the leases.
use droidpool.Prelude.{
  ℕ, ◌&&◌, ◌<◌, ◌≡◌, refl, sym, ap, ◌∙◌, subst, ◌⊎◌, inl, inr, Bool, false, List, [], ◌∷◌, Option,
  none, some, Text, is_some, if◌then◌else◌, any, find?, All, arith, Bool-cases, Option-cases,
  text_eq,
}
use droidpool.Exec.{ok, Result-cases}
use droidpool.Exec.Keeps.{Keeps}
use droidpool.Pool.Time.{Time, unix}
use droidpool.Pool.Lease.{Lease, should_reap}
use droidpool.Store.Tables.{LeaseRow, has_lease, update_where}
use droidpool.Store.Sql.{fails, later_faults}
use droidpool.Store.Rows.{find-none, find-some}
use droidpool.Store.Release.{ended, none_active, find_other}
use droidpool.Store.Leases.{release, end_lease, reset_device, has_id}
use droidpool.Manager.World.{Sys, on_db}
use droidpool.Reaper.{Reaper, Notice, reset_with, reap_one, noted, reap_each}

-- The leases are these, and no statement fails.
abbrev pub IsQuiet : List LeaseRow → Sys → Type 0
IsQuiet rows s = (s.leases ≡ rows) × (s.faults ≡ [])

-- A resetter that leaves the leases alone.
abbrev pub ResetsQuietly : Reaper → Type 0
ResetsQuietly r =
    (dev : Text) (rows : List LeaseRow) → Keeps (IsQuiet rows) (reset_with r.resetter dev)

-- The leases after the release of one.
abbrev pub without : ℕ → Text → List LeaseRow → List LeaseRow
without v id rows =
    if any (has_lease id) rows then update_where (has_id id) (ended v) rows else rows

-- The leases after a round over `ls`.
abbrev pub reaped : Reaper → Time → List Lease → List LeaseRow → List LeaseRow
reaped r now [] rows = rows
reaped r now (l ∷ ls) rows = reaped r now ls (
    if is_some (should_reap l now r.idle_limit r.max_life)
    then without (unix now) l.id rows
    else rows)

release-IsQuiet :
    (id : Text) (now : Time) (rows : List LeaseRow) (s : Sys)
    → IsQuiet rows s
    → IsQuiet (without (unix now) id rows) (on_db (release id now) s).1
unfolding release fails later_faults end_lease reset_device
release-IsQuiet id now rows s q = elim (Option-cases (find? (has_lease id) s.leases)) [
  | inl k ↦ ground (arith, k, q, find-none (has_lease id) s.leases k)
  | inr (r, k) ↦ ground (arith, k, q, find-some (has_lease id) s.leases r k)
]

reap_one-IsQuiet :
    (r : Reaper) (now : Time) (l : Lease) (rows : List LeaseRow) (s : Sys)
    → ResetsQuietly r
    → IsQuiet rows s
    → IsQuiet
        (if is_some (should_reap l now r.idle_limit r.max_life)
          then without (unix now) l.id rows
          else rows)
        (reap_one r now l s).1
unfolding reap_one
reap_one-IsQuiet r now l rows s quiet q =
    elim (Option-cases (should_reap l now r.idle_limit r.max_life)) [
      | inl keep ↦ ground (arith, keep, q)
      | inr (reason, due) ↦
          let after_release = on_db (release l.id now) s in
          let freed = release-IsQuiet l.id now rows s q in
          elim (Result-cases after_release.0) [
            | inr (x, k) ↦ ground (arith, due, k, freed)
            | inl (dev, k) ↦
                ground (
                  arith,
                  due,
                  k,
                  (quiet dev (without (unix now) l.id rows)).at after_release.1 freed,
                )
          ]
    ]

abbrev pub is_due : Reaper → Time → Lease → Bool
is_due r now l = is_some (should_reap l now r.idle_limit r.max_life)

gone-update :
    (id j : Text) (v : ℕ) (rows : List LeaseRow)
    → 0 < v
    → find? (has_lease id) rows ≡ none
    → find? (has_lease id) (update_where (has_id j) (ended v) rows) ≡ none
unfolding update_where
gone-update id j v [] pos h = refl
gone-update id j v (x ∷ rows) pos h = ground (arith, gone-update id j v rows pos)

gone-reaped :
    (r : Reaper) (now : Time) (id : Text) (ls : List Lease) (rows : List LeaseRow)
    → 0 < unix now
    → find? (has_lease id) rows ≡ none
    → find? (has_lease id) (reaped r now ls rows) ≡ none
gone-reaped r now id [] rows pos h = h
gone-reaped r now id (l ∷ ls) rows pos h =
    gone-reaped r now id ls (if is_due r now l then without (unix now) l.id rows else rows) pos
      (ground (arith, gone-update id l.id (unix now) rows pos h))

none_of_any :
    (id : Text) (rows : List LeaseRow)
    → any (has_lease id) rows ≡ false
    → find? (has_lease id) rows ≡ none
none_of_any id [] h = refl
none_of_any id (x ∷ rows) h = ground (arith, none_of_any id rows)

without-gone :
    (id : Text) (v : ℕ) (rows : List LeaseRow)
    → 0 < v
    → find? (has_lease id) (without v id rows) ≡ none
without-gone id v rows pos = ground (arith, none_active id v rows pos, none_of_any id rows)

due-gone :
    (r : Reaper) (now : Time) (ls : List Lease) (rows : List LeaseRow)
    → 0 < unix now
    → All
        (λ l. (is_due r now l ≡ false) ⊎ (find? (has_lease l.id) (reaped r now ls rows) ≡ none))
        ls
due-gone r now [] rows pos = tt
due-gone r now (l ∷ ls) rows pos = (
  elim (Bool-cases (is_due r now l)) [
    | inl due ↦ inr (
        gone-reaped r now l.id ls (if is_due r now l then without (unix now) l.id rows else rows)
          pos (rw due (without-gone l.id (unix now) rows pos)))
    | inr calm ↦ inl calm
  ],
  due-gone r now ls (if is_due r now l then without (unix now) l.id rows else rows) pos,
)

others-kept :
    (r : Reaper) (now : Time) (id : Text) (ls : List Lease) (rows : List LeaseRow)
    → All (λ l. (is_due r now l && text_eq l.id id) ≡ false) ls
    → find? (has_lease id) (reaped r now ls rows) ≡ find? (has_lease id) rows
others-kept r now id [] rows h = refl
others-kept r now id (l ∷ ls) rows h =
    others-kept r now id ls (if is_due r now l then without (unix now) l.id rows else rows) h.1
    ∙ ground (arith, h.0, find_other l.id id (ended (unix now)) rows)

-- A lease that cannot be released, or a device that cannot be reset, does not fail the round.
reap_one-ok :
    (r : Reaper) (now : Time) (l : Lease) (s : Sys)
    → (o : Option Notice) × ((reap_one r now l s).0 ≡ ok o)
unfolding reap_one
reap_one-ok r now l s = elim (Option-cases (should_reap l now r.idle_limit r.max_life)) [
  | inl keep ↦ (none, ground (arith, keep))
  | inr (reason, due) ↦ elim (Result-cases (on_db (release l.id now) s).0) [
    | inr (x, k) ↦ (none, ground (arith, due, k))
    | inl (dev, k) ↦ elim (Option-cases r.resetter) [
      | inl alone ↦ (
        some (record { lease_id = l.id; device_id = dev; reason = reason }),
        ground (arith, due, k, alone),
      )
      | inr (act, yes_act) ↦ (
        some (record { lease_id = l.id; device_id = dev; reason = reason }),
        ground (arith, due, k, yes_act),
      )
    ]
  ]
]

reap_each-IsQuiet :
    (r : Reaper) (now : Time) (ls : List Lease) (rows : List LeaseRow) (s : Sys)
    → ResetsQuietly r
    → IsQuiet rows s
    → IsQuiet (reaped r now ls rows) (reap_each r now ls s).1
      × ((ns : List Notice) × ((reap_each r now ls s).0 ≡ ok ns))
unfolding reap_each
reap_each-IsQuiet r now [] rows s quiet q = (q, ([], refl))
reap_each-IsQuiet r now (l ∷ ls) rows s quiet q =
    let (o, one) = reap_one-ok r now l s in
    let rows' = if is_due r now l then without (unix now) l.id rows else rows in
    let (q', (ns, rest)) =
      reap_each-IsQuiet r now ls rows' (reap_one r now l s).1 quiet
        (reap_one-IsQuiet r now l rows s quiet q) in
    (ground (arith, one, rest, q'), (noted o ns, ground (arith, one, rest)))

-- With statements that do not fail, a resetter that leaves the leases alone and a time after
-- second 0 of 1970, a round over active leases ends well: each lease of the list with a reason is
-- active no more, and an id without a due lease in the list is looked up as before.
pub reap_each-clears :
    (r : Reaper) (now : Time) (id : Text) (ls : List Lease) (s : Sys)
    → 0 < unix now
    → ResetsQuietly r
    → s.faults ≡ []
    → All (λ l. (is_due r now l && text_eq l.id id) ≡ false) ls
    → ((ns : List Notice) × ((reap_each r now ls s).0 ≡ ok ns))
      × All
          (λ l.
            (is_due r now l ≡ false)
            ⊎ (find? (has_lease l.id) (reap_each r now ls s).1.leases ≡ none))
          ls
      × (find? (has_lease id) (reap_each r now ls s).1.leases ≡ find? (has_lease id) s.leases)
reap_each-clears r now id ls s pos quiet healthy h =
    let (q, done) = reap_each-IsQuiet r now ls s.leases s quiet (refl, healthy) in
    (
      done,
      subst (λ rows. All (λ l. (is_due r now l ≡ false) ⊎ (find? (has_lease l.id) rows ≡ none)) ls)
          (sym q.0) (due-gone r now ls s.leases pos),
      ap (find? (has_lease id)) q.0 ∙ others-kept r now id ls s.leases h,
    )
