-- ===== src/Client/Powered.antt =====
-- In which order `cmdBattery` of cmd/droidpool/main.go fakes a battery.
use droidpool.Prelude.{
  ◌++◌, is_some, ℕ, ◌≡◌, ◌≢◌, refl, sym, subst, text_eq, ◌⊎◌, inl, inr, Bool, true, false, not,
  List, [], ◌∷◌, Option, none, some, arith, Bool-cases, Text, codes,
}
use droidpool.Prelude.Int.{ℤ}
use droidpool.Adb.{itoa}
use droidpool.Api.Urls.{cut}
use droidpool.Manager.Index.{strip_prefix-append}
use droidpool.Client.{
  LeaseState, holds, Shell, Act, Outside, Run, ◌>>=◌, ◌>>◌, and_then, load_state, adb_dev, done,
}
use droidpool.Client.Device.{
  run_battery, cmd_battery, check, went_well, or_exit, set_battery_temp, plug_in, battery_args,
  battery_status, between_1_and_100,
}

abbrev pub battery_act : Text → List Text → Act
battery_act addr args = Act.adb (codes "-s" ∷ addr ∷ battery_args args)

abbrev pub level_act : Text → ℤ → Act
level_act addr k = battery_act addr (codes "set" ∷ codes "level" ∷ itoa k ∷ [])

abbrev pub present_act : Text → Act
present_act addr = battery_act addr (codes "set" ∷ codes "present" ∷ codes "1" ∷ [])

-- The words do not stand anywhere in the text.
abbrev pub Without : Text → Text → Type 0
Without words out = (before behind : Text) → out ≢ before ++ (words ++ behind)

-- The newest command to the battery was answered: adb ended well, and what it printed has neither of
-- the words by which `cmd battery` tells of an error.
abbrev pub IsFine : Outside → List Act → Type 0
IsFine o acts =
    (o.adb_fails acts ≡ false)
    × Without (codes "Bad value") (o.adb_output acts)
    × Without (codes "Unknown") (o.adb_output acts)

-- What was run on top of `base`: a battery is declared present only on top of a level from 1 to 100
-- that was set without an error.
pub data IsPowered (o : Outside) (addr : Text) (base : List Act) : List Act → Type 0 where
  nothing : IsPowered o addr base base
  level : (k : ℤ) → between_1_and_100 k ≡ true → IsPowered o addr base (level_act addr k ∷ base)
  present :
      (k : ℤ)
      → between_1_and_100 k ≡ true
      → IsFine o (level_act addr k ∷ base)
      → IsPowered o addr base (present_act addr ∷ level_act addr k ∷ base)
  more :
      {acts : List Act} (args : List Text)
      → battery_act addr args ≢ present_act addr
      → IsPowered o addr base acts
      → IsPowered o addr base (battery_act addr args ∷ acts)

-- Another command to the battery than the one that declares it present.
abbrev IsOther : List Text → Type 0
IsOther args = (addr : Text) → battery_act addr args ≢ present_act addr

cut-finds :
    (c : ℕ) (words before behind : Text)
    → is_some (cut (c ∷ words) (before ++ (c ∷ words ++ behind))) ≡ true
unfolding cut
cut-finds c words [] behind = rw (strip_prefix-append (c ∷ words) behind) refl
cut-finds c words (d ∷ before) behind = ground (arith, cut-finds c words before behind)

lacks-Without :
    (c : ℕ) (words out : Text) → is_some (cut (c ∷ words) out) ≡ false → Without (c ∷ words) out
lacks-Without c words out h before behind e = let found = cut-finds c words before behind in cc

went_well-IsFine :
    (o : Outside) (acts : List Act)
    → went_well o (not (o.adb_fails acts), o.adb_output acts) ≡ true
    → IsFine o acts
went_well-IsFine o acts h = (
  ground (arith, h),
  lacks-Without b'B' (codes "ad value") (o.adb_output acts) (ground (arith, h)),
  lacks-Without b'U' (codes "nknown") (o.adb_output acts) (ground (arith, h)),
)

module _ (o : Outside) (st : LeaseState) (base : List Act) where
  abbrev HoldsPowered : Shell → Type 0
  HoldsPowered s = (s.file ≡ holds st) × IsPowered o st.adb_addr base s.acts

  -- The command leaves the record and keeps to the order.
  record InOrder (m : Run (Unit {0})) : Type 0 where
    at : (s : Shell) → HoldsPowered s → HoldsPowered (m s).1

  after-InOrder :
      (k : Run (Unit {0})) (x : (Unit {0} ⊎ ℕ) × Shell)
      → InOrder k
      → HoldsPowered x.1
      → HoldsPowered (and_then (λ u. k) x).1
  after-InOrder k (inl u, s) kk h = kk.at s h
  after-InOrder k (inr n, s) kk h = h

  then-InOrder : (m k : Run (Unit {0})) → InOrder m → InOrder k → InOrder (m >> k)
  then-InOrder m k km kk = record { at = λ s h. after-InOrder k (m s) kk (km.at s h) }

  check_leaves : (b : Bool) (s : Shell) → (check b s).1 ≡ s
  check_leaves true s = refl
  check_leaves false s = refl

  run_battery-acts :
      (args : List Text) (acts : List Act)
      → (run_battery o args (record { file = holds st; acts = acts })).1
        ≡ record { file = holds st; acts = battery_act st.adb_addr args ∷ acts }
  unfolding run_battery adb_dev load_state
  run_battery-acts args acts = check_leaves _ _

  run_battery-InOrder : (args : List Text) → IsOther args → InOrder (run_battery o args)
  run_battery-InOrder args other = record {
    at = λ s h.
        let known : record { file = holds st; acts = s.acts } ≡ s =
          λ i. record { file = sym h.0 i; acts = s.acts } in
        subst (λ t. HoldsPowered (run_battery o args t).1) known
          (subst HoldsPowered (sym (run_battery-acts args s.acts))
            (refl, more args (other st.adb_addr) h.1));
  }

  pure-InOrder : InOrder (done tt)
  pure-InOrder = record { at = λ s h. h }

  temp-InOrder : (t : Option ℤ) → InOrder (set_battery_temp o t)
  unfolding set_battery_temp
  temp-InOrder none = pure-InOrder
  temp-InOrder (some t) = run_battery-InOrder _ (λ addr e. cc)

  plug_in-InOrder : (status : Text) → InOrder (plug_in o status)
  unfolding plug_in
  plug_in-InOrder status = elim (Bool-cases (text_eq status (codes "charging"))) [
    | inl e ↦ rw e (run_battery-InOrder _ (λ addr e. cc))
    | inr e ↦ rw e (run_battery-InOrder _ (λ addr e. cc))
  ]

check-either :
    (Q : (Unit {0} ⊎ ℕ) × Shell → Type 0) (b : Bool) (k : Run (Unit {0})) (s : Shell)
    → (b ≡ true → Q (k s))
    → Q (inr 1, s)
    → Q ((check b >> k) s)
check-either Q true k s t f = t refl
check-either Q false k s t f = f

or_exit-either :
    (Q : (Unit {0} ⊎ ℕ) × Shell → Type 0) (v : Option Text) (k : Text → Run (Unit {0})) (s : Shell)
    → ((x : Text) → Q (k x s))
    → Q (inr 1, s)
    → Q ((or_exit v >>= k) s)
or_exit-either Q none k s t f = f
or_exit-either Q (some x) k s t f = t x

module _ (o : Outside) (st : LeaseState) where
  abbrev on : List Act → Shell
  on acts = record { file = holds st; acts = acts }

  abbrev goes_well : List Text → List Act → Bool
  goes_well args acts =
      let now = battery_act st.adb_addr args ∷ acts in
      went_well o (not (o.adb_fails now), o.adb_output now)

  run-either :
      (Q : (Unit {0} ⊎ ℕ) × Shell → Type 0) (args : List Text) (k : Run (Unit {0}))
      (acts : List Act)
      → (goes_well args acts ≡ true → Q (k (on (battery_act st.adb_addr args ∷ acts))))
      → Q (inr 1, on (battery_act st.adb_addr args ∷ acts))
      → Q ((run_battery o args >> k) (on acts))
  unfolding run_battery adb_dev load_state
  run-either Q args k acts t f =
      check-either Q (goes_well args acts) k (on (battery_act st.adb_addr args ∷ acts)) t f

  -- With a local record, and however adb answers, the battery command declares a battery present
  -- only right after adb has set a level from 1 to 100, ended well and printed neither Bad value
  -- nor Unknown, and all it does is run commands to the battery of the leased device.
  pub cmd_battery-IsPowered :
      (reset : Bool) (k : ℤ) (status : Text) (temp : Option ℤ) (base : List Act)
      → IsPowered o st.adb_addr base (cmd_battery o reset k status temp (on base)).1.acts
  unfolding cmd_battery
  cmd_battery-IsPowered true k status temp base =
      ((run_battery-InOrder o st base (codes "reset" ∷ []) (λ addr e. cc)).at (on base)
        (refl, nothing)).1
  cmd_battery-IsPowered false k status temp base =
      let Q = λ (r : (Unit {0} ⊎ ℕ) × Shell). IsPowered o st.adb_addr base r.1.acts in
      check-either Q (between_1_and_100 k) _ (on base)
        (λ fits.
          or_exit-either Q (battery_status status) _ (on base)
            (λ number.
              run-either Q (codes "set" ∷ codes "level" ∷ itoa k ∷ []) _ base
                (λ set.
                  let levelled = level_act st.adb_addr k ∷ base in
                  let fine = went_well-IsFine o levelled set in
                  let powered = IsPowered.present k fits fine in
                  run-either Q (codes "set" ∷ codes "present" ∷ codes "1" ∷ []) _ levelled
                    (λ declared.
                      let declares = present_act st.adb_addr ∷ levelled in
                      let status_args = codes "set" ∷ codes "status" ∷ number ∷ [] in
                      ((then-InOrder o st base (run_battery o status_args)
                          (plug_in o status >> set_battery_temp o temp)
                          (run_battery-InOrder o st base status_args (λ addr e. cc))
                          (then-InOrder o st base (plug_in o status) (set_battery_temp o temp)
                            (plug_in-InOrder o st base status) (temp-InOrder o st base temp))).at
                        (on declares) (refl, powered)).1)
                    powered)
                (IsPowered.level k fits))
            nothing)
        nothing
