-- ===== src/Timer.antt =====
-- src/uj_sigtimer.c and src/uj_timerint.c: timer interrupts that a signal delivers. The system
-- calls are a parameter, an `Os`; its `World` is all that they read and change.
pub mod Interval
pub mod Calls
use luavela.Base.{ℕ, zero, suc, ◌+◌, ◌-◌, ◌*◌, ◌/◌, ◌%◌, ◌^◌, ◌<◌, ◌≡◌, bit_and, bit_or}
use luavela.Base.{Bool, true, false, Option, none, some, ◌==◌, if◌then◌else◌}

-- struct sigaction; the two fields of a null action are 0.
pub record Action : Type 0 where
  pub sa_flags : ℕ
  pub sa_sigaction : ℕ

-- The calls that the timer makes. `handler` is the action of each signal, and `live` tells which
-- timers exist.
pub record Os : Type 1 where
  pub World : Type 0
  pub handler : World → ℕ → Action
  pub live : World → ℕ → Bool
  pub gettid : World → ℕ
  pub sigaction : (signo : ℕ) (sa : Action) → World → Option Action × World
  pub timer_create : (signo tid : ℕ) → World → Option ℕ × World
  pub timer_delete : (id : ℕ) → World → Bool × World
  pub timer_settime : (id tv_sec tv_nsec : ℕ) → World → Bool × World
  pub sigaction-handler :
      (signo : ℕ) (sa old : Action) (w : World)
      → (sigaction signo sa w).0 ≡ some old
      → (old ≡ handler w signo)
        × ((s : ℕ) → handler (sigaction signo sa w).1 s ≡ (if signo == s then sa else handler w s))
  pub sigaction-live :
      (signo : ℕ) (sa : Action) (w : World) (i : ℕ) → live (sigaction signo sa w).1 i ≡ live w i
  pub timer_create-live :
      (signo tid id : ℕ) (w : World)
      → (timer_create signo tid w).0 ≡ some id
      → (live w id ≡ false)
        × ((i : ℕ) → live (timer_create signo tid w).1 i ≡ (if id == i then true else live w i))
  pub timer_create-handler :
      (signo tid : ℕ) (w : World) (s : ℕ) → handler (timer_create signo tid w).1 s ≡ handler w s
  pub timer_delete-live :
      (id : ℕ) (w : World)
      → (timer_delete id w).0 ≡ true
      → (i : ℕ) → live (timer_delete id w).1 i ≡ (if id == i then false else live w i)
  pub timer_delete-handler :
      (id : ℕ) (w : World) (s : ℕ) → handler (timer_delete id w).1 s ≡ handler w s
  pub timer_settime-live :
      (id sec nsec : ℕ) (w : World) (i : ℕ) → live (timer_settime id sec nsec w).1 i ≡ live w i
  pub timer_settime-handler :
      (id sec nsec : ℕ) (w : World) (s : ℕ)
      → handler (timer_settime id sec nsec w).1 s ≡ handler w s
  pub timer_settime-valid :
      (id sec nsec : ℕ) (w : World) → (timer_settime id sec nsec w).0 ≡ true → nsec < 1000000000

pub data SigtimerStatus : Type 0 where
  sigtimer_success : SigtimerStatus
  sigtimer_err : SigtimerStatus

-- `usec` is a uint32_t.
pub record SigtimerOpt : Type 0 where
  pub signo : ℕ
  pub usec : ℕ
  pub callback : ℕ

pub record Sigtimer : Type 0 where
  pub id : ℕ
  pub opt : SigtimerOpt
  pub old_sa : Action

-- SA_RESTART | SA_SIGINFO.
abbrev sa_restart_siginfo : ℕ
sa_restart_siginfo = 0x10000004

abbrev pub sigtimer_status : Bool → SigtimerStatus
sigtimer_status true = sigtimer_success
sigtimer_status false = sigtimer_err

module _ (os : Os) where
  open os use {World, gettid, sigaction, timer_create, timer_delete, timer_settime}

  -- The old action is stored where the call succeeds.
  unfoldable pub sigtimer_install_sa : Sigtimer → World → SigtimerStatus × Sigtimer × World
  sigtimer_install_sa timer w =
      let sa : Action = record {
        sa_flags = sa_restart_siginfo;
        sa_sigaction = timer.opt.callback;
      } in
      let (old, w') = sigaction timer.opt.signo sa w in
      elim old [
        | some act ↦ (sigtimer_success, record timer { old_sa = act }, w')
        | none ↦ (sigtimer_err, timer, w')
      ]

  unfoldable pub sigtimer_uninstall_sa : Sigtimer → World → SigtimerStatus × World
  sigtimer_uninstall_sa timer w =
      let (old, w') = sigaction timer.opt.signo timer.old_sa w in
      elim old [ some act ↦ (sigtimer_success, w') | none ↦ (sigtimer_err, w') ]

  unfoldable pub sigtimer_create : Sigtimer → World → SigtimerStatus × Sigtimer × World
  sigtimer_create timer w =
      let (made, w') = timer_create timer.opt.signo (gettid w) w in
      elim made [
        | some id ↦ (sigtimer_success, record timer { id = id }, w')
        | none ↦ (sigtimer_err, timer, w')
      ]

  unfoldable pub sigtimer_delete : Sigtimer → World → SigtimerStatus × World
  sigtimer_delete timer w = let (ok, w') = timer_delete timer.id w in (sigtimer_status ok, w')

  unfoldable pub sigtimer_start : Sigtimer → World → SigtimerStatus × World
  sigtimer_start timer w =
      let sec = timer.opt.usec / 1000000 in
      let nsec = timer.opt.usec * 1000 in
      let (ok, w') = timer_settime timer.id sec nsec w in (sigtimer_status ok, w')

  unfoldable pub sigtimer_stop : Sigtimer → World → SigtimerStatus × World
  sigtimer_stop timer w = let (ok, w') = timer_settime timer.id 0 0 w in (sigtimer_status ok, w')

  unfoldable pub uj_sigtimer_init :
      Sigtimer → SigtimerOpt → World → SigtimerStatus × Sigtimer × World
  uj_sigtimer_init timer opt w = sigtimer_install_sa (record timer { opt = opt }) w

  unfoldable pub uj_sigtimer_start : Sigtimer → World → SigtimerStatus × Sigtimer × World
  uj_sigtimer_start timer w =
      let (created, timer', w') = sigtimer_create timer w in
      elim created [
        | sigtimer_err ↦ (sigtimer_err, timer', w')
        | sigtimer_success ↦ let (started, w'') = sigtimer_start timer' w' in (started, timer', w'')
      ]

  unfoldable pub uj_sigtimer_stop : Sigtimer → World → SigtimerStatus × World
  uj_sigtimer_stop timer w =
      let (stopped, w') = sigtimer_stop timer w in
      elim stopped [
        | sigtimer_err ↦ (sigtimer_err, w')
        | sigtimer_success ↦ sigtimer_delete timer w'
      ]

  unfoldable pub uj_sigtimer_terminate : Sigtimer → World → SigtimerStatus × World
  uj_sigtimer_terminate timer w = sigtimer_uninstall_sa timer w
