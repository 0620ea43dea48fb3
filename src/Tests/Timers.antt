-- ===== src/Tests/Timers.antt =====
-- The timer on a system with room for one timer, whose calls succeed where they can.
use luavela.Base.{ℕ, ◌%◌, ◌^◌, ◌≡◌, refl, sym, Bool, true, false, ◌&&◌}
use luavela.Base.{Option, none, some, ◌==◌, if◌then◌else◌, ltb, ltb→lt, arith}
use luavela.Timer.{Os, Action, Sigtimer}
use luavela.Timer.{uj_sigtimer_init, uj_sigtimer_start, uj_sigtimer_stop, uj_sigtimer_terminate}
use luavela.Timer.{sigtimer_install_sa, sigtimer_uninstall_sa, sigtimer_create, sigtimer_delete}
use luavela.Timer.{sigtimer_start, sigtimer_stop}
use luavela.Timerint.{Timerint, uj_timerint_init, uj_timerint_terminate}
use luavela.Timerint.{timerint_handler, uj_timerint_init_default, uj_timerint_terminate_default}
use luavela.Timerint.Session.{after_ticks, session-restores, terminate_default_again}

record System : Type 0 where
  actions : ℕ → Action
  armed : Bool

abbrev system_live : System → ℕ → Bool
system_live w i = i == 0 && w.armed

abbrev system_sigaction : ℕ → Action → System → Option Action × System
system_sigaction signo sa w =
    (some (w.actions signo), record w { actions = λ s. if signo == s then sa else w.actions s })

abbrev system_create : ℕ → ℕ → System → Option ℕ × System
system_create signo tid w = if w.armed then (none, w) else (some 0, record w { armed = true })

abbrev system_delete : ℕ → System → Bool × System
system_delete id w = if id == 0 && w.armed then (true, record w { armed = false }) else (false, w)

abbrev system_settime : ℕ → ℕ → ℕ → System → Bool × System
system_settime id sec nsec w = (ltb nsec 1000000000, w)

some-inj : (a b : Action) → some a ≡ some b → a ≡ b
some-inj a b h = cc

create-live :
    (signo tid id : ℕ) (w : System)
    → (system_create signo tid w).0 ≡ some id
    → (system_live w id ≡ false)
      × ((i : ℕ)
          → system_live (system_create signo tid w).1 i
            ≡ (if id == i then true else system_live w i))
create-live signo tid id w h = ground arith

delete-live :
    (id : ℕ) (w : System)
    → (system_delete id w).0 ≡ true
    → (i : ℕ) → system_live (system_delete id w).1 i ≡ (if id == i then false else system_live w i)
delete-live id w h i = ground arith

delete-actions : (id : ℕ) (w : System) (s : ℕ) → (system_delete id w).1.actions s ≡ w.actions s
delete-actions id w s = ground arith

create-actions :
    (signo tid : ℕ) (w : System) (s : ℕ) → (system_create signo tid w).1.actions s ≡ w.actions s
create-actions signo tid w s = ground arith

abbrev one_timer : Os
one_timer = record {
  World = System;
  handler = λ w. w.actions;
  live = system_live;
  gettid = λ w. 1;
  sigaction = system_sigaction;
  timer_create = system_create;
  timer_delete = system_delete;
  timer_settime = system_settime;
  sigaction-handler = λ signo sa old w h. (sym (some-inj _ _ h), λ s. refl);
  sigaction-live = λ signo sa w i. refl;
  timer_create-live = create-live;
  timer_create-handler = create-actions;
  timer_delete-live = delete-live;
  timer_delete-handler = delete-actions;
  timer_settime-live = λ id sec nsec w i. refl;
  timer_settime-handler = λ id sec nsec w s. refl;
  timer_settime-valid = λ id sec nsec w h. ltb→lt nsec 1000000000 h;
}

abbrev default_action : Action
default_action = record { sa_flags = 0; sa_sigaction = 0 }

abbrev idle_system : System
idle_system = record { actions = λ s. default_action; armed = false }

abbrev every : ℕ → Sigtimer
every usec = record {
  id = 0;
  opt = record { signo = 27; usec = usec; callback = 77 };
  old_sa = default_action;
}

abbrev resting : Timerint
resting = record { ticks = 0; flags = 0; timer = every 0 }

program : Unit {0}
unfolding uj_timerint_init uj_timerint_terminate uj_sigtimer_init uj_sigtimer_start uj_sigtimer_stop
    uj_sigtimer_terminate sigtimer_install_sa sigtimer_uninstall_sa sigtimer_create sigtimer_delete
    sigtimer_start sigtimer_stop uj_timerint_init_default uj_timerint_terminate_default
    timerint_handler
program = tt

abbrev ran : Timerint × System
ran = let a = uj_timerint_init one_timer 77 27 resting idle_system in (after_ticks 5 a.1, a.2)

session-restores_example :
    let b = uj_timerint_terminate one_timer 77 ran.0 ran.1 in
    ((s : ℕ) → b.2.actions s ≡ default_action)
    × ((i : ℕ) → system_live b.2 i ≡ system_live idle_system i)
    × (b.1.flags ≡ 0)
    × (b.1.ticks % 2 ^ 64 ≡ 5 % 2 ^ 64)
unfolding program
session-restores_example =
    session-restores one_timer 77 27 5 resting idle_system (omega arith) refl refl

abbrev started_by_default : Timerint × System
started_by_default = let a = uj_timerint_init_default one_timer 77 resting idle_system in (a.1, a.2)

terminated_twice :
    let b = uj_timerint_terminate_default one_timer 77 started_by_default.0 started_by_default.1 in
    uj_timerint_terminate_default one_timer 77 b.1 b.2 ≡ b
unfolding program
terminated_twice =
    terminate_default_again one_timer 77 started_by_default.0 started_by_default.1 (omega arith)
      refl
