-- ===== src/Timer/Interval.antt =====
-- The interval that `sigtimer_start` asks for, and the timers that a failed start leaves.
use luavela.Base.{ℕ, ◌*◌, ◌/◌, ◌<◌, ◌≤◌, ◌≡◌, refl, arith}
use luavela.Base.{Bool-cases, inl, inr, sym}
use luavela.Base.{◌⊎◌, ltb, ltb→lt, ltb→le}
use luavela.Timer.{Os, Sigtimer, sigtimer_err}
use luavela.Timer.{sigtimer_status, sigtimer_start}

module _ (os : Os) where
  open os use {World, timer_settime, timer_settime-valid}

  -- An interval of a second or more is refused by every system that checks its fields, since
  -- the nanoseconds are not reduced to less than a second; a shorter one asks for the interval
  -- of the options.
  pub sigtimer_start-interval :
      (timer : Sigtimer) (w : World)
      → ((1000000 ≤ timer.opt.usec) × ((sigtimer_start os timer w).0 ≡ sigtimer_err))
        ⊎ ((nsec : ℕ) × (nsec < 1000000000)
            × (nsec ≡ 1000 * timer.opt.usec)
            × (sigtimer_start os timer w ≡ (
              sigtimer_status (timer_settime timer.id 0 nsec w).0,
              (timer_settime timer.id 0 nsec w).1,
            )))
  unfolding sigtimer_start
  sigtimer_start-interval timer w =
      let sec = timer.opt.usec / 1000000 in
      let nsec = timer.opt.usec * 1000 in
      elim (Bool-cases (ltb timer.opt.usec 1000000)) [
        | inr long ↦
            let late = ltb→le _ _ long in
            inl (
              late,
              elim (Bool-cases (timer_settime timer.id sec nsec w).0) [
                | inl ok ↦ absurd (omega (arith, late, timer_settime-valid timer.id sec nsec w ok))
                | inr refused ↦ rw refused refl
              ],
            )
        | inl short ↦
            let early = ltb→lt _ _ short in
            let none_left : 0 ≡ sec = omega arith in
            inr (nsec, omega arith, omega arith, rw (sym none_left) refl)
      ]
