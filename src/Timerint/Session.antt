-- ===== src/Timerint/Session.antt =====
-- The life of the timer: what each operation does to its flags, and that a session leaves the
-- system as it was.
use luavela.Base.{◌⊎◌}
use luavela.Base.{
  ℕ, zero, suc, ◌%◌, ◌+◌, ◌^◌, ◌<◌, ◌≡◌, ◌≢◌, refl, ap, sym, ◌∙◌, bit_and, bit_or, true, false, not,
}
use luavela.Base.{◌==◌, Bool-cases, inl, inr, arith, subst}
use luavela.Timer.{Os, SigtimerOpt}
use luavela.Timer.{uj_sigtimer_init, uj_sigtimer_start, uj_sigtimer_stop, uj_sigtimer_terminate}
use luavela.Timer.Calls.{
  Runs, status-cases, init-Installed, start-Runs, stop-Installed, terminate-Restored,
}
use luavela.Timerint.{
  Timerint, timerint_handler, IntStatus, luae_int_success, luae_int_err, timerint_is_ticking,
}
use luavela.Timerint.{timerint_default_init, timerint_default_signo, set_flag, clear_flag, has_flag}
use luavela.Timerint.{uj_timerint_is_ticking, uj_timerint_init, uj_timerint_init_default}
use luavela.Timerint.{uj_timerint_terminate, uj_timerint_terminate_default, timerint_interval_usec}

true≢false : true ≢ false
true≢false h = cc

-- The two flags.
set-clear :
    (f : ℕ) → f < 4 → not (bit_and f 1 == 0) ≡ false → bit_and (bit_or f 1) 0xfffffffffffffffe ≡ f
set-clear zero h e = refl
set-clear (suc zero) h e = absurd (true≢false e)
set-clear (suc (suc zero)) h e = refl
set-clear (suc (suc (suc zero))) h e = absurd (true≢false e)
set-clear (suc (suc (suc (suc f)))) h e = absurd (omega arith)

both_set : (f : ℕ) → f < 4 → not (bit_and (bit_or (bit_or f 1) 2) 1 == 0) ≡ true
both_set zero h = refl
both_set (suc zero) h = refl
both_set (suc (suc zero)) h = refl
both_set (suc (suc (suc zero))) h = refl
both_set (suc (suc (suc (suc f)))) h = absurd (omega arith)

both_clear :
    (f : ℕ)
    → f < 4
    → not (bit_and (bit_and (bit_and f 0xfffffffffffffffe) 0xfffffffffffffffd) 2 == 0) ≡ false
both_clear zero h = refl
both_clear (suc zero) h = refl
both_clear (suc (suc zero)) h = refl
both_clear (suc (suc (suc zero))) h = refl
both_clear (suc (suc (suc (suc f)))) h = absurd (omega arith)

int-cases : (s : IntStatus) → (s ≡ luae_int_success) ⊎ (s ≡ luae_int_err)
int-cases luae_int_success = inl refl
int-cases luae_int_err = inr refl

err≢success : luae_int_err ≢ luae_int_success
err≢success h = cc

-- The signal has come `n` times.
abbrev pub after_ticks : ℕ → Timerint → Timerint
after_ticks zero t = t
after_ticks (suc n) t = after_ticks n (timerint_handler t)

after_ticks_lem :
    (n : ℕ) (t : Timerint)
    → ((after_ticks n t).timer ≡ t.timer)
      × ((after_ticks n t).flags ≡ t.flags)
      × ((after_ticks n t).ticks % 2 ^ 64 ≡ (t.ticks + n) % 2 ^ 64)
unfolding timerint_handler
after_ticks_lem zero t = (refl, refl, omega arith)
after_ticks_lem (suc n) t =
    let ih = after_ticks_lem n (timerint_handler t) in (ih.0, ih.1, ih.2 ∙ omega arith)

module _ (os : Os) (handler_address : ℕ) where
  open os use {World, handler, live}

  init_lem :
      (signo : ℕ) (t : Timerint) (w : World)
      → let a = uj_timerint_init os handler_address signo t w in
        a.0 ≡ luae_int_success
        → (uj_timerint_is_ticking t ≡ false)
          × (a.1.flags ≡ bit_or t.flags 1)
          × (a.1.ticks ≡ 0)
          × Runs os a.1.timer w a.2
  unfolding uj_timerint_init
  init_lem signo t w ok =
      let opt : SigtimerOpt = record {
        signo = signo;
        usec = timerint_interval_usec;
        callback = handler_address;
      } in
      let one = uj_sigtimer_init os t.timer opt w in
      let two = uj_sigtimer_start os one.1 one.2 in
      elim (Bool-cases (uj_timerint_is_ticking t)) [
        | inl e ↦ absurd (err≢success (rw (e, uj_timerint_init) at ok))
        | inr e ↦ elim (status-cases one.0) [
          | inr bad ↦ absurd (err≢success (rw (e, bad, uj_timerint_init) at ok))
          | inl good ↦ elim (status-cases two.0) [
            | inr bad ↦ absurd (err≢success (rw (e, good, bad, uj_timerint_init) at ok))
            | inl good' ↦
                rw (e, good, good', uj_timerint_init)
                  (
                    refl,
                    refl,
                    refl,
                    start-Runs os one.1 w one.2 (init-Installed os t.timer opt w good) good',
                  )
          ]
        ]
      ]

  terminate_lem :
      (t : Timerint) (before w : World)
      → Runs os t.timer before w
      → let b = uj_timerint_terminate os handler_address t w in
        b.0 ≡ luae_int_success
        → (b.1 ≡ clear_flag timerint_is_ticking t)
          × ((s : ℕ) → handler b.2 s ≡ handler before s)
          × ((i : ℕ) → live b.2 i ≡ live before i)
  unfolding uj_timerint_terminate
  terminate_lem t before w r ok =
      let one = uj_sigtimer_stop os t.timer w in
      let two = uj_sigtimer_terminate os t.timer one.1 in
      elim (Bool-cases (uj_timerint_is_ticking t)) [
        | inr e ↦ absurd (err≢success (rw (e, uj_timerint_terminate) at ok))
        | inl e ↦ elim (status-cases one.0) [
          | inr bad ↦ absurd (err≢success (rw (e, bad, uj_timerint_terminate) at ok))
          | inl good ↦ elim (status-cases two.0) [
            | inr bad ↦ absurd (err≢success (rw (e, good, bad, uj_timerint_terminate) at ok))
            | inl good' ↦
                let (handlers, lives) =
                  terminate-Restored os t.timer before one.1
                    (stop-Installed os t.timer before w r good) good' in
                rw (e, good, good', uj_timerint_terminate) (refl, handlers, lives)
          ]
        ]
      ]

  -- A session of the timer leaves no trace: if `uj_timerint_init` succeeds, the signal comes `n`
  -- times, and `uj_timerint_terminate` succeeds, then every signal has its old action, the timers
  -- that exist are those from before, the flags are as before, and the ticks are those that came.
  pub session-restores :
      (signo n : ℕ) (t : Timerint) (w : World)
      → t.flags < 4
      → let a = uj_timerint_init os handler_address signo t w in
        let b = uj_timerint_terminate os handler_address (after_ticks n a.1) a.2 in
        a.0 ≡ luae_int_success
        → b.0 ≡ luae_int_success
        → ((s : ℕ) → handler b.2 s ≡ handler w s)
          × ((i : ℕ) → live b.2 i ≡ live w i)
          × (b.1.flags ≡ t.flags)
          × (b.1.ticks % 2 ^ 64 ≡ n % 2 ^ 64)
  session-restores signo n t w small ok ok' =
      let a = uj_timerint_init os handler_address signo t w in
      let (idle, flags, ticks, runs) = init_lem signo t w ok in
      let (same_timer, same_flags, counted) = after_ticks_lem n a.1 in
      let (end_, handlers, lives) =
        terminate_lem (after_ticks n a.1) w a.2
          (subst (λ timer. Runs os timer w a.2) (sym same_timer) runs) ok' in
      (
        handlers,
        lives,
        ap (λ u. u.flags) end_
            ∙ (ap (λ f. bit_and f 0xfffffffffffffffe) (same_flags ∙ flags)
                ∙ set-clear t.flags small idle),
        ap (λ u. u.ticks % 2 ^ 64) end_ ∙ (counted ∙ rw ticks (omega arith)),
      )

  ticking_init_default :
      (t : Timerint) (w : World)
      → uj_timerint_is_ticking t ≡ true
      → uj_timerint_init_default os handler_address t w ≡ (luae_int_success, t, w)
  unfolding uj_timerint_init_default
  ticking_init_default t w e = rw (e, uj_timerint_init_default) refl

  other_terminate_default :
      (t : Timerint) (w : World)
      → has_flag timerint_default_init t ≡ false
      → uj_timerint_terminate_default os handler_address t w ≡ (luae_int_success, t, w)
  unfolding uj_timerint_terminate_default
  other_terminate_default t w e = rw (e, uj_timerint_terminate_default) refl

  terminated_flags :
      (t : Timerint) (w : World)
      → let b = uj_timerint_terminate os handler_address t w in
        b.0 ≡ luae_int_success → b.1 ≡ clear_flag timerint_is_ticking t
  unfolding uj_timerint_terminate
  terminated_flags t w ok =
      let one = uj_sigtimer_stop os t.timer w in
      let two = uj_sigtimer_terminate os t.timer one.1 in
      elim (Bool-cases (uj_timerint_is_ticking t)) [
        | inr e ↦ absurd (err≢success (rw (e, uj_timerint_terminate) at ok))
        | inl e ↦ elim (status-cases one.0) [
          | inr bad ↦ absurd (err≢success (rw (e, bad, uj_timerint_terminate) at ok))
          | inl good ↦ elim (status-cases two.0) [
            | inr bad ↦ absurd (err≢success (rw (e, good, bad, uj_timerint_terminate) at ok))
            | inl good' ↦ rw (e, good, good', uj_timerint_terminate) refl
          ]
        ]
      ]

  -- Where `uj_timerint_init_default` succeeded, a second call of it in a row succeeds and changes
  -- nothing, neither the timer nor the system.
  pub init_default_again :
      (t : Timerint) (w : World)
      → t.flags < 4
      → let a = uj_timerint_init_default os handler_address t w in
        a.0 ≡ luae_int_success → uj_timerint_init_default os handler_address a.1 a.2 ≡ a
  unfolding uj_timerint_init_default
  init_default_again t w small ok =
      let one = uj_timerint_init os handler_address timerint_default_signo t w in
      elim (Bool-cases (uj_timerint_is_ticking t)) [
        | inl e ↦
            subst (λ r. uj_timerint_init_default os handler_address r.1 r.2 ≡ r)
              (sym (ticking_init_default t w e)) (ticking_init_default t w e)
        | inr e ↦ elim (int-cases one.0) [
          | inr bad ↦ absurd (err≢success (rw (e, bad, uj_timerint_init_default) at ok))
          | inl good ↦
              let again = set_flag timerint_default_init one.1 in
              let a_is : uj_timerint_init_default os handler_address t w
                  ≡ (luae_int_success, again, one.2) =
                rw (e, good, uj_timerint_init_default) refl in
              let flags = (init_lem timerint_default_signo t w good).1 in
              let on : uj_timerint_is_ticking again ≡ true = rw flags (both_set t.flags small) in
              subst (λ r. uj_timerint_init_default os handler_address r.1 r.2 ≡ r) (sym a_is)
                (ticking_init_default again one.2 on)
        ]
      ]

  -- Where `uj_timerint_terminate_default` succeeded, a second call of it in a row succeeds and
  -- changes nothing, neither the timer nor the system.
  pub terminate_default_again :
      (t : Timerint) (w : World)
      → t.flags < 4
      → let b = uj_timerint_terminate_default os handler_address t w in
        b.0 ≡ luae_int_success → uj_timerint_terminate_default os handler_address b.1 b.2 ≡ b
  unfolding uj_timerint_terminate_default
  terminate_default_again t w small ok =
      let one = uj_timerint_terminate os handler_address t w in
      elim (Bool-cases (has_flag timerint_default_init t)) [
        | inr e ↦
            subst (λ r. uj_timerint_terminate_default os handler_address r.1 r.2 ≡ r)
              (sym (other_terminate_default t w e)) (other_terminate_default t w e)
        | inl e ↦ elim (int-cases one.0) [
          | inr bad ↦ absurd (err≢success (rw (e, bad, uj_timerint_terminate_default) at ok))
          | inl good ↦
              let again = clear_flag timerint_default_init one.1 in
              let b_is : uj_timerint_terminate_default os handler_address t w
                  ≡ (luae_int_success, again, one.2) =
                rw (e, good, uj_timerint_terminate_default) refl in
              let flags = ap (λ u. u.flags) (terminated_flags t w good) in
              let off : has_flag timerint_default_init again ≡ false =
                rw flags (both_clear t.flags small) in
              subst (λ r. uj_timerint_terminate_default os handler_address r.1 r.2 ≡ r) (sym b_is)
                (other_terminate_default again one.2 off)
        ]
      ]
