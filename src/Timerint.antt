-- ===== src/Timerint.antt =====
-- src/uj_timerint.c: one timer whose signal counts ticks. `flags` is a uint64_t.
pub mod Session
use luavela.Base.{ℕ, ◌+◌, ◌-◌, ◌%◌, ◌^◌, ◌≡◌, ◌≢◌, bit_and, bit_or, Bool, true, false, not}
use luavela.Base.{◌==◌, if◌then◌else◌}
use luavela.Timer.{Os, Sigtimer, SigtimerOpt, SigtimerStatus, sigtimer_success, sigtimer_err}
use luavela.Timer.{uj_sigtimer_init, uj_sigtimer_start, uj_sigtimer_stop, uj_sigtimer_terminate}

abbrev pub timerint_is_ticking : ℕ
timerint_is_ticking = 0x1

abbrev pub timerint_default_init : ℕ
timerint_default_init = 0x2

abbrev pub timerint_interval_usec : ℕ
timerint_interval_usec = 1000

-- `SIGPROF`.
abbrev pub timerint_default_signo : ℕ
timerint_default_signo = 27

pub data IntStatus : Type 0 where
  luae_int_success : IntStatus
  luae_int_err : IntStatus

pub record Timerint : Type 0 where
  pub ticks : ℕ
  pub flags : ℕ
  pub timer : Sigtimer

-- `timerint.flags |= flag`.
abbrev pub set_flag : ℕ → Timerint → Timerint
set_flag flag t = record t { flags = bit_or t.flags flag }

-- `timerint.flags &= ~flag`.
abbrev pub clear_flag : ℕ → Timerint → Timerint
clear_flag flag t = record t { flags = bit_and t.flags (2 ^ 64 - 1 - flag) }

abbrev pub has_flag : ℕ → Timerint → Bool
has_flag flag t = not (bit_and t.flags flag == 0)

unfoldable pub timerint_handler : Timerint → Timerint
timerint_handler t = record t { ticks = (t.ticks + 1) % 2 ^ 64 }

abbrev pub uj_timerint_is_ticking : Timerint → Bool
uj_timerint_is_ticking t = has_flag timerint_is_ticking t

-- `handler` is the address of `timerint_handler`.
module _ (os : Os) (handler : ℕ) where
  open os use {World}

  unfoldable pub uj_timerint_init : ℕ → Timerint → World → IntStatus × Timerint × World
  uj_timerint_init signo t w =
      let opt : SigtimerOpt = record {
        signo = signo;
        usec = timerint_interval_usec;
        callback = handler;
      } in
      let (inited, timer, w1) = uj_sigtimer_init os t.timer opt w in
      let t1 : Timerint = record t { timer = timer } in
      let (started, timer', w2) = uj_sigtimer_start os timer w1 in
      let t2 : Timerint = record t { timer = timer' } in
      if uj_timerint_is_ticking t then (luae_int_err, t, w) else elim inited [
        | sigtimer_err ↦ (luae_int_err, t1, w1)
        | sigtimer_success ↦ elim started [
          | sigtimer_err ↦ (luae_int_err, t2, w2)
          | sigtimer_success ↦
              (luae_int_success, set_flag timerint_is_ticking (record t2 { ticks = 0 }), w2)
        ]
      ]

  unfoldable pub uj_timerint_init_default : Timerint → World → IntStatus × Timerint × World
  uj_timerint_init_default t w =
      let (status, t', w') = uj_timerint_init timerint_default_signo t w in
      if uj_timerint_is_ticking t then (luae_int_success, t, w) else elim status [
        | luae_int_success ↦ (luae_int_success, set_flag timerint_default_init t', w')
        | luae_int_err ↦ (luae_int_err, t', w')
      ]

  unfoldable pub uj_timerint_terminate : Timerint → World → IntStatus × Timerint × World
  uj_timerint_terminate t w =
      let (stopped, w1) = uj_sigtimer_stop os t.timer w in
      let (ended, w2) = uj_sigtimer_terminate os t.timer w1 in
      if not (uj_timerint_is_ticking t) then (luae_int_err, t, w) else elim stopped [
        | sigtimer_err ↦ (luae_int_err, t, w1)
        | sigtimer_success ↦ elim ended [
          | sigtimer_err ↦ (luae_int_err, t, w2)
          | sigtimer_success ↦ (luae_int_success, clear_flag timerint_is_ticking t, w2)
        ]
      ]

  unfoldable pub uj_timerint_terminate_default : Timerint → World → IntStatus × Timerint × World
  uj_timerint_terminate_default t w =
      let (status, t', w') = uj_timerint_terminate t w in
      if not (has_flag timerint_default_init t) then (luae_int_success, t, w) else elim status [
        | luae_int_success ↦ (luae_int_success, clear_flag timerint_default_init t', w')
        | luae_int_err ↦ (luae_int_err, t', w')
      ]
