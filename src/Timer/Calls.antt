-- ===== src/Timer/Calls.antt =====
-- What each of the timer's functions does where it succeeds.
use luavela.Base.{
  ℕ, ◌≡◌, ◌≢◌, refl, sym, ◌∙◌, ap, Bool, true, false, Option-cases, Bool-cases, inl, inr,
}
use luavela.Base.{◌⊎◌, ◌==◌, if◌then◌else◌, eqb→eq, ◌*◌, ◌/◌}
use luavela.Timer.{
  Os, Action, Sigtimer, SigtimerOpt, SigtimerStatus, sigtimer_success, sigtimer_err,
}
use luavela.Timer.{sigtimer_install_sa, sigtimer_uninstall_sa, sigtimer_create}
use luavela.Timer.{sigtimer_delete, sigtimer_start, sigtimer_stop}
use luavela.Timer.{uj_sigtimer_init, uj_sigtimer_start, uj_sigtimer_stop, uj_sigtimer_terminate}

err≢success : sigtimer_err ≢ sigtimer_success
err≢success h = cc

pub status-cases : (s : SigtimerStatus) → (s ≡ sigtimer_success) ⊎ (s ≡ sigtimer_err)
status-cases sigtimer_success = inl refl
status-cases sigtimer_err = inr refl

gone :
    (id j : ℕ) (lives : ℕ → Bool)
    → lives id ≡ false
    → (if id == j then false else if id == j then true else lives j) ≡ lives j
gone id j lives h = elim (Bool-cases (id == j)) [
  | inl e ↦ let off : lives j ≡ false = ap lives (sym (eqb→eq id j e)) ∙ h in cc
  | inr e ↦ cc
]

module _ (os : Os) where
  open os use {
    World, handler, live, sigaction, timer_create, timer_delete, timer_settime, gettid,
    sigaction-handler, sigaction-live, timer_create-live, timer_create-handler, timer_delete-live,
    timer_delete-handler, timer_settime-live, timer_settime-handler,
  }

  -- What a running timer has changed since `before`.
  pub record Runs (timer : Sigtimer) (before w : World) : Type 0 where
    pub saved : timer.old_sa ≡ handler before timer.opt.signo
    pub others : (s : ℕ) → timer.opt.signo == s ≡ false → handler w s ≡ handler before s
    pub new : live before timer.id ≡ false
    pub lives : (i : ℕ) → live w i ≡ (if timer.id == i then true else live before i)

  -- Only the action of the timer's signal has changed, and the old one is saved.
  pub record Installed (timer : Sigtimer) (before w : World) : Type 0 where
    pub saved : timer.old_sa ≡ handler before timer.opt.signo
    pub others : (s : ℕ) → timer.opt.signo == s ≡ false → handler w s ≡ handler before s
    pub lives : (i : ℕ) → live w i ≡ live before i

  pub init-Installed :
      (timer : Sigtimer) (opt : SigtimerOpt) (w : World)
      → let a = uj_sigtimer_init os timer opt w in a.0 ≡ sigtimer_success → Installed a.1 w a.2
  unfolding uj_sigtimer_init sigtimer_install_sa
  init-Installed timer opt w ok =
      let sa : Action = record { sa_flags = 0x10000004; sa_sigaction = opt.callback } in
      elim (Option-cases (sigaction opt.signo sa w).0) [
        | inl bad ↦ absurd (err≢success (rw (bad, uj_sigtimer_init, sigtimer_install_sa) at ok))
        | inr (old, good) ↦
            let h = sigaction-handler opt.signo sa old w good in
            rw (good, uj_sigtimer_init, sigtimer_install_sa)
              record {
                saved = h.0;
                others = λ s far. h.1 s ∙ rw far refl;
                lives = λ i. sigaction-live opt.signo sa w i;
              }
      ]

  create-Runs :
      (timer : Sigtimer) (before w : World)
      → Installed timer before w
      → let b = sigtimer_create os timer w in b.0 ≡ sigtimer_success → Runs b.1 before b.2
  unfolding sigtimer_create
  create-Runs timer before w i ok =
      elim (Option-cases (timer_create timer.opt.signo (gettid w) w).0) [
        | inl bad ↦ absurd (err≢success (rw (bad, sigtimer_create) at ok))
        | inr (id, good) ↦
            let made = timer_create-live timer.opt.signo (gettid w) id w good in
            rw (good, sigtimer_create)
              record {
                saved = i.saved;
                others =
                    λ s far. timer_create-handler timer.opt.signo (gettid w) w s ∙ i.others s far;
                new = sym (i.lives id) ∙ made.0;
                lives = λ j. made.1 j ∙ ap (λ b. if id == j then true else b) (i.lives j);
              }
      ]

  settime-Runs :
      (timer : Sigtimer) (before w : World)
      → Runs timer before w
      → Runs timer before (sigtimer_start os timer w).1
  unfolding sigtimer_start
  settime-Runs timer before w r =
      let sec = timer.opt.usec / 1000000 in
      let nsec = timer.opt.usec * 1000 in
      record {
        saved = r.saved;
        others = λ s far. timer_settime-handler timer.id sec nsec w s ∙ r.others s far;
        new = r.new;
        lives = λ j. timer_settime-live timer.id sec nsec w j ∙ r.lives j;
      }

  pub start-Runs :
      (timer : Sigtimer) (before w : World)
      → Installed timer before w
      → let b = uj_sigtimer_start os timer w in b.0 ≡ sigtimer_success → Runs b.1 before b.2
  unfolding uj_sigtimer_start
  start-Runs timer before w i ok = elim (status-cases (sigtimer_create os timer w).0) [
    | inr bad ↦ absurd (err≢success (rw (bad, uj_sigtimer_start) at ok))
    | inl good ↦
        rw (good, uj_sigtimer_start) (settime-Runs _ before _ (create-Runs timer before w i good))
  ]

  pub stop-Installed :
      (timer : Sigtimer) (before w : World)
      → Runs timer before w
      → let a = uj_sigtimer_stop os timer w in a.0 ≡ sigtimer_success → Installed timer before a.1
  unfolding uj_sigtimer_stop sigtimer_stop sigtimer_delete
  stop-Installed timer before w r ok =
      let settled = timer_settime timer.id 0 0 w in
      elim (Bool-cases settled.0) [
        | inr bad ↦ absurd (err≢success (rw (bad, uj_sigtimer_stop, sigtimer_stop) at ok))
        | inl good ↦ elim (Bool-cases (timer_delete timer.id settled.1).0) [
          | inr bad ↦
              absurd (
                err≢success
                  (rw (good, bad, uj_sigtimer_stop, sigtimer_stop, sigtimer_delete) at ok))
          | inl good' ↦
              rw (good, uj_sigtimer_stop, sigtimer_stop, sigtimer_delete)
                record {
                  saved = r.saved;
                  others = λ s far.
                      timer_delete-handler timer.id settled.1 s
                      ∙ (timer_settime-handler timer.id 0 0 w s ∙ r.others s far);
                  lives = λ j.
                      timer_delete-live timer.id settled.1 good' j
                      ∙ (ap (λ b. if timer.id == j then false else b)
                            (timer_settime-live timer.id 0 0 w j ∙ r.lives j)
                          ∙ gone timer.id j (live before) r.new);
                }
        ]
      ]

  restored :
      (timer : Sigtimer) (before w : World)
      → Installed timer before w
      → (s : ℕ) → (if timer.opt.signo == s then timer.old_sa else handler w s) ≡ handler before s
  restored timer before w st s = elim (Bool-cases (timer.opt.signo == s)) [
    | inl e ↦ rw e (st.saved ∙ ap (handler before) (eqb→eq timer.opt.signo s e))
    | inr e ↦ rw e (st.others s e)
  ]

  pub terminate-Restored :
      (timer : Sigtimer) (before w : World)
      → Installed timer before w
      → let a = uj_sigtimer_terminate os timer w in
        a.0 ≡ sigtimer_success
        → ((s : ℕ) → handler a.1 s ≡ handler before s) × ((i : ℕ) → live a.1 i ≡ live before i)
  unfolding uj_sigtimer_terminate sigtimer_uninstall_sa
  terminate-Restored timer before w st ok =
      elim (Option-cases (sigaction timer.opt.signo timer.old_sa w).0) [
        | inl bad ↦
            absurd (err≢success (rw (bad, uj_sigtimer_terminate, sigtimer_uninstall_sa) at ok))
        | inr (old, good) ↦
            let h = sigaction-handler timer.opt.signo timer.old_sa old w good in
            rw (good, uj_sigtimer_terminate, sigtimer_uninstall_sa)
              (
                λ s. h.1 s ∙ restored timer before w st s,
                λ j. sigaction-live timer.opt.signo timer.old_sa w j ∙ st.lives j,
              )
      ]
