-- ===== src/UjpWrite/Sends.antt =====
-- The copy loop, and the loop around the system call: it ends, and without an error it has
-- sent the whole buffer.
use luavela.Base.{ℕ, zero, suc, ◌+◌, ◌*◌, ◌/◌, ◌%◌, ◌<◌, bit_and, bit_or}
use luavela.Base.{◌≡◌, refl, ◌∙◌, Bool, true, false, List, [], ◌++◌, arith}
use luavela.Base.{append-nil, append_assoc}
use luavela.Base.{if◌then◌else◌, length, take, drop}
use luavela.Base.{take-add, drop-add, take-append-drop, take_all}
use luavela.Base.Bits.{bit_or_digit, bit_and_mask}
use luavela.Base.Order.{Smaller, ends}
use mathlib.Core.Logic.{◌≢◌, dite}
use mathlib.Core.WellFounded.{Acc}
use native.Mathlib.Decide.{ℕ_discrete}
use luavela.UjpWrite.{Reply, failed, written, taken, Kernel, UjpBuffer, State, stream_err_io}
use luavela.UjpWrite.{ujp_write_test_flag, write_set_io_error, copy_loop, write_memcpy}
use luavela.UjpWrite.{short_write, after_write, write_loop, write_buffer_sys}

copy_loop_lem :
    (unit loops : ℕ) (out src : List ℕ)
    → (copy_loop unit loops out src).0 ≡ out ++ take (loops * unit) src
unfolding copy_loop
copy_loop_lem unit zero out src = let e : 0 * unit ≡ 0 = omega arith in rw (e, append-nil)
copy_loop_lem unit (suc loops) out src =
    let e : suc loops * unit ≡ unit + loops * unit = omega arith in
    rw (copy_loop_lem unit loops, e, take-add, append_assoc)

copy_loop_rest :
    (unit loops : ℕ) (out src : List ℕ) → (copy_loop unit loops out src).1 ≡ drop (loops * unit) src
unfolding copy_loop
copy_loop_rest unit zero out src = let e : 0 * unit ≡ 0 = omega arith in rw e
copy_loop_rest unit (suc loops) out src =
    let e : suc loops * unit ≡ unit + loops * unit = omega arith in
    rw (copy_loop_rest unit loops, e, drop-add)

-- Copying by words of 8 bytes and then by bytes copies the first `n` bytes.
pub write_memcpy-take : (src : List ℕ) (n : ℕ) → write_memcpy src n ≡ take n src
unfolding write_memcpy
write_memcpy-take src n =
    let words = copy_loop_lem 8 (n / 8) [] src in
    let rest = copy_loop_rest 8 (n / 8) [] src in
    let whole : n / 8 * 8 + n % 8 * 1 ≡ n = omega arith in
    copy_loop_lem 1 (n % 8) _ _
    ∙ rw (words, rest) (rw (← take-add (n / 8 * 8) (n % 8 * 1) src) (rw whole))

io_error_set : (f : ℕ) → bit_and (bit_or f 1) 1 ≡ 1
io_error_set f = omega (arith, bit_and_mask 1 (bit_or f 1), bit_or_digit f 1)

module _ (k : Kernel) where
  open k use {World, sent, write, sent-write}

  -- No write to the descriptor has failed yet.
  abbrev pub Clean : State k → Type 0
  Clean s = ujp_write_test_flag s.0 stream_err_io ≡ 0

  abbrev pub stream : State k → List ℕ
  stream s = sent s.1 ++ s.0.pending

  after_write_sent :
      (buf : List ℕ) (r : Reply buf) (w₀ w : World)
      (more : (n : ℕ) → length (drop n buf) < length buf → Bool × World)
      → sent w ≡ sent w₀ ++ take (taken r) buf
      → ((n : ℕ) (p : length (drop n buf) < length buf)
          → (more n p).0 ≡ false
          → sent (more n p).1 ≡ sent w ++ drop n buf)
      → (after_write k buf r w more).0 ≡ false
      → sent (after_write k buf r w more).1 ≡ sent w₀ ++ buf
  unfolding after_write
  after_write_sent buf failed w₀ w more e ih = λ h. cc
  after_write_sent buf (written n le pos) w₀ w more e ih = by_count (ℕ_discrete n (length buf))
    where
      next : n ≢ length buf → Bool × World
      next ne = more n (short_write buf n le pos ne)

      by_count :
          (d : Dec (n ≡ length buf))
          → (dite d (λ _. (false, w)) next).0 ≡ false
          → sent (dite d (λ _. (false, w)) next).1 ≡ sent w₀ ++ buf
      by_count (yes all) h = e ∙ rw (all, take_all)
      by_count (no ne) h =
          ih n (short_write buf n le pos ne) h ∙ rw (e, append_assoc, take-append-drop)

  write_loop_sent :
      (fd : ℕ) (buf : List ℕ) (w : World) (a : Acc (Smaller (length {A = ℕ})) buf)
      → (write_loop k fd buf w a).0 ≡ false
      → sent (write_loop k fd buf w a).1 ≡ sent w ++ buf
  unfolding write_loop
  write_loop_sent fd buf w (Acc.intro _ smaller) =
      let reply = write fd buf w in
      after_write_sent buf reply.0 w reply.1 _ (sent-write fd buf w)
        (λ n p. write_loop_sent fd (drop n buf) reply.1 (smaller (drop n buf) p))

  -- What the system call loop does to the state.
  pub record Sends (s t : State k) (bytes : List ℕ) : Type 0 where
    pub fd : t.0.fd ≡ s.0.fd
    pub size : t.0.size ≡ s.0.size
    pub pending : t.0.pending ≡ s.0.pending
    pub sticky : Clean t → Clean s
    pub sends : Clean t → sent t.1 ≡ sent s.1 ++ bytes

  outcome-Sends :
      (bytes : List ℕ) (buf : UjpBuffer) (w : World) (done : Bool × World)
      → (done.0 ≡ false → sent done.1 ≡ sent w ++ bytes)
      → Sends (buf, w) (if done.0 then write_set_io_error buf else buf, done.1) bytes
  unfolding write_set_io_error ujp_write_test_flag
  outcome-Sends bytes buf w (true, w') h = record {
    fd = refl;
    size = refl;
    pending = refl;
    sticky = λ c. absurd (omega (arith, io_error_set buf.flags));
    sends = λ c. absurd (omega (arith, io_error_set buf.flags));
  }
  outcome-Sends bytes buf w (false, w') h = record {
    fd = refl;
    size = refl;
    pending = refl;
    sticky = λ c. c;
    sends = λ c. h refl;
  }

  pub write_buffer_sys-Sends :
      (bytes : List ℕ) (s : State k) → Sends s (write_buffer_sys k bytes s) bytes
  unfolding write_buffer_sys
  write_buffer_sys-Sends bytes (buf, w) =
      outcome-Sends bytes buf w (write_loop k buf.fd bytes w (ends (length {A = ℕ}) bytes))
        (write_loop_sent buf.fd bytes w (ends (length {A = ℕ}) bytes))
