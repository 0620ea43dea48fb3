-- ===== src/Tests/Profiler.antt =====
-- The event stream written through a descriptor that takes three bytes at a time.
use luavela.Base.{ℕ, ◌≡◌, refl, List, [], ◌∷◌, ◌++◌, length, take, min, arith, All}
use luavela.UjpWrite.{Kernel, State, Reply, written, taken, ujp_write_init, ujp_write_flush_buffer}
use luavela.UjpWrite.{ujp_write_byte, ujp_write_u64, ujp_write_string, write_buffer, write_reserve}
use luavela.UjpWrite.{put, write_buffer_sys, write_loop, after_write, write_buffer_has}
use luavela.UjpWrite.{write_bytes_buffered, write_memcpy, copy_loop, write_set_io_error}
use luavela.UjpWrite.{ujp_write_test_flag}
use luavela.UjpWrite.Frames.{write_frame_common, write_set_frame_type, write_set_frame_flag}
use luavela.UjpWrite.Frames.{ujp_write_new_lfunc, ujp_write_bottom_frame, ujp_write_marked_trace}
use luavela.UjpWrite.Emits.{Emits, IsReady}
use luavela.UjpWrite.Stream.{Frame, new_lfunc, bottom, marked_trace, FitsU64, formats}
use luavela.UjpWrite.Stream.{write_frame, write_frames, write_frames-Emits, session_sends}
use luavela.Leb128.{write_uleb128}
use luavela.Base.Order.{ends}
use native.Mathlib.Decide.{ℕ_discrete}

slow_write : (fd : ℕ) (buf : List ℕ) → List ℕ → Reply buf × List ℕ
slow_write fd buf w = (
  written (min 3 (length buf)) (omega arith) (λ h. omega arith),
  w ++ take (min 3 (length buf)) buf,
)

slow_write_lem :
    (fd : ℕ) (buf : List ℕ) (w : List ℕ)
    → (slow_write fd buf w).1 ≡ w ++ take (taken (slow_write fd buf w).0) buf
unfolding slow_write
slow_write_lem fd buf w = refl

-- What was sent is the world.
abbrev slow : Kernel
slow = record { World = List ℕ; sent = λ w. w; write = slow_write; sent-write = slow_write_lem }

program : Unit {0}
unfolding slow_write write_uleb128 ends ℕ_discrete ujp_write_init ujp_write_flush_buffer
    ujp_write_byte ujp_write_u64 ujp_write_string write_buffer write_reserve put write_buffer_sys
    write_loop after_write write_buffer_has write_bytes_buffered write_memcpy copy_loop
    write_set_io_error ujp_write_test_flag write_frame_common write_set_frame_type
    write_set_frame_flag ujp_write_new_lfunc ujp_write_bottom_frame ujp_write_marked_trace
    write_frame write_frames
program = tt

-- A function with a name of twelve characters, longer than the buffer of ten.
abbrev frames : List Frame
frames =
    new_lfunc 1 300
      (b'l' ∷ b'o' ∷ b'n' ∷ b'g' ∷ b'_' ∷ b'f' ∷ b'u' ∷ b'n' ∷ b'c' ∷ b't' ∷ b'i' ∷ b'o' ∷ []) 7
    ∷ bottom
    ∷ marked_trace 3 1 2
    ∷ []

abbrev start : State slow
start = (ujp_write_init 5 10, 0x55 ∷ [])

start-IsReady : IsReady slow start
unfolding ujp_write_init
start-IsReady = record { room = omega arith; fits = omega arith }

frames_fit : All FitsU64 frames
frames_fit = omega arith

write_frames-Emits_example : Emits slow start (write_frames slow frames start) (formats frames)
write_frames-Emits_example = write_frames-Emits slow frames start frames_fit start-IsReady

session_sends_example :
    (ujp_write_flush_buffer slow (write_frames slow frames start)).1 ≡ (0x55 ∷ []) ++ formats frames
session_sends_example =
    session_sends slow frames 5 10 (0x55 ∷ []) frames_fit (omega arith) (unfold program in refl)
