-- ===== src/UjpWrite.antt =====
-- src/profile/ujp_write.c: the buffered writer of the profiler's event stream.
-- The memory from `buf` up to `pos` is the list `pending`. The write system call is a
-- parameter, a `Kernel`. A C string is the list of its characters, without the final 0.
pub mod Frames
pub mod Sends
pub mod Emits
pub mod Stream
pub mod Header
use luavela.Base.{ℕ, zero, suc, ◌+◌, ◌-◌, ◌*◌, ◌/◌, ◌%◌, ◌^◌, ◌≤◌, ◌<◌, bit_and, bit_or}
use luavela.Base.{◌≡◌, Bool, true, false, not, List, [], ◌∷◌, ◌++◌, arith}
use luavela.Base.{ltb, leb, if◌then◌else◌, length, take, drop, length-drop}
use luavela.Base.Order.{Smaller, ends}
use luavela.Leb128.{write_uleb128, leb128_u64_maxsize}
use mathlib.Core.Logic.{◌≢◌, dite}
use mathlib.Core.WellFounded.{Acc}
use native.Mathlib.Decide.{ℕ_discrete}

-- What write(2) answers for a buffer: -1, or a count of at most the buffer's length, which is
-- not 0 if the buffer is not empty.
pub data Reply (buf : List ℕ) : Type 0 where
  failed : Reply buf
  written : (n : ℕ) → n ≤ length buf → (0 < length buf → 0 < n) → Reply buf

abbrev pub taken : {buf : List ℕ} → Reply buf → ℕ
taken failed = 0
taken (written n _ _) = n

-- The operating system: `sent` is what was written to a descriptor so far.
pub record Kernel : Type 1 where
  pub World : Type 0
  pub sent : World → List ℕ
  pub write : (fd : ℕ) (buf : List ℕ) → World → Reply buf × World
  pub sent-write :
      (fd : ℕ) (buf : List ℕ) (w : World)
      → sent (write fd buf w).1 ≡ sent w ++ take (taken (write fd buf w).0) buf

-- `fd` is the bit pattern of the int.
pub record UjpBuffer : Type 0 where
  pub fd : ℕ
  pub pending : List ℕ
  pub size : ℕ
  pub flags : ℕ

abbrev pub stream_err_io : ℕ
stream_err_io = 0x1

unfoldable pub ujp_write_test_flag : UjpBuffer → ℕ → ℕ
ujp_write_test_flag buf flag = bit_and buf.flags flag

unfoldable pub write_set_io_error : UjpBuffer → UjpBuffer
write_set_io_error buf = record buf { flags = bit_or buf.flags stream_err_io }

unfoldable pub ujp_write_init : ℕ → ℕ → UjpBuffer
ujp_write_init fd size = record { fd = fd; pending = []; size = size; flags = 0 }

unfoldable pub ujp_write_terminate : UjpBuffer
ujp_write_terminate = ujp_write_init (2 ^ 32 - 1) 0

-- The two loops of `write_memcpy`: `out` is what was copied, in steps of `unit` bytes.
unfoldable pub copy_loop : ℕ → ℕ → List ℕ → List ℕ → List ℕ × List ℕ
copy_loop unit zero out src = (out, src)
copy_loop unit (suc loops) out src = copy_loop unit loops (out ++ take unit src) (drop unit src)

unfoldable pub write_memcpy : List ℕ → ℕ → List ℕ
write_memcpy src n =
    let words = copy_loop 8 (n / 8) [] src in (copy_loop 1 (n % 8) words.0 words.1).0

unfoldable pub write_bytes_buffered : UjpBuffer → ℕ
write_bytes_buffered buf = length buf.pending

unfoldable pub write_buffer_has : UjpBuffer → ℕ → Bool
write_buffer_has buf n = leb n (buf.size - write_bytes_buffered buf)

pub short_write :
    (buf : List ℕ) (n : ℕ)
    → n ≤ length buf
    → (0 < length buf → 0 < n)
    → n ≢ length buf
    → length (drop n buf) < length buf
short_write buf n le pos ne = rw length-drop (omega arith)

module _ (k : Kernel) where
  open k use {World, write}

  -- One round of `write_buffer_sys`: an error, the whole buffer, or a part of it. The result
  -- tells whether the loop ended by an error.
  unfoldable pub after_write :
      (buf : List ℕ)
      → Reply buf
      → World
      → ((n : ℕ) → length (drop n buf) < length buf → Bool × World)
      → Bool × World
  after_write buf failed w more = (true, w)
  after_write buf (written n le pos) w more =
      dite (ℕ_discrete n (length buf)) (λ _. (false, w))
        (λ ne. more n (short_write buf n le pos ne))

  unfoldable pub write_loop :
      (fd : ℕ) (buf : List ℕ) → World → Acc (Smaller (length {A = ℕ})) buf → Bool × World
  write_loop fd buf w (Acc.intro _ smaller) =
      let reply = write fd buf w in
      after_write buf reply.0 reply.1
        (λ n shorter. write_loop fd (drop n buf) reply.1 (smaller (drop n buf) shorter))

  -- The buffer with the world around it.
  abbrev pub State : Type 0
  State = UjpBuffer × World

  unfoldable pub write_buffer_sys : List ℕ → State → State
  write_buffer_sys bytes (buf, w) =
      let done = write_loop buf.fd bytes w (ends (length {A = ℕ}) bytes) in
      (if done.0 then write_set_io_error buf else buf, done.1)

  unfoldable pub ujp_write_flush_buffer : State → State
  ujp_write_flush_buffer s =
      let s' = write_buffer_sys s.0.pending s in (record (s'.0) { pending = [] }, s'.1)

  unfoldable pub write_reserve : ℕ → State → State
  write_reserve n s = if not (write_buffer_has s.0 n) then ujp_write_flush_buffer s else s

  -- `pos` moves behind the bytes that were put there.
  unfoldable pub put : List ℕ → State → State
  put bytes (buf, w) = (record buf { pending = buf.pending ++ bytes }, w)

  unfoldable pub ujp_write_byte : ℕ → State → State
  ujp_write_byte b s = put (b ∷ []) (write_reserve 1 s)

  unfoldable pub ujp_write_u64 : ℕ → State → State
  ujp_write_u64 n s = put (write_uleb128 n) (write_reserve leb128_u64_maxsize s)

  unfoldable pub write_buffer : List ℕ → ℕ → State → State
  write_buffer src n s =
      if ltb s.0.size n
      then write_buffer_sys (take n src) (ujp_write_flush_buffer s)
      else put (write_memcpy src n) (write_reserve n s)

  unfoldable pub ujp_write_string : List ℕ → State → State
  ujp_write_string str s = let l = length str in write_buffer str l (ujp_write_u64 l s)
