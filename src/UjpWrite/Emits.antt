-- ===== src/UjpWrite/Emits.antt =====
-- What an operation of the writer adds to the stream: the bytes that were sent, followed by
-- those that wait in the buffer.
use luavela.Base.{ℕ, ◌+◌, ◌-◌, ◌≤◌}
use luavela.Base.{◌≡◌, refl, sym, ◌∙◌, Bool, true, false, not, List, [], ◌∷◌, ◌++◌, arith}
use luavela.Base.{append-nil, append_assoc, Bool-cases, inl, inr}
use luavela.Base.{ltb, leb, leb→le, ltb→le, if◌then◌else◌, length, length-append}
use luavela.Base.{take_all}
use luavela.Leb128.{write_uleb128, IsU64}
use luavela.Leb128.Unsigned.{write_uleb128_shape}
use native.Mathlib.Nat.{le_refl}
use luavela.UjpWrite.{Kernel, State}
use luavela.UjpWrite.{ujp_write_test_flag}
use luavela.UjpWrite.{write_buffer_has, write_bytes_buffered}
use luavela.UjpWrite.{ujp_write_flush_buffer, write_reserve, put, ujp_write_byte, ujp_write_u64}
use luavela.UjpWrite.{write_buffer, ujp_write_string}
use luavela.UjpWrite.Sends.{write_memcpy-take, Clean, stream, Sends, write_buffer_sys-Sends}

module _ (k : Kernel) where
  open k use {World, sent, write, sent-write}

  -- From `s` to `t` the writer adds `bytes` to the stream, unless a write fails; it keeps its
  -- pending bytes within the buffer, and the error flag once it is set.
  pub record Emits (s t : State k) (bytes : List ℕ) : Type 0 where
    pub fd : t.0.fd ≡ s.0.fd
    pub size : t.0.size ≡ s.0.size
    pub fits : length t.0.pending ≤ t.0.size
    pub sticky : Clean k t → Clean k s
    pub added : Clean k t → stream k t ≡ stream k s ++ bytes

  -- Flushing moves the pending bytes out: the stream stays the same.
  pub flush-Emits : (s : State k) → Emits s (ujp_write_flush_buffer k s) []
  unfolding ujp_write_flush_buffer ujp_write_test_flag
  flush-Emits s =
      let sent_all = write_buffer_sys-Sends k s.0.pending s in
      record {
        fd = sent_all.fd;
        size = sent_all.size;
        fits = omega arith;
        sticky = λ c. sent_all.sticky c;
        added = λ c. rw (append-nil, append-nil) (sent_all.sends c);
      }

  pub Emits-trans :
      (s t u : State k) (a b : List ℕ) → Emits s t a → Emits t u b → Emits s u (a ++ b)
  Emits-trans s t u a b p q = record {
    fd = q.fd ∙ p.fd;
    size = q.size ∙ p.size;
    fits = q.fits;
    sticky = λ c. p.sticky (q.sticky c);
    added = λ c. q.added c ∙ rw (p.added (q.sticky c), append_assoc);
  }

  pub flushed : (s : State k) → (ujp_write_flush_buffer k s).0.pending ≡ []
  unfolding ujp_write_flush_buffer
  flushed s = refl

  -- After reserving `n` bytes the stream is the same and there is room for them.
  reserve-Emits :
      (n : ℕ) (s : State k)
      → n ≤ s.0.size
      → length s.0.pending ≤ s.0.size
      → Emits s (write_reserve k n s) [] × (length (write_reserve k n s).0.pending + n ≤ s.0.size)
  unfolding write_reserve write_buffer_has write_bytes_buffered
  reserve-Emits n s room fits = by_room (leb n (s.0.size - length s.0.pending)) refl
    where
      by_room :
          (b : Bool)
          → leb n (s.0.size - length s.0.pending) ≡ b
          → Emits s (if not b then ujp_write_flush_buffer k s else s) []
            × (length (if not b then ujp_write_flush_buffer k s else s).0.pending + n ≤ s.0.size)
      by_room true e = (
        record {
          fd = refl;
          size = refl;
          fits = fits;
          sticky = λ c. c;
          added = λ c. sym (append-nil _);
        },
        omega (arith, leb→le n _ e),
      )
      by_room false e = (flush-Emits s, rw flushed (omega arith))

  put-Emits :
      (bytes : List ℕ) (s : State k)
      → length s.0.pending + length bytes ≤ s.0.size
      → Emits s (put k bytes s) bytes
  unfolding put ujp_write_test_flag
  put-Emits bytes (buf, w) room = record {
    fd = refl;
    size = refl;
    fits = rw length-append room;
    sticky = λ c. c;
    added = λ c. sym (append_assoc (sent w) buf.pending bytes);
  }

  -- The buffer as the callers set it up: room for the longest number, and nothing past its end.
  pub record IsReady (s : State k) : Type 0 where
    pub room : 10 ≤ s.0.size
    pub fits : length s.0.pending ≤ s.0.size

  pub Emits-IsReady : (s t : State k) (a : List ℕ) → IsReady s → Emits s t a → IsReady t
  Emits-IsReady s t a r e = record { room = omega (arith, e.size, r.room); fits = e.fits }

  -- One reservation and what is put in it.
  reserve_put-Emits :
      (bytes : List ℕ) (n : ℕ) (s : State k)
      → IsReady s
      → n ≤ s.0.size
      → length bytes ≤ n
      → Emits s (put k bytes (write_reserve k n s)) bytes
  reserve_put-Emits bytes n s r room short =
      let (kept, space) = reserve-Emits n s room r.fits in
      Emits-trans s (write_reserve k n s) _ [] bytes kept
        (put-Emits bytes (write_reserve k n s) (omega (arith, kept.size)))

  -- A byte adds itself to the stream.
  pub ujp_write_byte-Emits :
      (b : ℕ) (s : State k) → IsReady s → Emits s (ujp_write_byte k b s) (b ∷ [])
  unfolding ujp_write_byte
  ujp_write_byte-Emits b s r =
      reserve_put-Emits (b ∷ []) 1 s r (omega (arith, r.room)) (omega arith)

  -- A uint64_t adds its ULEB128 encoding.
  pub ujp_write_u64-Emits :
      (n : ℕ) (s : State k) → IsU64 n → IsReady s → Emits s (ujp_write_u64 k n s) (write_uleb128 n)
  unfolding ujp_write_u64
  ujp_write_u64-Emits n s h r =
      reserve_put-Emits (write_uleb128 n) 10 s r r.room (write_uleb128_shape n h).2

  Sends-Emits :
      (s t u : State k) (bytes : List ℕ)
      → Emits s t []
      → t.0.pending ≡ []
      → Sends k t u bytes
      → Emits s u bytes
  Sends-Emits s t u bytes e empty h = record {
    fd = h.fd ∙ e.fd;
    size = h.size ∙ e.size;
    fits = rw (h.pending, empty) (omega arith);
    sticky = λ c. e.sticky (h.sticky c);
    added = λ c.
        let base : sent t.1 ≡ stream k s = simp (empty, append-nil) at (e.added (h.sticky c)) in
        rw (h.sends c, h.pending, empty, append-nil, base);
  }

  -- `n` bytes of a source add themselves, through the buffer or by a system call of their own.
  pub write_buffer-Emits :
      (src : List ℕ) (s : State k) → IsReady s → Emits s (write_buffer k src (length src) s) src
  unfolding write_buffer
  write_buffer-Emits src s r = elim (Bool-cases (ltb s.0.size (length src))) [
    | inl large ↦
        rw (large, take_all)
          (Sends-Emits s (ujp_write_flush_buffer k s) _ src (flush-Emits s) (flushed s)
            (write_buffer_sys-Sends k src (ujp_write_flush_buffer k s)))
    | inr small ↦
        rw (small, write_memcpy-take, take_all)
          (reserve_put-Emits src (length src) s r (ltb→le _ _ small) (le_refl _))
  ]

  -- A string adds its length as ULEB128 and then its characters.
  pub ujp_write_string-Emits :
      (str : List ℕ) (s : State k)
      → IsU64 (length str)
      → IsReady s
      → Emits s (ujp_write_string k str s) (write_uleb128 (length str) ++ str)
  unfolding ujp_write_string
  ujp_write_string-Emits str s h r =
      let first = ujp_write_u64-Emits (length str) s h r in
      let ready = Emits-IsReady s _ _ r first in
      Emits-trans s (ujp_write_u64 k (length str) s) _ _ str first
        (write_buffer-Emits str (ujp_write_u64 k (length str) s) ready)
