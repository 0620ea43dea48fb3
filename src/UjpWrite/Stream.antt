-- ===== src/UjpWrite/Stream.antt =====
-- The format of the stream: what each frame writer adds, for whole sequences of frames.
use luavela.Base.{ℕ, ◌≤◌}
use luavela.Base.{◌≡◌, refl, sym, List, [], ◌∷◌, ◌++◌, append-nil, length, All, arith}
use luavela.Leb128.{write_uleb128, IsU64}
use luavela.UjpWrite.{Kernel, State, ujp_write_byte}
use luavela.UjpWrite.{ujp_write_init, ujp_write_flush_buffer}
use luavela.UjpWrite.Frames.{frame_bottom, frame_explicit_symbol, frame_for_leaf_profile}
use luavela.UjpWrite.Frames.{frame_type_main, frame_type_lfunc, frame_type_cfunc}
use luavela.UjpWrite.Frames.{frame_type_ffunc, frame_type_trace, frame_type_host}
use luavela.UjpWrite.Frames.{write_set_frame_type, write_set_frame_flag, write_frame_common}
use luavela.UjpWrite.Frames.{ujp_write_main_lua, ujp_write_marked_lfunc, ujp_write_new_lfunc}
use luavela.UjpWrite.Frames.{ujp_write_bottom_frame, ujp_write_cfunc, ujp_write_ffunc}
use luavela.UjpWrite.Frames.{ujp_write_hvmstate, ujp_write_new_trace, ujp_write_marked_trace}
use luavela.UjpWrite.Emits.{Emits, IsReady, Emits-IsReady, Emits-trans, flush-Emits, flushed}
use luavela.UjpWrite.Sends.{Clean}
use luavela.UjpWrite.Emits.{ujp_write_byte-Emits, ujp_write_u64-Emits, ujp_write_string-Emits}

-- The frames that the profiler reports, one constructor for each writer. The first number of
-- most is the position of the frame: top, bottom, both or neither.
pub data Frame : Type 0 where
  main_lua : ℕ → Frame
  marked_lfunc : ℕ → ℕ → Frame
  new_lfunc : ℕ → ℕ → List ℕ → ℕ → Frame
  bottom : Frame
  cfunc ffunc : ℕ → ℕ → Frame
  hvmstate : ℕ → Frame
  new_trace : ℕ → ℕ → ℕ → List ℕ → ℕ → Frame
  marked_trace : ℕ → ℕ → ℕ → Frame

-- The numbers are uint64_t.
abbrev pub FitsU64 : Frame → Type 0
FitsU64 (main_lua t) = Unit
FitsU64 (marked_lfunc t pt) = IsU64 pt
FitsU64 (new_lfunc t pt name fl) = IsU64 pt × IsU64 (length name) × IsU64 fl
FitsU64 bottom = Unit
FitsU64 (cfunc t cf) = IsU64 cf
FitsU64 (ffunc t id) = IsU64 id
FitsU64 (hvmstate addr) = IsU64 addr
FitsU64 (new_trace t generation traceno name line) =
    IsU64 generation × IsU64 traceno × IsU64 (length name) × IsU64 line
FitsU64 (marked_trace t generation traceno) = IsU64 generation × IsU64 traceno

abbrev sym_string : List ℕ → List ℕ
sym_string s = write_uleb128 (length s) ++ s

-- The grammar of ujp_write.h: a header byte, the frame's id, and for a new symbol the trace
-- generation, the name and the line.
abbrev frame_bytes : ℕ → ℕ → List ℕ → List ℕ
frame_bytes header id info = (header ∷ []) ++ (write_uleb128 id ++ info)

abbrev pub format : Frame → List ℕ
format (main_lua t) = frame_bytes (write_set_frame_type t frame_type_main) 0 []
format (marked_lfunc t pt) = frame_bytes (write_set_frame_type t frame_type_lfunc) pt []
format (new_lfunc t pt name fl) =
    frame_bytes
      (write_set_frame_flag (write_set_frame_type t frame_type_lfunc) frame_explicit_symbol) pt
      (sym_string name ++ write_uleb128 fl)
format bottom = frame_bytes (write_set_frame_type frame_bottom frame_type_main) 0 []
format (cfunc t cf) = frame_bytes (write_set_frame_type t frame_type_cfunc) cf []
format (ffunc t id) = frame_bytes (write_set_frame_type t frame_type_ffunc) id []
format (hvmstate addr) =
    frame_bytes (write_set_frame_type frame_for_leaf_profile frame_type_host) addr []
format (new_trace t generation traceno name line) =
    frame_bytes
      (write_set_frame_flag (write_set_frame_type t frame_type_trace) frame_explicit_symbol) traceno
      (write_uleb128 generation ++ (sym_string name ++ write_uleb128 line))
format (marked_trace t generation traceno) =
    frame_bytes (write_set_frame_type t frame_type_trace) traceno (write_uleb128 generation)

abbrev pub formats : List Frame → List ℕ
formats [] = []
formats (f ∷ fs) = format f ++ formats fs

module _ (k : Kernel) where
  -- The writer of a frame.
  unfoldable pub write_frame : Frame → State k → State k
  write_frame (main_lua t) = ujp_write_main_lua k t
  write_frame (marked_lfunc t pt) = ujp_write_marked_lfunc k t pt
  write_frame (new_lfunc t pt name fl) = ujp_write_new_lfunc k t pt name fl
  write_frame bottom = ujp_write_bottom_frame k
  write_frame (cfunc t cf) = ujp_write_cfunc k t cf
  write_frame (ffunc t id) = ujp_write_ffunc k t id
  write_frame (hvmstate addr) = ujp_write_hvmstate k addr
  write_frame (new_trace t generation traceno name line) =
      ujp_write_new_trace k t generation traceno name line
  write_frame (marked_trace t generation traceno) = ujp_write_marked_trace k t generation traceno

  unfoldable pub write_frames : List Frame → State k → State k
  write_frames [] s = s
  write_frames (f ∷ fs) s = write_frames fs (write_frame f s)

  common-Emits :
      (header id : ℕ) (s : State k)
      → IsU64 id
      → IsReady k s
      → Emits k s (write_frame_common k header id s) (frame_bytes header id [])
  unfolding write_frame_common
  common-Emits header id s h r =
      let one = ujp_write_byte-Emits k header s r in
      rw append-nil (
        Emits-trans k s (ujp_write_byte k header s) _ (header ∷ []) (write_uleb128 id) one
          (ujp_write_u64-Emits k id (ujp_write_byte k header s) h (Emits-IsReady k s _ _ r one)))

  -- A frame with more behind its id.
  info-Emits :
      (header id : ℕ) (info : List ℕ) (s t : State k)
      → IsU64 id
      → IsReady k s
      → (IsReady k (write_frame_common k header id s)
          → Emits k (write_frame_common k header id s) t info)
      → Emits k s t (frame_bytes header id info)
  info-Emits header id info s t h r more =
      let first = common-Emits header id s h r in
      let ready = Emits-IsReady k s _ _ r first in
      rw append-nil at (
        Emits-trans k s (write_frame_common k header id s) t (frame_bytes header id []) info first
          (more ready))

  -- The writer of each frame adds its format.
  write_frame-Emits :
      (f : Frame) (s : State k) → FitsU64 f → IsReady k s → Emits k s (write_frame f s) (format f)
  unfolding write_frame ujp_write_main_lua ujp_write_marked_lfunc ujp_write_new_lfunc
      ujp_write_bottom_frame ujp_write_cfunc ujp_write_ffunc ujp_write_hvmstate ujp_write_new_trace
      ujp_write_marked_trace
  write_frame-Emits (main_lua t) s h r = common-Emits _ 0 s (omega arith) r
  write_frame-Emits (marked_lfunc t pt) s h r = common-Emits _ pt s h r
  write_frame-Emits (new_lfunc t pt name fl) s (hp, hn, hf) r = info-Emits _ pt _ s _ hp r (λ ready.
      let named = ujp_write_string-Emits k name _ hn ready in
      Emits-trans k _ _ _ _ (write_uleb128 fl) named
        (ujp_write_u64-Emits k fl _ hf (Emits-IsReady k _ _ _ ready named)))
  write_frame-Emits bottom s h r = common-Emits _ 0 s (omega arith) r
  write_frame-Emits (cfunc t cf) s h r = common-Emits _ cf s h r
  write_frame-Emits (ffunc t id) s h r = common-Emits _ id s h r
  write_frame-Emits (hvmstate addr) s h r = common-Emits _ addr s h r
  write_frame-Emits (new_trace t generation traceno name line) s (hg, ht, hn, hl) r =
      info-Emits _ traceno _ s _ ht r (λ ready.
        let first = ujp_write_u64-Emits k generation _ hg ready in
        let second = Emits-IsReady k _ _ _ ready first in
        let named = ujp_write_string-Emits k name _ hn second in
        Emits-trans k _ _ _ (write_uleb128 generation) _ first (
          Emits-trans k _ _ _ _ (write_uleb128 line) named
            (ujp_write_u64-Emits k line _ hl (Emits-IsReady k _ _ _ second named))))
  write_frame-Emits (marked_trace t generation traceno) s (hg, ht) r =
      info-Emits _ traceno _ s _ ht r (ujp_write_u64-Emits k generation _ hg)

  nothing-Emits : (s : State k) → IsReady k s → Emits k s s []
  nothing-Emits s r = record {
    fd = refl;
    size = refl;
    fits = r.fits;
    sticky = λ c. c;
    added = λ c. sym (append-nil _);
  }

  -- Any sequence of frame writers, on a buffer of at least 10 bytes, adds the frames' formats one
  -- after the other to the stream, wherever the buffer is flushed in between, unless a system
  -- call fails; pending bytes never exceed the buffer, and the error flag, once set, stays set.
  pub write_frames-Emits :
      (fs : List Frame) (s : State k)
      → All FitsU64 fs
      → IsReady k s
      → Emits k s (write_frames fs s) (formats fs)
  unfolding write_frames
  write_frames-Emits [] s h r = nothing-Emits s r
  write_frames-Emits (f ∷ fs) s h r =
      let first = write_frame-Emits f s h.0 r in
      Emits-trans k s (write_frame f s) _ (format f) (formats fs) first
        (write_frames-Emits fs (write_frame f s) h.1 (Emits-IsReady k s _ _ r first))

  -- From a fresh buffer of at least 10 bytes, after any sequence of frames and a flush, if no
  -- system call failed, the descriptor has received the frames' formats, in order and complete.
  pub session_sends :
      (fs : List Frame) (fd size : ℕ) (w : k.World)
      → All FitsU64 fs
      → 10 ≤ size
      → Clean k (ujp_write_flush_buffer k (write_frames fs (ujp_write_init fd size, w)))
      → k.sent (ujp_write_flush_buffer k (write_frames fs (ujp_write_init fd size, w))).1
        ≡ k.sent w ++ formats fs
  unfolding ujp_write_init
  session_sends fs fd size w h room clean =
      let s₀ : State k = (ujp_write_init fd size, w) in
      let t = write_frames fs s₀ in
      let ready : IsReady k s₀ = record { room = room; fits = omega arith } in
      let flush = flush-Emits k t in
      let whole = Emits-trans k s₀ t _ (formats fs) [] (write_frames-Emits fs s₀ h ready) flush in
      simp (flushed, append-nil) at (whole.added clean)
