-- ===== src/UjpWrite/Frames.antt =====
-- src/profile/ujp_write.c: the writers of frames, and src/profile/ujp_write.h: their constants.
use luavela.Base.{ℕ, ◌*◌, ◌%◌, ◌^◌, List, bit_or}
use luavela.UjpWrite.{Kernel, State, ujp_write_byte, ujp_write_u64, ujp_write_string}

abbrev pub frame_top : ℕ
frame_top = 0x1

abbrev pub frame_bottom : ℕ
frame_bottom = 0x2

abbrev pub frame_explicit_symbol : ℕ
frame_explicit_symbol = 0x4

abbrev pub frame_type_main : ℕ
frame_type_main = 0x1

abbrev pub frame_type_lfunc : ℕ
frame_type_lfunc = 0x2

abbrev pub frame_type_cfunc : ℕ
frame_type_cfunc = 0x3

abbrev pub frame_type_ffunc : ℕ
frame_type_ffunc = 0x4

abbrev pub frame_type_trace : ℕ
frame_type_trace = 0x5

abbrev pub frame_type_host : ℕ
frame_type_host = 0x6

abbrev pub frame_id_main_lua : ℕ
frame_id_main_lua = 0x0

abbrev pub frame_for_leaf_profile : ℕ
frame_for_leaf_profile = bit_or frame_top frame_bottom

-- `*frame_type |= (type << 3)` on a uint8_t.
unfoldable pub write_set_frame_type : ℕ → ℕ → ℕ
write_set_frame_type frame_type type = bit_or frame_type (type * 2 ^ 3) % 2 ^ 8

unfoldable pub write_set_frame_flag : ℕ → ℕ → ℕ
write_set_frame_flag frame_type flag = bit_or frame_type flag % 2 ^ 8

module _ (k : Kernel) where
  unfoldable pub write_frame_common : ℕ → ℕ → State k → State k
  write_frame_common header id s = ujp_write_u64 k id (ujp_write_byte k header s)

  unfoldable pub ujp_write_main_lua : ℕ → State k → State k
  ujp_write_main_lua frame_type =
      write_frame_common (write_set_frame_type frame_type frame_type_main) frame_id_main_lua

  unfoldable pub ujp_write_marked_lfunc : ℕ → ℕ → State k → State k
  ujp_write_marked_lfunc frame_type pt =
      write_frame_common (write_set_frame_type frame_type frame_type_lfunc) pt

  unfoldable pub ujp_write_new_lfunc : ℕ → ℕ → List ℕ → ℕ → State k → State k
  ujp_write_new_lfunc frame_type pt name fl s =
      let typed = write_set_frame_type frame_type frame_type_lfunc in
      let header = write_set_frame_flag typed frame_explicit_symbol in
      ujp_write_u64 k fl (ujp_write_string k name (write_frame_common header pt s))

  unfoldable pub ujp_write_bottom_frame : State k → State k
  ujp_write_bottom_frame =
      write_frame_common (write_set_frame_type frame_bottom frame_type_main) frame_id_main_lua

  unfoldable pub ujp_write_cfunc : ℕ → ℕ → State k → State k
  ujp_write_cfunc frame_type cf =
      write_frame_common (write_set_frame_type frame_type frame_type_cfunc) cf

  unfoldable pub ujp_write_ffunc : ℕ → ℕ → State k → State k
  ujp_write_ffunc frame_type ffid =
      write_frame_common (write_set_frame_type frame_type frame_type_ffunc) ffid

  unfoldable pub ujp_write_hvmstate : ℕ → State k → State k
  ujp_write_hvmstate addr =
      write_frame_common (write_set_frame_type frame_for_leaf_profile frame_type_host) addr

  unfoldable pub ujp_write_new_trace : ℕ → ℕ → ℕ → List ℕ → ℕ → State k → State k
  ujp_write_new_trace frame_type generation traceno name line s =
      let typed = write_set_frame_type frame_type frame_type_trace in
      let header = write_set_frame_flag typed frame_explicit_symbol in
      let s₁ = write_frame_common header traceno s in
      ujp_write_u64 k line (ujp_write_string k name (ujp_write_u64 k generation s₁))

  unfoldable pub ujp_write_marked_trace : ℕ → ℕ → ℕ → State k → State k
  ujp_write_marked_trace frame_type generation traceno s =
      let header = write_set_frame_type frame_type frame_type_trace in
      ujp_write_u64 k generation (write_frame_common header traceno s)
