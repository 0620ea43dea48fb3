-- ===== src/Opt.antt =====
-- src/cli/opt.c: options of the command line, given as key=value behind an optional -X. A C
-- string is the list of its characters, without the final 0.
pub mod Accepts
use luavela.Base.{
  ℕ, Bool, true, false, ◌&&◌, List, [], ◌∷◌, ◌++◌, ◌==◌, if◌then◌else◌, length, drop,
}

abbrev pub ext_option_switch : List ℕ
ext_option_switch = b'-' ∷ b'X' ∷ []

abbrev pub hashf_prefix : List ℕ
hashf_prefix = b'h' ∷ b'a' ∷ b's' ∷ b'h' ∷ b'f' ∷ b'=' ∷ []

abbrev pub hashf_murmur : List ℕ
hashf_murmur = hashf_prefix ++ b'm' ∷ b'u' ∷ b'r' ∷ b'm' ∷ b'u' ∷ b'r' ∷ []

abbrev pub hashf_city : List ℕ
hashf_city = hashf_prefix ++ b'c' ∷ b'i' ∷ b't' ∷ b'y' ∷ []

abbrev pub itern_prefix : List ℕ
itern_prefix = b'i' ∷ b't' ∷ b'e' ∷ b'r' ∷ b'n' ∷ b'=' ∷ []

abbrev pub itern_on : List ℕ
itern_on = itern_prefix ++ b'o' ∷ b'n' ∷ []

abbrev pub itern_off : List ℕ
itern_off = itern_prefix ++ b'o' ∷ b'f' ∷ b'f' ∷ []

pub data HashfType : Type 0 where
  luae_hashf_murmur : HashfType
  luae_hashf_city : HashfType

-- `disableitern` is a flag of the C structure.
pub record LuaeOptions : Type 0 where
  pub hashftype : HashfType
  pub disableitern : Bool

pub data OptParseStatus : Type 0 where
  opt_parse_ok : OptParseStatus
  opt_parse_error : OptParseStatus

-- The message that is printed to the buffer, with the text that it quotes.
pub data Message : Type 0 where
  no_message : Message
  err_empty_option : List ℕ → Message
  err_unknown_value : List ℕ → Message
  err_unknown_option : List ℕ → Message

unfoldable pub opt_is_prefixed : List ℕ → List ℕ → Bool
opt_is_prefixed s [] = true
opt_is_prefixed [] (p ∷ prefix) = false
opt_is_prefixed (c ∷ s) (p ∷ prefix) = p == c && opt_is_prefixed s prefix

-- `strcmp(s, t) == 0`.
unfoldable pub strcmp_equal : List ℕ → List ℕ → Bool
strcmp_equal [] [] = true
strcmp_equal [] (d ∷ t) = false
strcmp_equal (c ∷ s) [] = false
strcmp_equal (c ∷ s) (d ∷ t) = c == d && strcmp_equal s t

unfoldable pub opt_set_hashf : List ℕ → LuaeOptions → OptParseStatus × LuaeOptions
opt_set_hashf kv opt =
    if strcmp_equal kv hashf_murmur
    then (opt_parse_ok, record opt { hashftype = luae_hashf_murmur })
    else if strcmp_equal kv hashf_city
    then (opt_parse_ok, record opt { hashftype = luae_hashf_city })
    else (opt_parse_error, opt)

unfoldable pub opt_set_itern : List ℕ → LuaeOptions → OptParseStatus × LuaeOptions
opt_set_itern kv opt =
    if strcmp_equal kv itern_on
    then (opt_parse_ok, record opt { disableitern = false })
    else if strcmp_equal kv itern_off
    then (opt_parse_ok, record opt { disableitern = true })
    else (opt_parse_error, opt)

abbrev pub OptSetter : Type 0
OptSetter = List ℕ → LuaeOptions → OptParseStatus × LuaeOptions

abbrev pub opt_setters : List (List ℕ × OptSetter)
opt_setters = (hashf_prefix, opt_set_hashf) ∷ (itern_prefix, opt_set_itern) ∷ []

-- What follows the search of a setter.
abbrev pub report :
    List ℕ → LuaeOptions → OptParseStatus × LuaeOptions → OptParseStatus × LuaeOptions × Message
report kv opt (opt_parse_ok, opt') = (opt_parse_ok, opt', no_message)
report kv opt (opt_parse_error, opt') = (opt_parse_error, opt', err_unknown_value kv)

-- The loop over the setters, and what follows it.
unfoldable pub dispatch :
    List (List ℕ × OptSetter) → List ℕ → LuaeOptions → OptParseStatus × LuaeOptions × Message
dispatch [] kv opt = (opt_parse_error, opt, err_unknown_option kv)
dispatch ((prefix, opt_setter) ∷ setters) kv opt =
    let later = dispatch setters kv opt in
    if opt_is_prefixed kv prefix then report kv opt (opt_setter kv opt) else later

-- `kv` is not NULL.
unfoldable pub cli_opt_parse_kv : List ℕ → LuaeOptions → OptParseStatus × LuaeOptions × Message
cli_opt_parse_kv kv opt =
    if length kv == 0
    then (opt_parse_error, opt, err_empty_option ext_option_switch)
    else if opt_is_prefixed kv ext_option_switch
    then dispatch opt_setters (drop (length ext_option_switch) kv) opt
    else dispatch opt_setters kv opt
