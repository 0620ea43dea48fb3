-- ===== src/Tests/Options.antt =====
-- Options that are refused, with their messages.
use luavela.Base.{ℕ, ◌≡◌, refl, List, [], ◌∷◌, ◌++◌, false}
use luavela.Opt.{LuaeOptions, cli_opt_parse_kv, dispatch, opt_is_prefixed, opt_set_hashf}
use luavela.Opt.{strcmp_equal, luae_hashf_city, hashf_prefix, err_unknown_value, err_unknown_option}

abbrev defaults : LuaeOptions
defaults = record { hashftype = luae_hashf_city; disableitern = false }

abbrev unknown_hash : List ℕ
unknown_hash = hashf_prefix ++ b'x' ∷ []

unknown_value : (cli_opt_parse_kv unknown_hash defaults).2 ≡ err_unknown_value unknown_hash
unfolding cli_opt_parse_kv dispatch opt_is_prefixed opt_set_hashf strcmp_equal
unknown_value = refl

switch_alone : (cli_opt_parse_kv (b'-' ∷ b'X' ∷ []) defaults).2 ≡ err_unknown_option []
unfolding cli_opt_parse_kv dispatch opt_is_prefixed
switch_alone = refl
