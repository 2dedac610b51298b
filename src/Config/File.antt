-- ===== src/Config/File.antt =====
-- SIPEngine/config_file.c: `handleOption` and `parseConfigFile`.
use furikup.Prelude.{
  ℤ, pos, negsuc, Bool, true, false, ◌&&◌, List, [], ◌∷◌, Option, none, some, Bytes, codes, ◌==◌,
  if◌then◌else◌,
}
use furikup.CString.{cut, strtok, file_lines, str_eq, strcase_eq, atoi}
use furikup.Config.Defs.{
  Config, config_set_server, config_set_user, config_set_password, config_set_nat_traversal,
  config_set_stun_server, config_set_stun_port, config_set_use_video, config_set_usb,
  config_set_headset, config_set_inputfile, config_set_test_mode, config_set_logfile,
}

-- The settings, and the texts given to `ErrorMessage`, the last one first.
pub record Setup : Type 0 where
  pub config : Config
  pub errors : List Bytes

abbrev pub modify : (Config → Config) → Setup → Setup
modify f s = record s { config = f s.config }

abbrev pub modify_checked : (Config → Option Config) → Setup → Option Setup
modify_checked f s = elim (f s.config) [ none ↦ none | some c ↦ some (record s { config = c }) ]

abbrev pub setup_hint : Bytes
setup_hint = codes "you haven't set up your sipcfg.ini - see the readme.txt"

unfoldable pub handle_input : Bytes → Setup → Setup
unfolding config_set_usb config_set_use_video config_set_headset config_set_inputfile
handle_input value s =
    if strcase_eq value (codes "usbcam")
    then modify (config_set_use_video true) (modify (config_set_usb true) s)
    else if strcase_eq value (codes "usbmic")
    then modify (config_set_usb true) s
    else if strcase_eq value (codes "headset")
    then modify (config_set_headset true) s
    else if strcase_eq value (codes "file")
    then modify (config_set_inputfile true) s
    else s

-- The `username` branch: the shipped placeholder is reported, and stored all the same.
unfoldable pub handle_username : Bytes → Setup → Setup
unfolding config_set_user
handle_username value s =
    modify (config_set_user value)
      (if str_eq value (codes "1234567") then record s { errors = setup_hint ∷ s.errors } else s)

unfoldable pub handle_option : Bytes → Bytes → Setup → Option Setup
unfolding handle_input handle_username config_set_server config_set_password
    config_set_nat_traversal config_set_stun_server config_set_stun_port config_set_logfile
    config_set_test_mode
handle_option option value s =
    if strcase_eq option (codes "server")
    then some (modify (config_set_server value) s)
    else if strcase_eq option (codes "username")
    then some (handle_username value s)
    else if strcase_eq option (codes "password")
    then some (modify (config_set_password value) s)
    else if strcase_eq option (codes "disablenat")
    then some
        (if strcase_eq value (codes "yes") then modify (config_set_nat_traversal false) s else s)
    else if strcase_eq option (codes "stunserver")
    then some (modify (config_set_stun_server value) s)
    else if strcase_eq option (codes "stunport")
    then some (modify (config_set_stun_port (atoi value)) s)
    else if strcase_eq option (codes "input")
    then some (handle_input value s)
    else if strcase_eq option (codes "logfile")
    then modify_checked (config_set_logfile value) s
    else if strcase_eq option (codes "test")
    then some (modify (config_set_test_mode true) s)
    else some s

abbrev pub is_empty : Bytes → Bool
is_empty [] = true
is_empty (_ ∷ _) = false

unfoldable pub strip_spaces : Bytes → Bytes
strip_spaces [] = []
strip_spaces (c ∷ s) =
    let rest = strip_spaces s in if c == b' ' && is_empty rest then [] else c ∷ rest

-- The loop from `strlen(value) - 1` down to 1 never takes the first byte. On an empty value it
-- starts at -1, reads the NUL or '=' in front of the token, and stops there.
unfoldable pub strip_trailing : Bytes → Bytes
unfolding strip_spaces
strip_trailing [] = []
strip_trailing (c ∷ s) = c ∷ strip_spaces s

unfoldable pub strip_value : Bytes → Bytes
unfolding cut strip_trailing
strip_value value = strip_trailing (cut b'\n' (cut b'\r' value))

-- What one line asks for: nothing, an option with its value, or a return code.
pub data Line : Type 0 where
  comment : Line
  setting : Bytes → Bytes → Line
  bad : ℤ → Line

abbrev pub read_value : Bytes → Option (Bytes × Bytes) → Line
read_value option none = bad (negsuc 2)
read_value option (some (value, rest)) = setting option (strip_value value)

abbrev pub read_option : Option (Bytes × Bytes) → Line
read_option none = bad (negsuc 1)
read_option (some (option, rest)) = read_value option (strtok b'=' rest)

abbrev pub is_comment : Bytes → Bool
is_comment [] = false
is_comment (c ∷ _) = c == b'#'

-- The string functions see a line up to its first NUL.
unfoldable pub read_line : Bytes → Line
unfolding cut strtok strip_value
read_line raw =
    let line = cut 0 raw in if is_comment line then comment else read_option (strtok b'=' line)

-- The loop over the lines: the return code, and the settings that were in force at the return.
unfoldable pub parse_lines : List Bytes → Setup → Option (ℤ × Setup)
unfolding read_line handle_option
parse_lines [] s = some (pos 0, s)
parse_lines (l ∷ ls) s = elim (read_line l) [
  | comment ↦ parse_lines ls s
  | bad rc ↦ some (rc, s)
  | setting option value ↦ elim (handle_option option value s) [
    | none ↦ none
    | some t ↦ parse_lines ls t
  ]
]

-- `none` for the file: it could not be opened.
unfoldable pub parse_config_file : Option Bytes → Setup → Option (ℤ × Setup)
unfolding parse_lines
parse_config_file none s = some (negsuc 0, s)
parse_config_file (some text) s = parse_lines (file_lines 511 text) s
