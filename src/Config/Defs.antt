-- ===== src/Config/Defs.antt =====
-- SIPEngine/config.c. The arrays filled with `strncpy` are kept as their bytes; `logFile`, filled
-- with `strcpy`, as its string. The flags are only ever set to 0 and 1.
use furikup.Prelude.{
  ℤ, pos, Bool, true, false, [], ◌++◌, Option, none, some, Bytes, codes, replicate,
}
use furikup.CString.{strncpy, c_string, strcpy}

pub record Config : Type 0 where
  pub server : Bytes
  pub user : Bytes
  pub password : Bytes
  pub stun_server : Bytes
  pub log_file : Bytes
  pub stun_port : ℤ
  pub nat : Bool
  pub use_video : Bool
  pub use_usb : Bool
  pub use_headset : Bool
  pub use_test_mode : Bool
  pub use_input_file : Bool

-- The initialisers of the globals.
abbrev pub initial_config : Config
initial_config = record {
  server = replicate 128 0;
  user = replicate 128 0;
  password = replicate 64 0;
  stun_server = replicate 128 0;
  log_file = [];
  stun_port = pos 3478;
  nat = false;
  use_video = false;
  use_usb = false;
  use_headset = false;
  use_test_mode = false;
  use_input_file = false;
}

unfoldable pub config_set_server : Bytes → Config → Config
config_set_server server c = record c { server = strncpy 128 server }

unfoldable pub config_set_user : Bytes → Config → Config
config_set_user user c = record c { user = strncpy 128 user }

unfoldable pub config_set_password : Bytes → Config → Config
config_set_password password c = record c { password = strncpy 64 password }

unfoldable pub config_set_nat_traversal : Bool → Config → Config
config_set_nat_traversal natted c = record c { nat = natted }

unfoldable pub config_set_stun_server : Bytes → Config → Config
config_set_stun_server server c = record c { stun_server = strncpy 128 server; nat = true }

unfoldable pub config_set_stun_port : ℤ → Config → Config
config_set_stun_port port c = record c { stun_port = port }

unfoldable pub config_set_use_video : Bool → Config → Config
config_set_use_video video c = record c { use_video = video }

unfoldable pub config_set_usb : Bool → Config → Config
config_set_usb usb c = record c { use_usb = usb }

unfoldable pub config_set_headset : Bool → Config → Config
config_set_headset headset c = record c { use_headset = headset }

unfoldable pub config_set_inputfile : Bool → Config → Config
config_set_inputfile file c = record c { use_input_file = file }

unfoldable pub config_set_test_mode : Bool → Config → Config
config_set_test_mode mode c = record c { use_test_mode = mode }

-- `strcpy` into a `char[128]`; `none` is a write past its end.
abbrev pub with_log_file : Config → Option Bytes → Option Config
with_log_file c none = none
with_log_file c (some file) = some (record c { log_file = file })

unfoldable pub config_set_logfile : Bytes → Config → Option Config
config_set_logfile file c = with_log_file c (strcpy 128 file)

abbrev pub join_uri : Option Bytes → Option Bytes → Option Bytes
join_uri (some user) (some server) = strcpy 512 (codes "sip:" ++ user ++ codes "@" ++ server)
join_uri _ _ = none

-- `none` if one of the two arrays holds no terminated string, or the result outgrows its buffer.
unfoldable pub config_get_user_uri : Config → Option Bytes
config_get_user_uri c = join_uri (c_string c.user) (c_string c.server)

abbrev pub server_uri_of : Option Bytes → Option Bytes
server_uri_of (some server) = strcpy 256 (codes "sip:" ++ server)
server_uri_of none = none

unfoldable pub config_get_server_uri : Config → Option Bytes
config_get_server_uri c = server_uri_of (c_string c.server)
