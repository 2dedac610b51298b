-- ===== src/Engine/Firewall.antt =====
-- SIPEngine/call_api.c: `UpdateFirewallAddr` and `registerCallbackProc`, which nothing calls.
use furikup.Prelude.{ℤ, Bool, Option, none, some, Bytes}
use furikup.CString.{atoi}
use furikup.Engine.Types.{Engine}

-- What osip's accessors give of a message: the values of two parameters of the first Via header,
-- `none` without the parameter or its value, and the host of the From header.
pub record Via : Type 0 where
  pub rport : Option Bytes
  pub received : Option Bytes

pub record SipMessage : Type 0 where
  pub via : Option Via
  pub from_host : Option Bytes

-- The arguments of `eXosip_masquerade_contact`, `none` where it is not called.
abbrev pub masquerade : Option Bytes → Option Bytes → ℤ → Option (Bytes × ℤ)
masquerade (some address) (some host) firewall_port = some (address, firewall_port)
masquerade _ _ firewall_port = none

abbrev pub with_rport : Option Bytes → Option Bytes → Option Bytes → Option (Bytes × ℤ)
with_rport none received host = none
with_rport (some port) received host = masquerade received host (atoi port)

abbrev pub with_via : Option Via → Option Bytes → Option (Bytes × ℤ)
with_via none host = none
with_via (some via) host = with_rport via.rport via.received host

unfoldable pub update_firewall_addr : Option SipMessage → Option (Bytes × ℤ)
unfolding atoi
update_firewall_addr none = none
update_firewall_addr (some sip) = with_via sip.via sip.from_host

-- Whether a procedure is registered.
unfoldable pub register_callback_proc : Bool → Engine → Engine
register_callback_proc proc s = record s { callback_proc = proc }
