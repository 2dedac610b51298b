-- ===== src/Startup/Trace.antt =====
-- SIPEngine/sipengine.c: `osip_trace_func`. The text that `vsnprintf` makes of the message is a
-- parameter.
use furikup.Prelude.{
  ℤ, is_pos, Bool, true, false, ◌++◌, Option, none, some, Bytes, codes, leb, if◌then◌else◌, length,
  take,
}
use furikup.CString.{decimal}

-- `osip_trace_level_t`, in its order.
pub data TraceLevel : Type 0 where
  fatal bug error warning info1 info2 info3 info4 no_level : TraceLevel

abbrev pub tag : TraceLevel → Option Bytes
tag fatal = some (codes "| FATAL |")
tag bug = some (codes "|  BUG  |")
tag error = some (codes "| ERROR |")
tag warning = some (codes "|WARNING|")
tag info1 = some (codes "| INFO1 |")
tag info2 = some (codes "| INFO2 |")
tag info3 = some (codes "| INFO3 |")
tag info4 = some (codes "| INFO4 |")
tag no_level = none

abbrev pub heading : Option Bytes → Bytes → ℤ → Bytes
heading none file line = codes ""
heading (some t) file line =
    t ++ (codes " <" ++ (file ++ (codes ": " ++ (decimal line ++ codes "> "))))

-- What `trc_buf` holds, 2046 bytes at most: the size left for the message is negative, and so
-- unlimited and behind the array, where the heading is longer than 2047 bytes.
unfoldable pub trace_text : TraceLevel → Bytes → ℤ → Bytes → Option Bytes
trace_text level file line text =
    let h = heading (tag level) file line in
    if leb (length h) 2047 then some (take 2046 (h ++ text)) else none

-- What goes to the interface, to the log file, and to the console.
pub record Traced : Type 0 where
  pub message : Option Bytes
  pub logged : Option Bytes
  pub printed : Bytes

abbrev pub is_passed : TraceLevel → Bool
is_passed fatal = true
is_passed bug = true
is_passed error = true
is_passed warning = true
is_passed _ = false

abbrev pub pass_on : TraceLevel → ℤ → Option Bytes → Option Traced
pass_on level log_file none = none
pass_on level log_file (some t) = some (record {
  message = if is_passed level then some (take 255 t) else none;
  logged = if is_pos log_file then some t else none;
  printed = t;
})

unfoldable pub osip_trace_func : TraceLevel → Bytes → ℤ → Bytes → ℤ → Option Traced
unfolding trace_text
osip_trace_func level file line text log_file =
    pass_on level log_file (trace_text level file line text)
