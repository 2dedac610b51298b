-- ===== src/Startup/Tracing.antt =====
-- `osip_trace_func` in SIPEngine/sipengine.c stays inside its buffer.
use furikup.Prelude.{
  ℕ, suc, ◌+◌, ◌≤◌, ℤ, pos, negsuc, true, ◌++◌, Option, none, some, Bytes, codes, length,
  length-append, length-take_le, take, ◌≡◌, refl, ap, arith, leb,
}
use furikup.CString.Laws.{length-digits_le}
use furikup.CString.{decimal}
use furikup.Startup.Trace.{
  TraceLevel, fatal, bug, error, warning, info1, info2, info3, info4, no_level, tag, heading,
  trace_text, Traced, pass_on, osip_trace_func,
}

decimal_le : (z : ℤ) → length (decimal z) ≤ 11
decimal_le (pos n) = omega (arith, length-digits_le 10 n)
decimal_le (negsuc n) = omega (arith, length-digits_le 10 (suc n))

abbrev size : Option Bytes → ℕ
size none = 0
size (some t) = length t

tag_size : (level : TraceLevel) → size (tag level) ≤ 9
tag_size fatal = omega arith
tag_size bug = omega arith
tag_size error = omega arith
tag_size warning = omega arith
tag_size info1 = omega arith
tag_size info2 = omega arith
tag_size info3 = omega arith
tag_size info4 = omega arith
tag_size no_level = omega arith

heading_le :
    (t : Option Bytes) (file : Bytes) (line : ℤ)
    → size t ≤ 9
    → length (heading t file line) ≤ 26 + length file
heading_le none file line h = omega arith
heading_le (some t) file line h = omega (
  arith,
  length-append t (codes " <" ++ (file ++ (codes ": " ++ (decimal line ++ codes "> ")))),
  length-append file (codes ": " ++ (decimal line ++ codes "> ")),
  length-append (decimal line) (codes "> "),
  decimal_le line,
)

-- For the name of a file of up to 2000 bytes, whatever the message is: nothing is written behind
-- `trc_buf`, and the text that goes on has at most 2046 bytes.
pub osip_trace_func-fits :
    (level : TraceLevel) (file : Bytes) (line : ℤ) (text : Bytes) (log_file : ℤ)
    → length file ≤ 2000
    → (t : Traced) × (osip_trace_func level file line text log_file ≡ some t)
      × (length t.printed ≤ 2046)
unfolding osip_trace_func trace_text
osip_trace_func-fits level file line text log_file h =
    let x = heading (tag level) file line in
    let e : leb (length x) 2047 ≡ true =
      ground (arith, heading_le (tag level) file line (tag_size level)) in
    let p : trace_text level file line text ≡ some (take 2046 (x ++ text)) = rw e refl in
    (_, ap (pass_on level log_file) p, omega (arith, length-take_le 2046 (x ++ text)))
