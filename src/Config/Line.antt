-- ===== src/Config/Line.antt =====
-- A line "option=value" of the settings, for `parseConfigFile` of SIPEngine/config_file.c.
use furikup.Prelude.{
  ℕ, ◌<◌, Bool, true, false, [], ◌∷◌, ◌++◌, append_assoc, ◌≡◌, ◌≢◌, refl, ap, ◌∙◌, arith, Bytes,
  ◌==◌, ◌&&◌, if◌then◌else◌, length,
}
use furikup.CString.{cut, strtok}
use furikup.CString.Laws.{Free, Free-append, cut-Free, cut-append, strtok-append, strtok-Free}
use furikup.Config.File.{
  Line, comment, setting, is_comment, is_empty, strip_spaces, strip_trailing, strip_value,
  read_value, read_option, read_line,
}

pub record Setting : Type 0 where
  pub option : Bytes
  pub value : Bytes

abbrev pub with_return : Bytes → Bytes
with_return v = v ++ b'\r' ∷ []

-- A line of the file, "option=value" with a carriage return.
abbrev pub print_setting : Setting → Bytes
print_setting e = e.option ++ b'=' ∷ with_return e.value

abbrev pub ends_in_space : Bytes → Bool
ends_in_space [] = false
ends_in_space (c ∷ s) = if is_empty s then c == b' ' else ends_in_space s

-- A byte that separates the parts of a line: NUL, newline, '='.
abbrev pub Plain : Bytes → Type 0
Plain s = Free 0 s × Free b'\n' s × Free b'=' s

-- What a line can carry.
abbrev pub IsSetting : Setting → Type 0
IsSetting e =
    (e.option ≢ [])
    × (is_comment e.option ≡ false)
    × Plain e.option
    × (e.value ≢ [])
    × Plain e.value
    × Free b'\r' e.value
    × (ends_in_space e.value ≡ false)
    × (length (print_setting e) < 511)

and_false : (b : Bool) → (b && false) ≡ false
and_false true = refl
and_false false = refl

strip_spaces-cons :
    (c : ℕ) (s : Bytes)
    → is_empty (strip_spaces s) ≡ false
    → strip_spaces (c ∷ s) ≡ c ∷ strip_spaces s
unfolding strip_spaces
strip_spaces-cons c s h =
    ap (λ b. if c == b' ' && b then [] else c ∷ strip_spaces s) h
    ∙ ap (λ b. if b then [] else c ∷ strip_spaces s) (and_false (c == b' '))

strip_spaces-id : (s : Bytes) → ends_in_space s ≡ false → strip_spaces s ≡ s
unfolding strip_spaces
strip_spaces-id [] h = refl
strip_spaces-id (c ∷ []) h = rw h
strip_spaces-id (c ∷ d ∷ s) h =
    let rest = strip_spaces-id (d ∷ s) h in
    strip_spaces-cons c (d ∷ s) (ap is_empty rest) ∙ ap (◌∷◌ c) rest

inner : (c : _) (s : Bytes) → ends_in_space (c ∷ s) ≡ false → ends_in_space s ≡ false
inner c [] h = refl
inner c (d ∷ s) h = h

strip_trailing-id : (s : Bytes) → ends_in_space s ≡ false → strip_trailing s ≡ s
unfolding strip_trailing
strip_trailing-id [] h = refl
strip_trailing-id (c ∷ s) h = ap (◌∷◌ c) (strip_spaces-id s (inner c s h))

is_comment-append : (o t : Bytes) → o ≢ [] → is_comment o ≡ false → is_comment (o ++ t) ≡ false
is_comment-append [] t e h = absurd (e refl)
is_comment-append (c ∷ o) t e h = h

strip_value-lem :
    (v : Bytes)
    → Free b'\r' v
    → Free b'\n' v
    → ends_in_space v ≡ false
    → strip_value (v ++ b'\r' ∷ b'\n' ∷ []) ≡ v
unfolding strip_value
strip_value-lem v r n e =
    ap (λ x. strip_trailing (cut b'\n' x)) (cut-append b'\r' v (b'\n' ∷ []) r)
    ∙ ap strip_trailing (cut-Free b'\n' v n)
    ∙ strip_trailing-id v e

-- The texts on the two sides of the '=' sign.
abbrev tail_of : Bytes → Bytes
tail_of v = v ++ b'\r' ∷ b'\n' ∷ []

setting-text : (e : Setting) → print_setting e ++ b'\n' ∷ [] ≡ e.option ++ b'=' ∷ tail_of e.value
setting-text e =
    append_assoc e.option (b'=' ∷ with_return e.value) (b'\n' ∷ [])
    ∙ ap (λ x. e.option ++ b'=' ∷ x) (append_assoc e.value (b'\r' ∷ []) (b'\n' ∷ []))

tail_of-Free :
    (d : ℕ) (v : Bytes)
    → (b'\r' == d) ≡ false
    → (b'\n' == d) ≡ false
    → Free d v
    → Free d (tail_of v)
tail_of-Free d v r n f = Free-append d v (b'\r' ∷ b'\n' ∷ []) f (r, (n, tt))

tail_of-NotEmpty : (v : Bytes) → tail_of v ≢ []
tail_of-NotEmpty [] e = grind arith
tail_of-NotEmpty (c ∷ v) e = grind arith

read_option-setting :
    (e : Setting)
    → IsSetting e
    → read_option (strtok b'=' (e.option ++ b'=' ∷ tail_of e.value)) ≡ setting e.option e.value
read_option-setting e (o, c, (o0, on, oe), v, (v0, vn, ve), vr, vs, _) =
    ap read_option (strtok-append b'=' e.option (tail_of e.value) o oe)
    ∙ ap (read_value e.option) (
        strtok-Free b'=' (tail_of e.value) (tail_of-NotEmpty e.value)
          (tail_of-Free b'=' e.value refl refl ve))
    ∙ ap (setting e.option) (strip_value-lem e.value vr vn vs)

pub read_line-setting :
    (e : Setting)
    → IsSetting e
    → read_line (print_setting e ++ b'\n' ∷ []) ≡ setting e.option e.value
unfolding read_line
read_line-setting e h =
    let (o, c, (o0, on, oe), v, (v0, vn, ve), vr, vs, _) = h in
    let line : Bytes = e.option ++ b'=' ∷ tail_of e.value in
    let read : Bytes → Line = λ x. if is_comment x then comment else read_option (strtok b'=' x) in
    ap (λ x. read (cut 0 x)) (setting-text e)
    ∙ ap read (
        cut-Free 0 line (
          Free-append 0 e.option (b'=' ∷ tail_of e.value) o0
            (refl, tail_of-Free 0 e.value refl refl v0)))
    ∙ ap (λ b. if b then comment else read_option (strtok b'=' line))
        (is_comment-append e.option (b'=' ∷ tail_of e.value) o c)
    ∙ read_option-setting e h
