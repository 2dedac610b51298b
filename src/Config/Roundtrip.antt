-- ===== src/Config/Roundtrip.antt =====
-- What `parseConfigFile` makes of a file of settings, for SIPEngine/config_file.c.
use furikup.Prelude.{
  ℤ, pos, negsuc, List, [], ◌∷◌, ◌++◌, map, append-nil, Option, none, some, ◌≡◌, refl, sym, ap, ◌∙◌,
  arith, Bytes,
}
use furikup.CString.Laws.{Free-append, AreLines, print_lines, end_lines, file_lines-print_lines}
use furikup.Config.File.{
  Setup, comment, setting, bad, handle_option, read_line, parse_lines, parse_config_file,
}
use furikup.Config.Line.{Setting, with_return, print_setting, IsSetting, read_line-setting}

-- The lines of a file of settings.
abbrev pub print_settings : List Setting → List Bytes
print_settings es = map print_setting es

abbrev pub AreSettings : List Setting → Type 0
AreSettings [] = Unit {0}
AreSettings (e ∷ es) = IsSetting e × AreSettings es

abbrev pub and_then {ℓ κ} : {A : Type ℓ} {B : Type κ} → Option A → (A → Option B) → Option B
and_then none f = none
and_then (some a) f = f a

and_then_cong {ℓ κ} :
    {A : Type ℓ} {B : Type κ} (x : Option A) (f g : A → Option B)
    → ((a : A) → f a ≡ g a)
    → and_then x f ≡ and_then x g
and_then_cong none f g h = refl
and_then_cong (some a) f g h = h a

and_then_assoc {ℓ κ μ} :
    {A : Type ℓ} {B : Type κ} {C : Type μ} (x : Option A) (f : A → Option B) (g : B → Option C)
    → and_then x (λ a. and_then (f a) g) ≡ and_then (and_then x f) g
and_then_assoc none f g = refl
and_then_assoc (some a) f g = refl

-- The settings, handed to `handleOption` one after the other.
abbrev pub apply_settings : List Setting → Setup → Option Setup
apply_settings [] s = some s
apply_settings (e ∷ es) s = and_then (handle_option e.option e.value s) (apply_settings es)

abbrev pub return_code : ℤ → Setup → Option (ℤ × Setup)
return_code rc s = some (rc, s)

elim-and_then :
    (x : Option Setup) (f : Setup → Option (ℤ × Setup))
    → (elim x [ none ↦ none | some t ↦ f t ]) ≡ and_then x f
elim-and_then none f = refl
elim-and_then (some t) f = refl

parse_lines-setting :
    (o v l : Bytes) (ls : List Bytes) (s : Setup)
    → read_line l ≡ setting o v
    → parse_lines (l ∷ ls) s ≡ and_then (handle_option o v s) (parse_lines ls)
unfolding parse_lines
parse_lines-setting o v l ls s h =
    ap
      (λ x. elim x [
        | comment ↦ parse_lines ls s
        | bad rc ↦ some (rc, s)
        | setting option value ↦ elim (handle_option option value s) [
          | none ↦ none
          | some t ↦ parse_lines ls t
        ]
      ])
      h
    ∙ elim-and_then (handle_option o v s) (parse_lines ls)

read_settings :
    (es : List Setting) (ls : List Bytes) (s : Setup)
    → AreSettings es
    → parse_lines (end_lines (print_settings es ++ ls)) s
      ≡ and_then (apply_settings es s) (parse_lines (end_lines ls))
read_settings [] ls s h = refl
read_settings (e ∷ es) ls s (h, hs) =
    parse_lines-setting e.option e.value (print_setting e ++ b'\n' ∷ [])
      (end_lines (print_settings es ++ ls)) s (read_line-setting e h)
    ∙ and_then_cong (handle_option e.option e.value s)
        (λ t. parse_lines (end_lines (print_settings es ++ ls)) t)
        (λ t. and_then (apply_settings es t) (parse_lines (end_lines ls)))
        (λ t. read_settings es ls t hs)
    ∙ and_then_assoc (handle_option e.option e.value s) (apply_settings es)
        (parse_lines (end_lines ls))

settings-AreLines :
    (es : List Setting) (ls : List Bytes)
    → AreSettings es
    → AreLines 511 ls
    → AreLines 511 (print_settings es ++ ls)
settings-AreLines [] ls h a = a
settings-AreLines (e ∷ es) ls ((_, _, (_, on, _), _, (_, vn, _), _, _, m), hs) a = (
  Free-append b'\n' e.option (b'=' ∷ with_return e.value) on
      (refl, Free-append b'\n' e.value (b'\r' ∷ []) vn (refl, tt)),
  m,
  settings-AreLines es ls hs a,
)

parse_settings :
    (es : List Setting) (ls : List Bytes) (s : Setup)
    → AreSettings es
    → AreLines 511 ls
    → parse_config_file (some (print_lines (print_settings es ++ ls))) s
      ≡ and_then (apply_settings es s) (parse_lines (end_lines ls))
unfolding parse_config_file
parse_settings es ls s h a =
    ap (λ x. parse_lines x s)
      (file_lines-print_lines 511 (print_settings es ++ ls) (settings-AreLines es ls h a))
    ∙ read_settings es ls s h

-- A file of settings, written "option=value" with carriage returns and newlines, in lines of less
-- than 511 bytes, each part without NUL, newline and '=', an option that starts with no '#', a value
-- that ends in no space: the parser returns 0 and has handed every setting to `handleOption`, in the
-- order of the file. It fails where one of them overflows an array.
pub parse_config_file-print_settings :
    (es : List Setting) (s : Setup)
    → AreSettings es
    → parse_config_file (some (print_lines (print_settings es))) s
      ≡ and_then (apply_settings es s) (return_code (pos 0))
unfolding parse_lines
parse_config_file-print_settings es s h =
    ap (λ x. parse_config_file (some (print_lines x)) s) (sym (append-nil (print_settings es)))
    ∙ parse_settings es [] s h tt

-- A blank line in such a file ends the reading: the parser returns -3, with the settings above the
-- line in force and none of those below it, whatever they are (lines of less than 511 bytes).
pub blank_line_ends :
    (es : List Setting) (ls : List Bytes) (s : Setup)
    → AreSettings es
    → AreLines 511 ls
    → parse_config_file (some (print_lines (print_settings es ++ (b'\r' ∷ []) ∷ ls))) s
      ≡ and_then (apply_settings es s) (return_code (negsuc 2))
unfolding parse_lines
blank_line_ends es ls s h a = parse_settings es ((b'\r' ∷ []) ∷ ls) s h ((refl, tt), omega arith, a)
