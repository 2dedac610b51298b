-- ===== src/Audio/Wav.antt =====
-- SIPEngine/audio.c: `checkWavFormat`, over what `sceIoRead` answers and leaves in the header.
use furikup.Prelude.{
  ℕ, zero, suc, ◌+◌, ◌-◌, ◌*◌, ◌/◌, ◌%◌, ◌<◌, ℤ, pos, negsuc, ◌&&◌, List, [], ◌∷◌, ◌++◌, ◌≡◌, ap,
  ◌∙◌, arith, Bytes, ltb, ◌==◌, if◌then◌else◌, length, take, drop,
}

-- A number from its bytes, the lowest first.
abbrev pub le : Bytes → ℕ
le [] = 0
le (b ∷ bs) = b + 256 * le bs

-- What is compared of `struct wavheader`: members at the offsets 22, 24 and 34 of its 44 bytes.
pub record WavHeader : Type 0 where
  pub num_channels : ℕ
  pub sample_rate : ℕ
  pub bits_per_sample : ℕ

unfoldable pub read_header : Bytes → WavHeader
read_header h = record {
  num_channels = le (take 2 (drop 22 h));
  sample_rate = le (take 4 (drop 24 h));
  bits_per_sample = le (take 2 (drop 34 h));
}

-- The messages given to `InfoMessage`.
pub data Report : Type 0 where
  failed_to_read : ℤ → Report
  wrong_bits wrong_rate wrong_channels : ℕ → Report

-- An `int` that is compared with the `size_t` of a `sizeof`.
abbrev pub to_unsigned : ℤ → ℕ
to_unsigned (pos n) = n % 4294967296
to_unsigned (negsuc n) = 4294967295 - n % 4294967296

-- `if (x != y) { InfoMessage(report); rc = code; }`, on the code and the messages so far.
abbrev pub unless_equal : ℕ → ℕ → Report → ℤ → ℤ × List Report → ℤ × List Report
unless_equal x y report code (rc, reports) =
    if x == y then (rc, reports) else (code, reports ++ report ∷ [])

unfoldable pub judge : WavHeader → ℕ → ℕ → ℕ → ℤ × List Report
judge h freq bits channels =
    unless_equal h.num_channels channels (wrong_channels h.num_channels) (negsuc 2) (
      unless_equal h.sample_rate freq (wrong_rate h.sample_rate) (negsuc 2)
        (unless_equal h.bits_per_sample bits (wrong_bits h.bits_per_sample) (negsuc 1) (pos 0, [])))

-- `lsize` is the answer of `sceIoRead`, and the bytes are those of the header behind the call.
unfoldable pub check_wav_format : ℤ → Bytes → ℕ → ℕ → ℕ → ℤ × List Report
unfolding read_header judge
check_wav_format lsize header freq bits channels =
    if ltb (to_unsigned lsize) 44
    then (negsuc 0, failed_to_read lsize ∷ [])
    else judge (read_header header) freq bits channels

-- An error of the read, a negative number as an `int`, is not seen: with any of them the verdict is
-- that on the bytes which the header happens to hold, as if 44 bytes had been read.
pub check_wav_format_unread :
    (n : ℕ) (junk : Bytes) (freq bits channels : ℕ)
    → n < 2147483648
    → check_wav_format (negsuc n) junk freq bits channels
      ≡ check_wav_format (pos 44) junk freq bits channels
unfolding check_wav_format
check_wav_format_unread n junk freq bits channels h = ground arith

abbrev pub le_bytes : ℕ → ℕ → Bytes
le_bytes zero n = []
le_bytes (suc k) n = (n % 256) ∷ le_bytes k (n / 256)

-- A header: what stands in front of the channels, between the rate and the bits, and behind them.
abbrev pub print_header : Bytes → Bytes → Bytes → WavHeader → Bytes
print_header front middle rest w =
    front
    ++ (le_bytes 2 w.num_channels
        ++ (le_bytes 4 w.sample_rate ++ (middle ++ (le_bytes 2 w.bits_per_sample ++ rest))))

drop-append : (m k : ℕ) (s t : Bytes) → m ≡ length s + k → drop m (s ++ t) ≡ drop k t
drop-append m k [] t e = ap (λ n. drop n t) (omega arith)
drop-append zero k (c ∷ s) t e = absurd (omega arith)
drop-append (suc m) k (c ∷ s) t e = drop-append m k s t (omega arith)

-- A header that fits its fields.
abbrev pub IsHeader : WavHeader → Type 0
IsHeader w = (w.num_channels < 65536) × (w.sample_rate < 4294967296) × (w.bits_per_sample < 65536)

module _ (front middle rest : Bytes) (w : WavHeader) (f : length front ≡ 22) (m : length middle ≡ 6)
    (h : IsHeader w) where
  channels_read : le (take 2 (drop 22 (print_header front middle rest w))) ≡ w.num_channels
  channels_read = ap (λ s. le (take 2 s)) (drop-append 22 0 front _ (omega arith)) ∙ omega arith

  rate_read : le (take 4 (drop 24 (print_header front middle rest w))) ≡ w.sample_rate
  rate_read = ap (λ s. le (take 4 s)) (drop-append 24 2 front _ (omega arith)) ∙ omega arith

  bits_read : le (take 2 (drop 34 (print_header front middle rest w))) ≡ w.bits_per_sample
  bits_read =
      ap (λ s. le (take 2 s)) (drop-append 34 12 front _ (omega arith))
      ∙ ap (λ s. le (take 2 s)) (drop-append 6 0 middle _ (omega arith))
      ∙ omega arith

  read_header-print_header : read_header (print_header front middle rest w) ≡ w
  unfolding read_header
  read_header-print_header = λ i. record {
    num_channels = channels_read i;
    sample_rate = rate_read i;
    bits_per_sample = bits_read i;
  }

  -- A header in the layout of the format (22 bytes in front of the channels, 6 between the rate and
  -- the bits), fully read: the code is 0 exactly if bits, rate and channels are those asked for, -2
  -- if only the bits differ, and -3 if the rate or the channels do.
  pub check_wav_format-print_header :
      (freq bits channels : ℕ)
      → (check_wav_format (pos 44) (print_header front middle rest w) freq bits channels).0 ≡ (
          if w.sample_rate == freq && w.num_channels == channels
          then (if w.bits_per_sample == bits then pos 0 else negsuc 1)
          else negsuc 2)
  unfolding check_wav_format
  check_wav_format-print_header freq bits channels =
      ap (λ r. (judge r freq bits channels).0) read_header-print_header ∙ ground arith
