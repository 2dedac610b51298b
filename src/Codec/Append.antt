-- ===== src/Codec/Append.antt =====
-- One voice codec added to the two lines of a description, for `createLocalSdp` of SIPEngine/codec.c.
use furikup.Prelude.{
  ℕ, ◌+◌, ◌≤◌, ◌<◌, is_nat, Bool, true, false, List, [], ◌∷◌, ◌++◌, Option, none, some, Bool-cases,
  inl, inr, ltb, ◌⊎◌, ◌≡◌, refl, ap, ap₂, ◌∙◌, arith, Bytes, codes, if◌then◌else◌, length,
  length-append,
}
use furikup.CString.{strcpy, atoi}
use furikup.CString.Arrays.{strcpy-fits}
use furikup.Codec.Defs.{AudioLine, pcmu_map, pcma_map, both, append_codec, add_payload}

pub data Law : Type 0 where
  pcmu pcma : Law

abbrev pub name_of : Law → Bytes
name_of pcmu = codes " 0"
name_of pcma = codes " 8"

abbrev pub map_of : Law → Bytes
map_of pcmu = pcmu_map
map_of pcma = pcma_map

-- The codec that a payload number stands for, if the phone has it.
abbrev pub law_of : Bytes → Option Law
law_of p = if is_nat 0 (atoi p) then some pcmu else if is_nat 8 (atoi p) then some pcma else none

abbrev pub cons_some {ℓ} : {A : Type ℓ} → Option A → List A → List A
cons_some none xs = xs
cons_some (some x) xs = x ∷ xs

-- The codecs of an offer that the phone has, in the order of the offer.
abbrev pub laws_of : List Bytes → List Law
laws_of [] = []
laws_of (p ∷ ps) = cons_some (law_of p) (laws_of ps)

abbrev pub names : List Law → Bytes
names [] = []
names (l ∷ ls) = name_of l ++ names ls

abbrev pub maps : List Law → Bytes
maps [] = []
maps (l ∷ ls) = map_of l ++ maps ls

abbrev pub add_law : Option Law → AudioLine → Option AudioLine
add_law none a = some a
add_law (some l) a = append_codec (name_of l) (map_of l) a

choice :
    (b c : Bool) (a : AudioLine)
    → (if b
        then append_codec (codes " 0") pcmu_map a
        else if c
        then append_codec (codes " 8") pcma_map a
        else some a)
      ≡ add_law (if b then some pcmu else if c then some pcma else none) a
choice true c a = refl
choice false true a = refl
choice false false a = refl

pub add_payload-law_of : (p : Bytes) (a : AudioLine) → add_payload p a ≡ add_law (law_of p) a
unfolding add_payload
add_payload-law_of p a = choice (is_nat 0 (atoi p)) (is_nat 8 (atoi p)) a

-- The line with the codecs added.
abbrev pub extended : AudioLine → List Law → AudioLine
extended a [] = a
extended a (l ∷ ls) =
    extended
      (record { options = a.options ++ name_of l; rtpmap = a.rtpmap ++ map_of l; added = true }) ls

pub length-name_of : (l : Law) → length (name_of l) ≡ 2
length-name_of pcmu = refl
length-name_of pcma = refl

pub length-map_of : (l : Law) → length (map_of l) ≡ 22
length-map_of pcmu = refl
length-map_of pcma = refl

pub append_codec-fits :
    (l : Law) (a : AudioLine)
    → length a.options + 2 < 128
    → length a.rtpmap + 22 < 128
    → append_codec (name_of l) (map_of l) a ≡ some (extended a (l ∷ []))
unfolding append_codec
append_codec-fits l a m n =
    ap₂ both
      (strcpy-fits 128 (a.options ++ name_of l)
        (omega (arith, length-append a.options (name_of l), length-name_of l)))
      (strcpy-fits 128 (a.rtpmap ++ map_of l)
        (omega (arith, length-append a.rtpmap (map_of l), length-map_of l)))

strcpy-overflows : (n : ℕ) (s : Bytes) → n ≤ length s → strcpy n s ≡ none
strcpy-overflows n s h = ground arith

both-none : (o : Option Bytes) → both o none ≡ none
both-none none = refl
both-none (some o) = refl

pub append_codec-cases :
    (l : Law) (a : AudioLine)
    → (append_codec (name_of l) (map_of l) a ≡ none)
      ⊎ ((append_codec (name_of l) (map_of l) a ≡ some (extended a (l ∷ [])))
          × (length a.rtpmap + 22 < 128))
unfolding append_codec
append_codec-cases l a = elim (Bool-cases (ltb (length a.options + 2) 128)) [
  | inr p ↦ inl (
      ap (λ x. both x (strcpy 128 (a.rtpmap ++ map_of l)))
        (strcpy-overflows 128 (a.options ++ name_of l)
          (ground (arith, length-append a.options (name_of l), length-name_of l))))
  | inl p ↦ elim (Bool-cases (ltb (length a.rtpmap + 22) 128)) [
    | inr q ↦ inl (
        ap (both (strcpy 128 (a.options ++ name_of l))) (
          strcpy-overflows 128 (a.rtpmap ++ map_of l)
            (ground (arith, length-append a.rtpmap (map_of l), length-map_of l)))
        ∙ both-none (strcpy 128 (a.options ++ name_of l)))
    | inl q ↦ inr (append_codec-fits l a (ground arith) (ground arith), ground arith)
  ]
]
