-- ===== src/Text.antt =====
-- JavaScript strings: lists of UTF-16 code units, their order, and the UTF-8 bytes of one.
use Prim.Native.Char.{code}
use Prim.Native.String.{String}
use vcap_spec.Prelude.{
  ℕ, ◌+◌, ◌-◌, ◌*◌, ◌/◌, ◌%◌, ◌≡◌, ◌⊎◌, refl, Bool, true, false, ◌&&◌, List, [], ◌∷◌, ◌++◌, ltb,
  leb, ◌==◌, if◌then◌else◌, arith,
}
use vcap_spec.Bytes.{Bytes}

abbrev pub Text : Type 0
Text = List ℕ

-- The code units of an ASCII literal.
abbrev pub text : String → Text
text String.[] = []
text (String.◌∷◌ c s) = code c ∷ text s

-- `a < b`, which the default `sort` goes by: the first code unit that differs decides.
unfoldable pub text_ltb : Text → Text → Bool
text_ltb [] [] = false
text_ltb [] (y ∷ ys) = true
text_ltb (x ∷ xs) [] = false
text_ltb (x ∷ xs) (y ∷ ys) = if ltb x y then true else x == y && text_ltb xs ys

pub text_ltb_asymm : (a b : Text) → text_ltb a b ≡ true → text_ltb b a ≡ false
unfolding text_ltb
text_ltb_asymm [] [] h = cc
text_ltb_asymm [] (y ∷ ys) h = refl
text_ltb_asymm (x ∷ xs) [] h = cc
text_ltb_asymm (x ∷ xs) (y ∷ ys) h = ground (arith, text_ltb_asymm xs ys)

pub text_ltb_trans :
    (a b c : Text) → text_ltb a b ≡ true → text_ltb b c ≡ true → text_ltb a c ≡ true
unfolding text_ltb
text_ltb_trans [] [] c h k = cc
text_ltb_trans [] (y ∷ ys) [] h k = cc
text_ltb_trans [] (y ∷ ys) (z ∷ zs) h k = refl
text_ltb_trans (x ∷ xs) [] c h k = cc
text_ltb_trans (x ∷ xs) (y ∷ ys) [] h k = cc
text_ltb_trans (x ∷ xs) (y ∷ ys) (z ∷ zs) h k = ground (arith, text_ltb_trans xs ys zs)

-- Of two texts one is less, or they are the same.
pub text_ltb_total : (a b : Text) → (text_ltb a b ≡ true) ⊎ (text_ltb b a ≡ true) ⊎ (a ≡ b)
unfolding text_ltb
text_ltb_total [] [] = ground arith
text_ltb_total [] (y ∷ ys) = ground arith
text_ltb_total (x ∷ xs) [] = ground arith
text_ltb_total (x ∷ xs) (y ∷ ys) = ground (arith, text_ltb_total xs ys)

abbrev is_high : ℕ → Bool
is_high u = leb 0xD800 u && leb u 0xDBFF

abbrev is_low : ℕ → Bool
is_low u = leb 0xDC00 u && leb u 0xDFFF

-- The UTF-8 bytes of a code point.
utf8_point : ℕ → Bytes
utf8_point c =
    if ltb c 0x80
    then c ∷ []
    else if ltb c 0x800
    then (0xC0 + c / 64) ∷ (0x80 + c % 64) ∷ []
    else if ltb c 0x10000
    then (0xE0 + c / 4096) ∷ (0x80 + c / 64 % 64) ∷ (0x80 + c % 64) ∷ []
    else (0xF0 + c / 262144) ∷ (0x80 + c / 4096 % 64) ∷ (0x80 + c / 64 % 64) ∷ (0x80 + c % 64) ∷ []

-- A unit of the surrogate range that is no pair is written as U+FFFD.
utf8_alone : ℕ → Bytes
utf8_alone u = if leb 0xD800 u && leb u 0xDFFF then utf8_point 0xFFFD else utf8_point u

-- `Buffer.from(text, 'utf8')`.
unfoldable pub utf8 : Text → Bytes
unfolding utf8_alone utf8_point
utf8 [] = []
utf8 (u ∷ []) = utf8_alone u
utf8 (u ∷ v ∷ r) = elim (is_high u && is_low v) [
  | true ↦ utf8_point (0x10000 + (u - 0xD800) * 1024 + (v - 0xDC00)) ++ utf8 r
  | false ↦ utf8_alone u ++ utf8 (v ∷ r)
]
