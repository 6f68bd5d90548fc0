-- ===== src/Codec/Utf8.antt =====
-- The test of `std::str::from_utf8`: well-formed UTF-8.
use inoxset.Prelude.{
  ℕ, zero, suc, Bytes, Bool, true, false, ◌&&◌, ◌≡◌, ◌<◌, Option, none, some, [], ◌∷◌, ltb, within,
  if◌then◌else◌, arith,
}

-- For a lead byte: how many bytes follow, and the range of the first of them.
unfoldable pub lead : ℕ → Option (ℕ × ℕ × ℕ)
lead b =
    if ltb b 0x80
    then some (0, 0x80, 0xBF)
    else if within 0xC2 0xDF b
    then some (1, 0x80, 0xBF)
    else if within 0xE0 0xE0 b
    then some (2, 0xA0, 0xBF)
    else if within 0xED 0xED b
    then some (2, 0x80, 0x9F)
    else if within 0xE1 0xEF b
    then some (2, 0x80, 0xBF)
    else if within 0xF0 0xF0 b
    then some (3, 0x90, 0xBF)
    else if within 0xF1 0xF3 b
    then some (3, 0x80, 0xBF)
    else if within 0xF4 0xF4 b
    then some (3, 0x80, 0x8F)
    else none

-- `n` continuation bytes are due, the first of them from `lo` to `hi`.
unfoldable pub utf8_from : ℕ → ℕ → ℕ → Bytes → Bool
unfolding lead
utf8_from zero lo hi [] = true
utf8_from (suc n) lo hi [] = false
utf8_from (suc n) lo hi (b ∷ bs) = within lo hi b && utf8_from n 0x80 0xBF bs
utf8_from zero lo hi (b ∷ bs) = elim (lead b) [
  | none ↦ false
  | some (n, lo', hi') ↦ utf8_from n lo' hi' bs
]

unfoldable pub is_utf8 : Bytes → Bool
unfolding utf8_from
is_utf8 s = utf8_from 0 0x80 0xBF s

abbrev pub IsAscii : Bytes → Type 0
IsAscii [] = Unit
IsAscii (b ∷ bs) = (b < 0x80) × IsAscii bs

ascii_from : (lo hi : ℕ) (s : Bytes) → IsAscii s → utf8_from 0 lo hi s ≡ true
unfolding utf8_from
ascii_from lo hi [] h = ground arith
ascii_from lo hi (b ∷ bs) h = ground (arith, ascii_from 0x80 0xBF bs)

-- ASCII text is UTF-8.
pub IsAscii-utf8 : (s : Bytes) → IsAscii s → is_utf8 s ≡ true
unfolding is_utf8
IsAscii-utf8 s h = ascii_from 0x80 0xBF s h
