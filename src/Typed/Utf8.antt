-- ===== src/Typed/Utf8.antt =====
-- What avp.go uses of UTF-8: `utf8.Valid`, and `string` of a slice of runes.
use diameterapi.Common.{
  ℕ, zero, suc, ◌+◌, ◌/◌, ◌%◌, Bool, true, false, ◌&&◌, ◌||◌, ltb, leb, if◌then◌else◌, List, [],
  ◌∷◌, ◌++◌, Option, none, some,
}
use diameterapi.Wire.{Bytes}

-- For the first byte of a character: how many bytes follow, and between which bytes the next lies.
unfoldable pub lead : ℕ → Option (ℕ × ℕ × ℕ)
lead b =
    if ltb b 0x80
    then some (0, 0x80, 0xbf)
    else if ltb b 0xc2
    then none
    else if leb b 0xdf
    then some (1, 0x80, 0xbf)
    else if leb b 0xe0
    then some (2, 0xa0, 0xbf)
    else if leb b 0xec
    then some (2, 0x80, 0xbf)
    else if leb b 0xed
    then some (2, 0x80, 0x9f)
    else if leb b 0xef
    then some (2, 0x80, 0xbf)
    else if leb b 0xf0
    then some (3, 0x90, 0xbf)
    else if leb b 0xf3
    then some (3, 0x80, 0xbf)
    else if leb b 0xf4
    then some (3, 0x80, 0x8f)
    else none

-- `n` more bytes belong to the character, the next one between `low` and `high`.
unfoldable pub valid_from : ℕ → ℕ → ℕ → Bytes → Bool
unfolding lead
valid_from zero low high [] = true
valid_from (suc n) low high [] = false
valid_from (suc n) low high (b ∷ bs) = leb low b && leb b high && valid_from n 0x80 0xbf bs
valid_from zero low high (b ∷ bs) = elim (lead b) [
  | none ↦ false
  | some (n, l, h) ↦ valid_from n l h bs
]

unfoldable pub utf8_valid : Bytes → Bool
unfolding valid_from
utf8_valid bs = valid_from 0 0x80 0xbf bs

-- A rune that is no character is written as U+FFFD.
unfoldable pub encode_rune : ℕ → Bytes
encode_rune r =
    if ltb r 0x80
    then r ∷ []
    else if ltb r 0x800
    then (0xc0 + r / 0x40) ∷ (0x80 + r % 0x40) ∷ []
    else if (leb 0xd800 r && leb r 0xdfff) || ltb 0x10ffff r
    then 0xef ∷ 0xbf ∷ 0xbd ∷ []
    else if ltb r 0x10000
    then (0xe0 + r / 0x1000) ∷ (0x80 + r / 0x40 % 0x40) ∷ (0x80 + r % 0x40) ∷ []
    else (0xf0 + r / 0x40000)
      ∷ (0x80 + r / 0x1000 % 0x40)
      ∷ (0x80 + r / 0x40 % 0x40)
      ∷ (0x80 + r % 0x40)
      ∷ []

unfoldable pub encode_runes : List ℕ → Bytes
unfolding encode_rune
encode_runes [] = []
encode_runes (r ∷ rs) = encode_rune r ++ encode_runes rs
