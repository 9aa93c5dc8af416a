-- ===== src/Decode/Reference.antt =====
-- Percent-decoding as a function of the whole text, and what `percent_decode` does instead.
use gfhttpd.Base.{
  ℕ, ◌+◌, ◌-◌, ◌*◌, ◌%◌, ◌≡◌, Bool, true, false, ◌&&◌, ◌∷◌, arith, Bytes, length, ◌==◌,
}
use gfhttpd.Decode.{isxdigit, hex_to_uint}

abbrev pub is_escape : ℕ → ℕ → ℕ → Bool
is_escape c a b = (c == b'%') && isxdigit a && isxdigit b

-- Every "%XY" with two hexadecimal digits stands for the byte 0xXY; all else for itself.
unfoldable pub decoded : Bytes → Bytes
unfolding hex_to_uint
decoded (c ∷ a ∷ b ∷ s) = elim (is_escape c a b) [
  | true ↦ ((hex_to_uint a * 16 + hex_to_uint b) % 256) ∷ decoded s
  | false ↦ c ∷ decoded (a ∷ b ∷ s)
]
decoded s = s

-- How many bytes after the text are copied: the two that are missing after an escape at its end,
-- the one that is missing if one byte follows the last escape.
unfoldable pub overrun : Bytes → ℕ
overrun (c ∷ a ∷ b ∷ s) = elim (is_escape c a b) [ true ↦ overrun s | false ↦ overrun (a ∷ b ∷ s) ]
overrun s = 2 - length s

module _ (c a b : ℕ) (w : Bytes) where
  pub decoded-escape :
      is_escape c a b ≡ true
      → decoded (c ∷ a ∷ b ∷ w) ≡ ((hex_to_uint a * 16 + hex_to_uint b) % 256) ∷ decoded w
  unfolding decoded
  decoded-escape e = ground (arith, e)

  pub decoded-literal : is_escape c a b ≡ false → decoded (c ∷ a ∷ b ∷ w) ≡ c ∷ decoded (a ∷ b ∷ w)
  unfolding decoded
  decoded-literal e = ground (arith, e)

  pub overrun-escape : is_escape c a b ≡ true → overrun (c ∷ a ∷ b ∷ w) ≡ overrun w
  unfolding overrun
  overrun-escape e = ground (arith, e)

  pub overrun-literal : is_escape c a b ≡ false → overrun (c ∷ a ∷ b ∷ w) ≡ overrun (a ∷ b ∷ w)
  unfolding overrun
  overrun-literal e = ground (arith, e)
