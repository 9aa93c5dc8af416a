-- ===== src/Decode.antt =====
-- `hex_to_uint` and `percent_decode` of main/http2/event_cb.c.
pub mod Overrun
pub mod Reference
pub mod Result
mod Examples
mod Steps
use gfhttpd.Base.{
  ℕ, zero, suc, ◌+◌, ◌-◌, ◌*◌, ◌%◌, Bool, true, false, not, ◌&&◌, ◌||◌, Option, none, some, List,
  [], ◌∷◌, ◌++◌, Run, ok, fault, out_of_fuel, ◌>>=◌, Bytes, length, get_elem?, take, ltb, leb, ◌==◌,
  if◌then◌else◌,
}

-- `isxdigit` in the C locale.
unfoldable pub isxdigit : ℕ → Bool
isxdigit c = (leb b'0' c && leb c b'9') || (leb b'A' c && leb c b'F') || (leb b'a' c && leb c b'f')

unfoldable pub hex_to_uint : ℕ → ℕ
hex_to_uint c =
    if leb b'0' c && leb c b'9'
    then c - b'0'
    else if leb b'A' c && leb c b'F'
    then c - b'A' + 10
    else if leb b'a' c && leb c b'f'
    then c - b'a' + 10
    else 0

-- A read of `value[i]`.
abbrev pub read : Bytes → ℕ → Run ℕ
read buf i = elim (get_elem? buf i) [ none ↦ fault | some b ↦ ok b ]

-- `res[j++] = b`, where `out` holds the first `j` bytes of a buffer of `size` bytes.
abbrev pub put : ℕ → Bytes → ℕ → Run Bytes
put size out b = if ltb (length out) size then ok (out ++ b ∷ []) else fault

-- Whether an escape stands at `i`. As in C, a byte is read only if those before it fit.
pub escape_at : Bytes → ℕ → Run Bool
escape_at buf i = do
  c ← read buf i
  if not (c == b'%') then ok false else do
    a ← read buf (i + 1)
    if not (isxdigit a) then ok false else do b ← read buf (i + 2); ok (isxdigit b)

-- One round of the loop over `i` and `j`.
pub decode_step : Bytes → ℕ → ℕ × Bytes → Run (ℕ × Bytes)
unfolding escape_at hex_to_uint isxdigit
decode_step buf size (i, out) = do
  escape ← escape_at buf i
  if escape
      then (do
        a ← read buf (i + 1)
        b ← read buf (i + 2)
        out' ← put size out ((hex_to_uint a * 16 + hex_to_uint b) % 256)
        ok (i + 3, out'))
      else (do c ← read buf i; out' ← put size out c; ok (i + 1, out'))

pub decode_loop : ℕ → Bytes → ℕ → ℕ × Bytes → Run (ℕ × Bytes)
decode_loop zero buf n s = out_of_fuel
decode_loop (suc f) buf n s = elim (ltb s.0 (n - 2)) [
  | true ↦ (decode_step buf (n + 1) s >>= decode_loop f buf n)
  | false ↦ ok s
]

-- `memcpy(&res[j], &value[i], 2)`
pub copy_two : Bytes → ℕ → ℕ × Bytes → Run Bytes
copy_two buf size (i, out) = do
  a ← read buf i
  b ← read buf (i + 1)
  out ← put size out a
  put size out b

-- What follows the loop.
pub finish : Bytes → ℕ → ℕ × Bytes → Run Bytes
unfolding copy_two
finish buf n s = do out ← copy_two buf (n + 1) s; put (n + 1) out 0

-- `memcpy(res, value, n)` into an empty `res`.
pub copy_all : ℕ → Bytes → ℕ → ℕ → Bytes → Run Bytes
copy_all size buf zero i out = ok out
copy_all size buf (suc k) i out = do
  b ← read buf i
  out ← put size out b
  copy_all size buf k (i + 1) out

-- `buf` is the memory that can be read from `value` on, `n` is `valuelen`; the result is what has
-- been written to `res`, the final NUL included. `malloc` is taken to succeed.
unfoldable pub percent_decode : Bytes → ℕ → Run Bytes
unfolding decode_step decode_loop finish copy_all
percent_decode buf n =
    if ltb 3 n
    then decode_loop (n + 1) buf n (0, []) >>= finish buf n
    else (do out ← copy_all (n + 1) buf n 0 []; put (n + 1) out 0)
