-- ===== src/Token.antt =====
-- The address validation tokens of main/http3/event_cb.c: `mint_token` and `validate_token`.
pub mod Laws
mod Examples
use gfhttpd.Base.{
  ℕ, ◌+◌, ◌-◌, Bool, true, false, not, ◌||◌, Option, none, some, List, [], ◌∷◌, ◌++◌, Run, ok,
  fault, Bytes, bytes, length, drop, ltb, leb, starts_with, if◌then◌else◌,
}

-- "quiche", without its NUL.
abbrev pub prefix : Bytes
prefix = bytes "quiche"

-- `size` is what the buffer `token` holds; the result is what is written to it, its length
-- `*token_len`. `addr` and `dcid` are the first `addr_len` and `dcid_len` bytes.
unfoldable pub mint_token : ℕ → Bytes → Bytes → Run Bytes
mint_token size dcid addr =
    if leb (length prefix + length addr + length dcid) size
    then ok (prefix ++ (addr ++ dcid))
    else fault

-- `odcid_len` is the size of the buffer for the result; `none` stands for `false`.
unfoldable pub validate_token : Bytes → Bytes → ℕ → Option Bytes
validate_token token addr odcid_len =
    if ltb (length token) (length prefix) || not (starts_with token prefix)
    then none
    else (let token' = drop (length prefix) token in
        if ltb (length token') (length addr) || not (starts_with token' addr)
        then none
        else (let rest = drop (length addr) token' in
            if ltb odcid_len (length rest) then none else some rest))
