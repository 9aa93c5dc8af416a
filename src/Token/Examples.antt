-- ===== src/Token/Examples.antt =====
-- Examples for the tokens: an address of four bytes, a connection id of three.
use gfhttpd.Base.{◌≡◌, ◌↔◌, ◌≤◌, refl, Bytes, ◌++◌, ◌∷◌, [], ok, length, arith, some}
use gfhttpd.Token.{prefix, mint_token, validate_token}
use gfhttpd.Token.Laws.{validate_token_iff, validate_token-mint_token}

abbrev addr : Bytes
addr = 10 ∷ 0 ∷ 0 ∷ 1 ∷ []

abbrev addr' : Bytes
addr' = 10 ∷ 0 ∷ 0 ∷ 2 ∷ []

abbrev dcid : Bytes
dcid = 7 ∷ 8 ∷ 9 ∷ []

abbrev token : Bytes
token = prefix ++ (addr ++ dcid)

minted : mint_token 64 dcid addr ≡ ok token
unfolding mint_token
minted = refl

validate_token_iff_example :
    (validate_token token addr 20 ≡ some dcid)
    ↔ ((token ≡ prefix ++ (addr ++ dcid)) × (length dcid ≤ 20))
validate_token_iff_example = validate_token_iff token addr dcid 20

validate_token-mint_token_example : validate_token token addr 20 ≡ some dcid
validate_token-mint_token_example =
    validate_token-mint_token 64 dcid addr token 20 minted (omega arith)
