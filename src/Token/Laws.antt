-- ===== src/Token/Laws.antt =====
-- Which tokens `validate_token` accepts.
use gfhttpd.Base.{
  ℕ, ◌≤◌, ◌≡◌, ◌≢◌, ◌↔◌, sym, ap, ◌∙◌, true, not, ◌||◌, Option, none, some, ◌++◌, arith, ok, Bytes,
  length, drop, take, ltb, starts_with, if◌then◌else◌, starts_with-append, eq-append_of_starts_with,
  length-append, drop-append, take-append, Option-cases, inl, inr, Bool-cases,
}
use gfhttpd.Token.{prefix, mint_token, validate_token}

-- The second half of `validate_token`.
abbrev rest_of : Bytes → Bytes → ℕ → Option Bytes
rest_of token addr odcid_len =
    if ltb (length token) (length addr) || not (starts_with token addr)
    then none
    else (let rest = drop (length addr) token in
        if ltb odcid_len (length rest) then none else some rest)

rest_of-append : (addr d : Bytes) (n : ℕ) → length d ≤ n → rest_of (addr ++ d) addr n ≡ some d
rest_of-append addr d n fits =
    ground (arith, starts_with-append addr d, drop-append addr d, length-append addr d)

rest_of_sound :
    (token addr d : Bytes) (n : ℕ)
    → rest_of token addr n ≡ some d
    → (token ≡ addr ++ d) × (length d ≤ n)
rest_of_sound token addr d n h = ground (arith, eq-append_of_starts_with token addr)

prefixed :
    (token addr d : Bytes) (n : ℕ)
    → starts_with token prefix ≡ true
    → rest_of (drop (length prefix) token) addr n ≡ some d
    → (token ≡ prefix ++ (addr ++ d)) × (length d ≤ n)
prefixed token addr d n p h =
    (let e = rest_of_sound (drop (length prefix) token) addr d n h in
      (eq-append_of_starts_with token prefix p ∙ ap (prefix ++◌) e.0, e.1))

accepted :
    (token addr d : Bytes) (n : ℕ)
    → validate_token token addr n ≡ some d
    → (token ≡ prefix ++ (addr ++ d)) × (length d ≤ n)
unfolding validate_token
accepted token addr d n h = elim (Bool-cases (starts_with token prefix)) [
  | inl p ↦ prefixed token addr d n p (ground arith)
  | inr p ↦ ground arith
]

accepts :
    (token addr d : Bytes) (n : ℕ)
    → (token ≡ prefix ++ (addr ++ d)) × (length d ≤ n)
    → validate_token token addr n ≡ some d
unfolding validate_token
accepts token addr d n (e, fits) = rw e (ground (arith, rest_of-append addr d n fits))

-- `validate_token` accepts exactly the tokens that consist of "quiche", the peer's address, and
-- a connection id that fits the buffer; the id is its result.
pub validate_token_iff :
    (token addr d : Bytes) (n : ℕ)
    → (validate_token token addr n ≡ some d) ↔ ((token ≡ prefix ++ (addr ++ d)) × (length d ≤ n))
unfolding validate_token
validate_token_iff token addr d n = (accepted token addr d n, accepts token addr d n)

-- A token of `mint_token` is accepted from the address it was minted for, and gives back the
-- connection id: the buffer for the id must hold it.
pub validate_token-mint_token :
    (size : ℕ) (dcid addr token : Bytes) (n : ℕ)
    → mint_token size dcid addr ≡ ok token
    → length dcid ≤ n
    → validate_token token addr n ≡ some dcid
unfolding mint_token
validate_token-mint_token size dcid addr token n minted fits =
    (validate_token_iff token addr dcid n).1 (ground (arith), fits)

-- The address is what the first bytes after "quiche" say.
same_addr :
    (addr addr' dcid d : Bytes)
    → length addr' ≡ length addr
    → prefix ++ (addr ++ dcid) ≡ prefix ++ (addr' ++ d)
    → addr' ≡ addr
same_addr addr addr' dcid d same e =
    sym (take-append addr' d)
    ∙ ap (λ t. take (length addr') (drop (length prefix) t)) (sym e)
    ∙ ap (λ k. take k (addr ++ dcid)) same
    ∙ take-append addr dcid

-- A token minted for one address is refused from every other address of the same length.
validate_token-other_addr :
    (size : ℕ) (dcid addr addr' token : Bytes) (n : ℕ)
    → mint_token size dcid addr ≡ ok token
    → length addr' ≡ length addr
    → addr' ≢ addr
    → validate_token token addr' n ≡ none
unfolding mint_token
validate_token-other_addr size dcid addr addr' token n minted same other =
    elim (Option-cases (validate_token token addr' n)) [
      | inl none' ↦ none'
      | inr (d, some') ↦ absurd (
          other
            (same_addr addr addr' dcid d same (ground (arith, (accepted token addr' d n some').0))))
    ]
