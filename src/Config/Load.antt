-- ===== src/Config/Load.antt =====
-- `json_contains`, `conf_load` and `config_free` of main/config/config.c. jsmn is a parameter.
use gfhttpd.Base.{
  ℕ, zero, suc, ◌+◌, ◌-◌, ◌*◌, Bool, true, false, not, ◌&&◌, Option, List, [], ◌∷◌, Run, ok, fault,
  ◌>>=◌, Bytes, bytes, c_str, starts_with, length, take, drop, ltb, if◌then◌else◌, ℤ, pos, negsuc,
  minus, is_int, is_negative, is_zero,
}
use gfhttpd.Routes.Interfaces.{HashTable, Pcre2}
use gfhttpd.Routes.{Route, delete_routes_all}
use gfhttpd.Config.{
  Token, TokenType, primitive, undefined, object, array, string, tok_at, locations_parser,
}

-- jsmn: a parser's state, and `jsmn_parse` of a text into the array `t` from an entry on, of which
-- it may fill a number; the result, the state, and the array.
pub record Jsmn : Type 1 where
  pub Parser : Type 0
  pub init : Parser
  pub parse : Parser → Bytes → ℕ → ℕ → List Token → ℤ × (Parser × List Token)

-- `sizeof(t[0])`
abbrev pub token_size : ℕ
token_size = 16

-- Where `ptok` points when `tokcount` tokens were count_tokens: the pointer is moved by as many
-- entries as the tokens have bytes.
abbrev pub ptok : ℕ → ℕ
ptok tokcount = tokcount * token_size

abbrev pub is_primitive : TokenType → Bool
is_primitive primitive = true
is_primitive undefined = false
is_primitive object = false
is_primitive array = false
is_primitive string = false

-- The fields of `struct config` that an entry of the map writes to.
pub data Dest : Type 0 where
  to_listen_port : Dest
  to_cert_file : Dest
  to_key_file : Dest
  to_locations : Dest

-- `struct config_map`, whose entries are all required.
pub record ConfigMap : Type 0 where
  pub token_name : Bytes
  pub dest : Dest

abbrev pub config_map : List ConfigMap
config_map =
    record { token_name = bytes "listen_port"; dest = to_listen_port }
    ∷ record { token_name = bytes "cert_file"; dest = to_cert_file }
    ∷ record { token_name = bytes "key_file"; dest = to_key_file }
    ∷ record { token_name = bytes "locations"; dest = to_locations }
    ∷ []

-- `snprintf` of a token with "%.*s" into a buffer of `n_dest` bytes.
abbrev pub print_token : ℕ → Bytes → Token → Bytes
print_token n_dest json tok =
    take (n_dest - 1) (take (tok.end_ - tok.start) (c_str (drop (tok.start) json)))

-- The test of `json_contains`.
abbrev pub is_named : Bytes → Token → Bytes → Bool
is_named json tok token_name =
    is_primitive (tok.type)
    && is_int (minus (tok.end_) (tok.start)) (length token_name)
    && starts_with (drop (tok.start) json) token_name

-- JSMN_ERROR_NOMEM
abbrev pub is_nomem : ℤ → Bool
is_nomem (pos n) = false
is_nomem (negsuc zero) = true
is_nomem (negsuc (suc n)) = false

module _ (p : Pcre2) (h : HashTable (Route p)) where
  -- `struct config`; `mp` says whether the pool is there.
  pub record Config : Type 0 where
    pub listen_port : Bytes
    pub cert_file : Bytes
    pub key_file : Bytes
    pub routes : h.Table
    pub mp : Bool

  -- What is done with the token after the name.
  abbrev pub store_value : Dest → List Token → Bytes → ℕ → Config → Run (ℤ × Config)
  store_value to_listen_port tokens json i config = tok_at tokens (i + 1) >>= λ value.
      ok (pos 1, record config { listen_port = print_token 8 json value })
  store_value to_cert_file tokens json i config = tok_at tokens (i + 1) >>= λ value.
      ok (pos 1, record config { cert_file = print_token 256 json value })
  store_value to_key_file tokens json i config = tok_at tokens (i + 1) >>= λ value.
      ok (pos 1, record config { key_file = print_token 256 json value })
  store_value to_locations tokens json i config =
      locations_parser p h (config.mp) tokens json i (config.routes) >>= λ r.
      ok (r.0, record config { routes = r.1 })

  unfoldable pub json_contains : List Token → Bytes → ℕ → ConfigMap → Config → Run (ℤ × Config)
  json_contains tokens json i entry config = tok_at tokens i >>= λ tok.
      if is_named json tok (entry.token_name)
      then store_value (entry.dest) tokens json i config
      else ok (pos 0, config)

  -- How the search for an entry ends.
  pub data Search : Type 0 where
    found : Config → Search
    missing : Config → Search
    broken : ℤ → Config → Search

  -- The search from the token `i` on, over `n` tokens.
  unfoldable pub search_loop : List Token → Bytes → ConfigMap → ℕ → ℕ → Config → Run Search
  search_loop tokens json entry i zero config = ok (missing config)
  search_loop tokens json entry i (suc n) config = json_contains tokens json i entry config >>= λ r.
      (let rest = search_loop tokens json entry (i + 1) n r.1 in
        if is_negative r.0
        then ok (broken r.0 r.1)
        else if is_zero r.0
        then rest
        else ok (found r.1))

  -- The tokens after the first, of `r`.
  abbrev pub searched : ℤ → ℕ
  searched (pos r) = r - 1
  searched (negsuc r) = 0

  -- `tokcount += r`, which counts after an error are not used again.
  abbrev pub count_tokens : ℕ → ℤ → ℕ
  count_tokens tokcount (pos r) = tokcount + r
  count_tokens tokcount (negsuc r) = tokcount

  -- How the entries of a chunk end: all were found, or `conf_load` returns.
  pub data ChunkEnd : Type 0 where
    taken : Config → ChunkEnd
    left : ℤ → Config → ChunkEnd

  -- What follows the search for an entry.
  abbrev pub after_search : (Config → Run ChunkEnd) → Search → Run ChunkEnd
  after_search rest (found config) = rest config
  after_search rest (missing config) = ok (left (negsuc 0) config)
  after_search rest (broken z config) = ok (left z config)

  unfoldable pub entries_loop : List ConfigMap → List Token → Bytes → ℤ → Config → Run ChunkEnd
  unfolding search_loop
  entries_loop [] tokens json r config = ok (taken config)
  entries_loop (entry ∷ entries) tokens json r config =
      search_loop tokens json entry 1 (searched r) config
      >>= after_search (entries_loop entries tokens json r)

  -- The codes that are freed, and whether the pool is deleted.
  unfoldable pub config_free : Config → Config × (List (Option (p.Code)) × Bool)
  config_free config =
      let (routes, codes) = delete_routes_all p h (config.routes) in
      (record config { routes = routes; mp = false }, (codes, config.mp))

  module _ (j : Jsmn) where
    -- A chunk that `fread` gave, with `tokcount` tokens before it. JSMN_ERROR_NOMEM is -1; another
    -- error leaves no tokens to search.
    unfoldable pub on_chunk :
        ℕ → j.Parser → List Token → Bytes → Config → Run (ChunkEnd × (ℕ × (j.Parser × List Token)))
    unfolding entries_loop
    on_chunk tokcount state tokens buf config =
        if ltb 256 (ptok tokcount)
        then fault
        else (let (r, (state', tokens')) =
              j.parse state buf (ptok tokcount) (256 - tokcount) tokens in
            if is_nomem r
            then ok (left r config, (count_tokens tokcount r, (state', tokens')))
            else (entries_loop config_map tokens' buf r config >>= λ c.
                ok (c, (count_tokens tokcount r, (state', tokens')))))

    -- What follows a chunk.
    abbrev pub after_chunk :
        (ℕ → j.Parser → List Token → Config → Run (ℤ × Config))
        → ChunkEnd × (ℕ × (j.Parser × List Token))
        → Run (ℤ × Config)
    after_chunk rest (left z config, after) = ok (z, config)
    after_chunk rest (taken config, (tokcount, (state, tokens))) = rest tokcount state tokens config

    -- The chunks that are left to read; at the end of the file `r` is 0.
    unfoldable pub chunks_loop : List Bytes → ℕ → j.Parser → List Token → Config → Run (ℤ × Config)
    unfolding on_chunk
    chunks_loop [] tokcount state tokens config = ok (pos 0, config)
    chunks_loop (buf ∷ chunks) tokcount state tokens config =
        on_chunk tokcount state tokens buf config >>= after_chunk (chunks_loop chunks)

    -- `opened` is whether `fdopen` gave a file.
    unfoldable pub conf_load : Bool → List Bytes → Config → Run (ℤ × Config)
    unfolding chunks_loop
    conf_load opened chunks config =
        if not opened then ok (negsuc 0, config) else chunks_loop chunks 0 (j.init) [] config
