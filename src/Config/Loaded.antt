-- ===== src/Config/Loaded.antt =====
-- `conf_load` of main/config/config.c takes a configuration that has all its names.
use gfhttpd.Base.{
  Bool, ℕ, zero, suc, ◌+◌, ◌-◌, ◌≡◌, ap, ◌⊎◌, inl, inr, true, false, List, [], ◌∷◌, ok, Bytes,
  bytes, ℤ, pos, is_zero, arith,
}
use gfhttpd.Routes.Interfaces.{HashTable, Pcre2}
use gfhttpd.Routes.{Route}
use gfhttpd.Config.{Token, tok_at, locations_parser}
use gfhttpd.Config.Load.{
  Jsmn, to_listen_port, to_cert_file, to_key_file, to_locations, ConfigMap, config_map, print_token,
  is_named, Config, store_value, json_contains, found, search_loop, searched, taken, entries_loop,
  on_chunk, chunks_loop, conf_load,
}

module _ (tokens : List Token) (json : Bytes) where
  -- Of the `n` tokens from `i` on, the one at `at` is the first that names `name`.
  abbrev pub IsFirst : Bytes → ℕ → ℕ → ℕ → Type 0
  IsFirst name i zero at = ⊥
  IsFirst name i (suc n) at =
      ((i ≡ at) × (tok : Token) × (tok_at tokens i ≡ ok tok) × (is_named json tok name ≡ true))
      ⊎ ((tok : Token) × (tok_at tokens i ≡ ok tok)
          × (is_named json tok name ≡ false)
          × IsFirst name (i + 1) n at)

  -- A name of the map is there, with a token behind it.
  pub record IsGiven (name : Bytes) (n : ℕ) : Type 0 where
    pub at : ℕ
    pub first : IsFirst name 1 n at
    pub value : Token
    pub behind : tok_at tokens (at + 1) ≡ ok value

  module _ (p : Pcre2) (h : HashTable (Route p)) where
    json_contains-named :
        (entry : ConfigMap) (i : ℕ) (config : Config p h) (res : ℤ × Config p h) (tok : Token)
        → tok_at tokens i ≡ ok tok
        → is_named json tok (entry.token_name) ≡ true
        → store_value p h (entry.dest) tokens json i config ≡ ok res
        → json_contains p h tokens json i entry config ≡ ok res
    unfolding json_contains
    json_contains-named entry i config res tok there named stored =
        rw (there, json_contains) (rw named stored)

    json_contains-other :
        (entry : ConfigMap) (i : ℕ) (config : Config p h) (tok : Token)
        → tok_at tokens i ≡ ok tok
        → is_named json tok (entry.token_name) ≡ false
        → json_contains p h tokens json i entry config ≡ ok (pos 0, config)
    unfolding json_contains
    json_contains-other entry i config tok there other = rw (there, json_contains) (rw other)

    suc_is_no_zero : (z : ℕ) → is_zero (pos (suc z)) ≡ false
    suc_is_no_zero z = ground arith

    -- The search ends at the first token of the name, if its value can be stored.
    search_loop-first :
        (entry : ConfigMap) (n i at z : ℕ) (config config' : Config p h)
        → IsFirst (entry.token_name) i n at
        → store_value p h (entry.dest) tokens json at config ≡ ok (pos (suc z), config')
        → search_loop p h tokens json entry i n config ≡ ok (found config')
    unfolding search_loop
    search_loop-first entry zero i at z config config' none' stored = elim none' [ ]
    search_loop-first entry (suc n) i at z config config' (inl (here, tok, there, named)) stored =
        rw (
          json_contains-named entry i config (pos (suc z), config') tok there named
              (rw here stored),
          suc_is_no_zero z,
        )
    search_loop-first entry (suc n) i at z config config' (inr (tok, there, other, more)) stored =
        rw (json_contains-other entry i config tok there other)
          (search_loop-first entry n (i + 1) at z config config' more stored)

    -- All names are there; the locations are parsed, with the pool where a location has modules.
    pub record IsConfig (n : ℕ) (mp : Bool) (routes routes' : h.Table) : Type 0 where
      pub listen_port : IsGiven (bytes "listen_port") n
      pub cert_file : IsGiven (bytes "cert_file") n
      pub key_file : IsGiven (bytes "key_file") n
      pub locations : ℕ
      pub first : IsFirst (bytes "locations") 1 n locations
      pub processed : ℕ
      pub parsed :
          locations_parser p h mp tokens json locations routes ≡ ok (pos (suc processed), routes')

    -- The configuration with what its names give.
    abbrev pub configured :
        (n : ℕ) (config : Config p h) (routes' : h.Table)
        → IsConfig n (config.mp) (config.routes) routes'
        → Config p h
    configured n config routes' c = record config {
      listen_port = print_token 8 json ((c.listen_port).value);
      cert_file = print_token 256 json ((c.cert_file).value);
      key_file = print_token 256 json ((c.key_file).value);
      routes = routes';
    }

    entries_loop-configured :
        (r : ℤ) (config : Config p h) (routes' : h.Table)
        (c : IsConfig (searched p h r) (config.mp) (config.routes) routes')
        → entries_loop p h config_map tokens json r config
          ≡ ok (taken (configured (searched p h r) config routes' c))
    unfolding entries_loop
    entries_loop-configured r config routes' c =
        let n = searched p h r in
        let port = c.listen_port in
        let cert = c.cert_file in
        let key = c.key_file in
        let with_port : Config p h = record config {
          listen_port = print_token 8 json (port.value);
        } in
        let with_cert : Config p h = record with_port {
          cert_file = print_token 256 json (cert.value);
        } in
        let with_key : Config p h = record with_cert {
          key_file = print_token 256 json (key.value);
        } in
        rw
          (search_loop-first record { token_name = bytes "listen_port"; dest = to_listen_port } n 1
            (port.at) 0 config with_port (port.first) (rw (port.behind)))
          (rw
            (search_loop-first record { token_name = bytes "cert_file"; dest = to_cert_file } n 1
              (cert.at) 0 with_port with_cert (cert.first) (rw (cert.behind)))
            (rw
              (search_loop-first record { token_name = bytes "key_file"; dest = to_key_file } n 1
                (key.at) 0 with_cert with_key (key.first) (rw (key.behind)))
              (rw (
                search_loop-first record { token_name = bytes "locations"; dest = to_locations } n 1
                  (c.locations) (c.processed) with_key (configured n config routes' c) (c.first)
                  (rw (c.parsed))))))

-- A file of one chunk is loaded, with the result 0, if each of "listen_port", "cert_file" and
-- "key_file" is named by a token after the first, with a token behind the first that names it, and
-- if "locations" is named and the locations there are parsed. The fields get the texts behind the
-- names, cut to their buffers, and the routes are those of the locations.
pub conf_load-loads :
    (p : Pcre2) (h : HashTable (Route p)) (j : Jsmn) (buf : Bytes) (config : Config p h) (r : ℕ)
    (state : j.Parser) (tokens : List Token) (routes' : h.Table)
    → j.parse (j.init) buf 0 256 [] ≡ (pos r, (state, tokens))
    → (c : IsConfig tokens buf p h (r - 1) (config.mp) (config.routes) routes')
    → conf_load p h j true (buf ∷ []) config
      ≡ ok (pos 0, configured tokens buf p h (r - 1) config routes' c)
unfolding conf_load chunks_loop on_chunk
conf_load-loads p h j buf config r state tokens routes' parsed c =
    rw (ap (λ x. x.0) parsed, conf_load)
      (rw (ap (λ x. x.1.1) parsed)
        (rw (entries_loop-configured tokens buf p h (pos r) config routes' c)))
