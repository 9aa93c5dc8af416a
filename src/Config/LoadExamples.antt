-- ===== src/Config/LoadExamples.antt =====
-- A configuration with all names and no locations.
use gfhttpd.Base.{
  ◌≡◌, refl, true, false, List, [], ◌∷◌, Bytes, bytes, ok, Ensures, pos, is_negative, ℕ, inl, inr,
  get_elem?, some, none,
}
use gfhttpd.Routes.Listed.{listed, prefixes}
use gfhttpd.Config.{
  Token, TokenType, primitive, string, object, array, tok_at, locations_parser, locations_loop,
}
use gfhttpd.Config.Load.{
  Jsmn, Config, conf_load, chunks_loop, on_chunk, entries_loop, search_loop, json_contains,
}
use gfhttpd.Config.Loaded.{IsFirst, IsConfig, configured, conf_load-loads}
use gfhttpd.Config.Required.{HasAll, conf_load-HasAll}

abbrev text : Bytes
text = bytes "{listen_port: \"8444\", cert_file: \"c\", key_file: \"k\", locations: []}"

abbrev token : TokenType → ℕ → ℕ → ℕ → Token
token type start end_ size = record { type = type; start = start; end_ = end_; size = size }

abbrev parsed : List Token
parsed =
    token object 0 67 4
    ∷ token primitive 1 12 1
    ∷ token string 15 19 0
    ∷ token primitive 22 31 1
    ∷ token string 34 35 0
    ∷ token primitive 38 46 1
    ∷ token string 49 50 0
    ∷ token primitive 53 62 1
    ∷ token array 64 66 0
    ∷ []

-- A parser of this text.
abbrev of_text : Jsmn
of_text = record {
  Parser = Bytes;
  init = [];
  parse = λ state json at room tokens. (pos 9, (json, parsed));
}

abbrev empty : Config prefixes listed
empty = record { listen_port = []; cert_file = []; key_file = []; routes = []; mp = true }

loads :
    conf_load prefixes listed of_text true (text ∷ []) empty
    ≡ ok (
      pos 0,
      record empty { listen_port = bytes "8444"; cert_file = bytes "c"; key_file = bytes "k" },
    )
unfolding conf_load chunks_loop on_chunk entries_loop search_loop json_contains
    gfhttpd.Config.tok_at gfhttpd.Config.locations_parser gfhttpd.Config.locations_loop
loads = refl

-- A file without text is taken.
loads_nothing : conf_load prefixes listed of_text true [] empty ≡ ok (pos 0, empty)
unfolding conf_load chunks_loop
loads_nothing = refl

conf_load-HasAll_example :
    Ensures
      (λ res. is_negative res.0 ≡ false → HasAll prefixes listed of_text parsed text 8)
      (conf_load prefixes listed of_text true (text ∷ []) empty)
conf_load-HasAll_example = conf_load-HasAll prefixes listed of_text text [] empty

abbrev tok : ℕ → Token
tok i = elim (get_elem? parsed i) [ some t ↦ t | none ↦ token object 0 0 0 ]

first_port : IsFirst parsed text (bytes "listen_port") 1 8 1
unfolding tok_at
first_port = inl (refl, tok 1, refl, refl)

first_cert : IsFirst parsed text (bytes "cert_file") 1 8 3
unfolding tok_at
first_cert = inr (tok 1, refl, refl, inr (tok 2, refl, refl, inl (refl, tok 3, refl, refl)))

first_key : IsFirst parsed text (bytes "key_file") 1 8 5
unfolding tok_at
first_key = inr (
  tok 1,
  refl,
  refl,
  inr (
    tok 2,
    refl,
    refl,
    inr (tok 3, refl, refl, inr (tok 4, refl, refl, inl (refl, tok 5, refl, refl))),
  ),
)

first_locations : IsFirst parsed text (bytes "locations") 1 8 7
unfolding tok_at
first_locations = inr (
  tok 1,
  refl,
  refl,
  inr (
    tok 2,
    refl,
    refl,
    inr (
      tok 3,
      refl,
      refl,
      inr (
        tok 4,
        refl,
        refl,
        inr (tok 5, refl, refl, inr (tok 6, refl, refl, inl (refl, tok 7, refl, refl))),
      ),
    ),
  ),
)

abbrev complete : IsConfig parsed text prefixes listed 8 true [] []
unfolding tok_at locations_parser locations_loop
complete = record {
  listen_port = record { at = 1; first = first_port; value = tok 2; behind = refl };
  cert_file = record { at = 3; first = first_cert; value = tok 4; behind = refl };
  key_file = record { at = 5; first = first_key; value = tok 6; behind = refl };
  locations = 7;
  first = first_locations;
  processed = 7;
  parsed = refl;
}

conf_load-loads_example :
    conf_load prefixes listed of_text true (text ∷ []) empty
    ≡ ok (pos 0, configured parsed text prefixes listed 8 empty [] complete)
conf_load-loads_example =
    conf_load-loads prefixes listed of_text text empty 9 text parsed [] refl complete
