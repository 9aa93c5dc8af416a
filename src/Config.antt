-- ===== src/Config.antt =====
-- The locations of a configuration: `jsoneq` and `locations_parser` of main/config/config.c over
-- the tokens of jsmn.
pub mod Keys
pub mod Locations
pub mod Load
pub mod Required
pub mod Loaded
mod Examples
mod LoadExamples
use gfhttpd.Base.{
  ℕ, zero, suc, ◌+◌, ◌-◌, Bool, true, false, not, ◌&&◌, ◌||◌, Option, none, some, List, [], ◌∷◌,
  Run, ok, fault, abort, ◌>>=◌, ◌>>◌, Bytes, bytes, c_str, starts_with, length, get_elem?, take,
  drop, ltb, leb, ◌==◌, if◌then◌else◌, ℤ, pos, negsuc, minus, is_int,
}
use gfhttpd.Routes.Interfaces.{HashTable, Pcre2}
use gfhttpd.Routes.{Route, Module, golang, insert_route}

-- `jsmntype_t`
pub data TokenType : Type 0 where
  undefined : TokenType
  object : TokenType
  array : TokenType
  string : TokenType
  primitive : TokenType

-- `jsmntok_t`; `end_` is `end`.
pub record Token : Type 0 where
  pub type : TokenType
  pub start : ℕ
  pub end_ : ℕ
  pub size : ℕ

-- The zeroed entries of the static array.
abbrev pub no_token : Token
no_token = record { type = undefined; start = 0; end_ = 0; size = 0 }

-- An entry of the array `t`, of 256 tokens; `tokens` are those that the parser has filled.
unfoldable pub tok_at : List Token → ℕ → Run Token
tok_at tokens i =
    if ltb i 256
    then elim (get_elem? tokens i) [ none ↦ ok no_token | some tok ↦ ok tok ]
    else fault

abbrev pub is_text : TokenType → Bool
is_text string = true
is_text primitive = true
is_text undefined = false
is_text object = false
is_text array = false

abbrev pub is_array : TokenType → Bool
is_array array = true
is_array undefined = false
is_array object = false
is_array string = false
is_array primitive = false

abbrev pub is_object : TokenType → Bool
is_object object = true
is_object undefined = false
is_object array = false
is_object string = false
is_object primitive = false

-- Whether `jsoneq` returns 0.
unfoldable pub jsoneq : Bytes → Token → Bytes → Bool
jsoneq json tok s =
    is_text (tok.type)
    && is_int (minus (tok.end_) (tok.start)) (length s)
    && starts_with (drop (tok.start) json) s

-- `snprintf` of a token into the 16 bytes of a name.
abbrev pub name_of : Bytes → Token → Bytes
name_of json tok = take 15 (take (tok.end_ - tok.start) (c_str (drop (tok.start) json)))

-- `mp_calloc` from the pool of the configuration; `mp` is whether it is there.
abbrev pub from_pool : Bool → Run Bool
from_pool true = ok true
from_pool false = abort

-- The loop over the modules: `at` is the position of the next one, `k` how many are left.
unfoldable pub modules_loop : Bool → List Token → Bytes → ℕ → ℕ → Run (List Module)
modules_loop mp tokens json at zero = ok []
modules_loop mp tokens json at (suc k) = from_pool mp >> tok_at tokens at >>= λ tok.
    modules_loop mp tokens json (at + 1) k >>= λ ms.
    ok (record { name = name_of json tok; module_type = golang } ∷ ms)

-- The fields of `r` that the loop over the keys sets: `path` is an offset in the text, and no
-- modules stand for NULL.
pub record Location : Type 0 where
  pub path : ℕ
  pub n_path : ℕ
  pub modules_chain : List Module

-- One round over a key at `at`: whether it takes the next token too, and `r`.
unfoldable pub key_step : Bool → List Token → Bytes → ℕ → Location → Run (Bool × Location)
key_step mp tokens json at r = tok_at tokens at >>= λ key.
    if jsoneq json key (bytes "location")
    then (tok_at tokens (at + 1) >>= λ value.
        ok (true, record r { path = value.start; n_path = value.end_ - value.start }))
    else if jsoneq json key (bytes "modules")
    then (tok_at tokens (at + 1) >>= λ value.
        modules_loop mp tokens json (at + 2) (value.size) >>= λ ms.
        ok (true, record r { modules_chain = ms }))
    else ok (false, r)

-- The loop over the keys of an object whose first key is at `first`; `n` bounds the rounds.
unfoldable pub keys_loop : Bool → ℕ → List Token → Bytes → ℕ → ℕ → ℕ → Location → Run Location
keys_loop mp zero tokens json first size h r = ok r
keys_loop mp (suc n) tokens json first size h r =
    if leb h size
    then (key_step mp tokens json (first + h) r >>= λ s.
        keys_loop mp n tokens json first size (if s.0 then h + 2 else h + 1) s.1)
    else ok r

abbrev pub has_none : List Module → Bool
has_none [] = true
has_none (m ∷ ms) = false

module _ (p : Pcre2) (h : HashTable (Route p)) where
  -- The locations from the `j`th on, `n` of them; `at` is the position of the array. The result
  -- is false where the parser returns -1, and the routes.
  unfoldable pub locations_loop :
      Bool → ℕ → List Token → Bytes → ℕ → ℕ → h.Table → Run (Bool × h.Table)
  locations_loop mp zero tokens json at j routes = ok (true, routes)
  locations_loop mp (suc n) tokens json at j routes = tok_at tokens (at + j + 1) >>= λ location.
      if not (is_object (location.type))
      then ok (false, routes)
      else (keys_loop mp (location.size + 1) tokens json (at + j + 2) (location.size) 0
            record { path = 0; n_path = 0; modules_chain = [] }
          >>= λ r.
              if has_none (r.modules_chain) || r.n_path == 0
              then ok (false, routes)
              else (insert_route p h routes (c_str (drop (r.path) json)) (r.n_path)
                    (r.modules_chain) true
                  >>= λ added. locations_loop mp n tokens json at (j + 1) added.1))

  unfoldable pub locations_parser : Bool → List Token → Bytes → ℕ → h.Table → Run (ℤ × h.Table)
  locations_parser mp tokens json i routes = tok_at tokens (i + 1) >>= λ locations.
      if not (is_array (locations.type))
      then ok (negsuc 0, routes)
      else (locations_loop mp (locations.size) tokens json (i + 1) 0 routes >>= λ done.
          ok (if done.0 then pos (i + (locations.size + 1)) else negsuc 0, done.1))
