-- ===== src/Config/Examples.antt =====
-- A configuration of one location, and one of two.
use gfhttpd.Base.{
  true, ◌-◌, ◌≡◌, refl, List, [], ◌∷◌, ◌++◌, ok, Bytes, bytes, c_str, take, drop, pos, negsuc,
  arith,
}
use gfhttpd.Routes.{Route, Module, golang}
use gfhttpd.Routes.Listed.{listed, prefixes}
use gfhttpd.Config.{Token, object, array, string, primitive, tok_at, jsoneq, locations_parser}
use gfhttpd.Config.Keys.{no_more, one_more, IsLocation}
use gfhttpd.Config.Locations.{locations_parser-one, locations_parser-more}

abbrev one : Bytes
one = bytes "{locations:[{location:\"/go\",modules:[\"m\"]}]}"

abbrev one_tokens : List Token
one_tokens =
    record { type = object; start = 0; end_ = 44; size = 1 }
    ∷ record { type = primitive; start = 1; end_ = 10; size = 1 }
    ∷ record { type = array; start = 11; end_ = 43; size = 1 }
    ∷ record { type = object; start = 12; end_ = 42; size = 2 }
    ∷ record { type = primitive; start = 13; end_ = 21; size = 1 }
    ∷ record { type = string; start = 23; end_ = 26; size = 0 }
    ∷ record { type = primitive; start = 28; end_ = 35; size = 1 }
    ∷ record { type = array; start = 36; end_ = 41; size = 1 }
    ∷ record { type = string; start = 38; end_ = 39; size = 0 }
    ∷ []

abbrev two : Bytes
two = bytes "{locations:[{location:\"/go\",modules:[\"m\"]},{location:\"/x\",modules:[\"m\"]}]}"

abbrev two_tokens : List Token
two_tokens =
    record { type = object; start = 0; end_ = 74; size = 1 }
    ∷ record { type = primitive; start = 1; end_ = 10; size = 1 }
    ∷ record { type = array; start = 11; end_ = 73; size = 2 }
    ∷ record { type = object; start = 12; end_ = 42; size = 2 }
    ∷ record { type = primitive; start = 13; end_ = 21; size = 1 }
    ∷ record { type = string; start = 23; end_ = 26; size = 0 }
    ∷ record { type = primitive; start = 28; end_ = 35; size = 1 }
    ∷ record { type = array; start = 36; end_ = 41; size = 1 }
    ∷ record { type = string; start = 38; end_ = 39; size = 0 }
    ∷ record { type = object; start = 43; end_ = 72; size = 2 }
    ∷ record { type = primitive; start = 44; end_ = 52; size = 1 }
    ∷ record { type = string; start = 54; end_ = 56; size = 0 }
    ∷ record { type = primitive; start = 58; end_ = 65; size = 1 }
    ∷ record { type = array; start = 66; end_ = 71; size = 1 }
    ∷ record { type = string; start = 68; end_ = 69; size = 0 }
    ∷ []

abbrev ms : List Module
ms = record { name = bytes "m"; module_type = golang } ∷ []

-- The string "/go".
abbrev path : Token
path = record { type = string; start = 23; end_ = 26; size = 0 }

one-IsLocation : IsLocation one_tokens one 3 path ms
unfolding tok_at jsoneq
one-IsLocation = record {
  opening = record { type = object; start = 12; end_ = 42; size = 2 };
  opens = refl;
  is_object_ = refl;
  two_keys = refl;
  location_key = record { type = primitive; start = 13; end_ = 21; size = 1 };
  first_key = refl;
  is_location = refl;
  value = refl;
  modules_key = record { type = primitive; start = 28; end_ = 35; size = 1 };
  second_key = refl;
  is_modules = refl;
  not_location = refl;
  names = record { type = array; start = 36; end_ = 41; size = 1 };
  list = refl;
  counted = refl;
  modules = one_more refl no_more;
}

one_array : tok_at one_tokens 2 ≡ ok record { type = array; start = 11; end_ = 43; size = 1 }
unfolding tok_at
one_array = refl

two-IsLocation : IsLocation two_tokens two 3 path ms
unfolding tok_at jsoneq
two-IsLocation = record {
  opening = record { type = object; start = 12; end_ = 42; size = 2 };
  opens = refl;
  is_object_ = refl;
  two_keys = refl;
  location_key = record { type = primitive; start = 13; end_ = 21; size = 1 };
  first_key = refl;
  is_location = refl;
  value = refl;
  modules_key = record { type = primitive; start = 28; end_ = 35; size = 1 };
  second_key = refl;
  is_modules = refl;
  not_location = refl;
  names = record { type = array; start = 36; end_ = 41; size = 1 };
  list = refl;
  counted = refl;
  modules = one_more refl no_more;
}

two_array : tok_at two_tokens 2 ≡ ok record { type = array; start = 11; end_ = 73; size = 2 }
unfolding tok_at
two_array = refl

locations_parser-one_example :
    (routes' : List (Bytes × Route prefixes)) × (r : Route prefixes) × (locations_parser prefixes
        listed true one_tokens one 1 []
      ≡ ok (pos 3, routes'))
    × (r.modules_chain ≡ ms)
    × (routes' ≡ [] ++ (take (path.end_ - path.start) (c_str (drop (path.start) one)), r) ∷ [])
locations_parser-one_example =
    locations_parser-one prefixes listed one_tokens one 1 path
      record { type = array; start = 11; end_ = 43; size = 1 } ms [] one_array refl refl
      one-IsLocation (λ e. absurd (ground arith)) (ground arith) (omega arith)

locations_parser-more_example :
    (routes' : List (Bytes × Route prefixes)) × (r : Route prefixes) × (locations_parser prefixes
        listed true two_tokens two 1 []
      ≡ ok (negsuc 0, routes'))
    × (r.modules_chain ≡ ms)
    × (routes' ≡ [] ++ (take (path.end_ - path.start) (c_str (drop (path.start) two)), r) ∷ [])
locations_parser-more_example =
    locations_parser-more prefixes listed two_tokens two 1 0 path
      record { type = array; start = 11; end_ = 73; size = 2 } ms [] two_array refl refl
      two-IsLocation (λ e. absurd (ground arith)) (ground arith) (omega arith)
