-- ===== src/Config/Keys.antt =====
-- The keys of one location.

use gfhttpd.Base.{
  ℕ, ◌+◌, ◌-◌, ◌≡◌, refl, true, false, not, List, [], ◌∷◌, ok, Bytes, bytes, length, arith,
}
use gfhttpd.Routes.{Module, golang}
use gfhttpd.Config.{
  Token, object, tok_at, jsoneq, name_of, modules_loop, Location, key_step, keys_loop,
}

module _ (tokens : List Token) (json : Bytes) where
  -- The tokens from `at` on are the names of these modules.
  pub data AreModules : ℕ → List Module → Type 0 where
    no_more : {at : ℕ} → AreModules at []
    one_more :
        {at : ℕ} {tok : Token} {ms : List Module}
        → tok_at tokens at ≡ ok tok
        → AreModules (at + 1) ms
        → AreModules at (record { name = name_of json tok; module_type = golang } ∷ ms)

  -- At `at` stands an object of two keys: "location" with a string, and "modules" with an array
  -- of these modules.
  pub record IsLocation (at : ℕ) (path : Token) (ms : List Module) : Type 0 where
    pub opening : Token
    pub opens : tok_at tokens at ≡ ok opening
    pub is_object_ : opening.type ≡ object
    pub two_keys : opening.size ≡ 2
    pub location_key : Token
    pub first_key : tok_at tokens (at + 1) ≡ ok location_key
    pub is_location : jsoneq json location_key (bytes "location") ≡ true
    pub value : tok_at tokens (at + 2) ≡ ok path
    pub modules_key : Token
    pub second_key : tok_at tokens (at + 3) ≡ ok modules_key
    pub is_modules : jsoneq json modules_key (bytes "modules") ≡ true
    pub not_location : jsoneq json modules_key (bytes "location") ≡ false
    pub names : Token
    pub list : tok_at tokens (at + 4) ≡ ok names
    pub counted : names.size ≡ length ms
    pub modules : AreModules (at + 5) ms

  modules_loop-AreModules :
      (at : ℕ) (ms : List Module)
      → AreModules at ms
      → modules_loop true tokens json at (length ms) ≡ ok ms
  unfolding modules_loop
  modules_loop-AreModules at [] no_more = refl
  modules_loop-AreModules at (m ∷ ms) (one_more e rest) =
      rw (e, modules_loop-AreModules (at + 1) ms rest)

  key_step-location :
      (at : ℕ) (key value : Token) (r : Location)
      → tok_at tokens at ≡ ok key
      → jsoneq json key (bytes "location") ≡ true
      → tok_at tokens (at + 1) ≡ ok value
      → key_step true tokens json at r
        ≡ ok (true, record r { path = value.start; n_path = value.end_ - value.start })
  unfolding key_step
  key_step-location at key value r first is second = rw (first, is, second)

  key_step-modules :
      (at : ℕ) (key value : Token) (ms : List Module) (r : Location)
      → tok_at tokens at ≡ ok key
      → jsoneq json key (bytes "location") ≡ false
      → jsoneq json key (bytes "modules") ≡ true
      → tok_at tokens (at + 1) ≡ ok value
      → value.size ≡ length ms
      → AreModules (at + 2) ms
      → key_step true tokens json at r ≡ ok (true, record r { modules_chain = ms })
  unfolding key_step
  key_step-modules at key value ms r first not is second counted modules =
      rw (first, not, is, second, counted, modules_loop-AreModules (at + 2) ms modules)

  pub keys_loop-IsLocation :
      (at : ℕ) (path : Token) (ms : List Module) (r : Location)
      → IsLocation at path ms
      → keys_loop true 3 tokens json (at + 1) 2 0 r
        ≡ ok record { path = path.start; n_path = path.end_ - path.start; modules_chain = ms }
  unfolding keys_loop
  keys_loop-IsLocation at path ms r l =
      let e1 : at + 1 + 0 ≡ at + 1 = omega arith in
      let e2 : at + 1 + 1 ≡ at + 2 = omega arith in
      let e3 : at + 3 + 1 ≡ at + 4 = omega arith in
      let e4 : at + 3 + 2 ≡ at + 5 = omega arith in
      let e5 : at + 1 + 2 ≡ at + 3 = omega arith in
      let first =
        key_step-location (at + 1) (l.location_key) path r (l.first_key) (l.is_location)
          (rw e2 (l.value)) in
      let r' : Location = record r { path = path.start; n_path = path.end_ - path.start } in
      let second =
        key_step-modules (at + 3) (l.modules_key) (l.names) ms r' (l.second_key) (l.not_location)
          (l.is_modules) (rw e3 (l.list)) (l.counted) (rw e4 (l.modules)) in
      rw (e1, first, e5, second)
