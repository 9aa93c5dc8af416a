-- ===== src/Config/Locations.antt =====
-- Which configurations of locations are taken.
use mathlib.Core.Path.{subst}
use gfhttpd.Base.{
  ℕ, suc, ◌+◌, ◌-◌, ◌≤◌, ◌≡◌, ◌≢◌, refl, true, false, List, [], ◌∷◌, ◌++◌, ok, Bytes, bytes, c_str,
  length, take, drop, ◌==◌, pos, negsuc, arith, Bool-cases, inl, inr,
}
use gfhttpd.Routes.Interfaces.{HashTable, Pcre2}
use gfhttpd.Routes.{Route, Module}
use gfhttpd.Routes.Lookup.{insert_route-items}
use gfhttpd.Config.{
  Token, TokenType, undefined, object, array, string, primitive, is_text, tok_at, jsoneq, has_none,
  is_object, locations_loop, locations_parser,
}
use gfhttpd.Config.Keys.{IsLocation, keys_loop-IsLocation}

has_none_of : (ms : List Module) → ms ≢ [] → has_none ms ≡ false
has_none_of [] ne = absurd (ne refl)
has_none_of (m ∷ ms) ne = refl

text_of_jsoneq :
    (json : Bytes) (key : Token)
    → jsoneq json key (bytes "location") ≡ true
    → is_text (key.type) ≡ true
unfolding jsoneq
text_of_jsoneq json key h = elim (Bool-cases (is_text (key.type))) [
  | inl text ↦ text
  | inr other ↦ absurd (ground (arith, rw other at h))
]

type_is_no_object : (t : TokenType) → is_text t ≡ true → is_object t ≡ false
type_is_no_object undefined e = refl
type_is_no_object object e = absurd (ground arith)
type_is_no_object array e = refl
type_is_no_object string e = refl
type_is_no_object primitive e = refl

text_is_no_object : (key : Token) → is_text (key.type) ≡ true → is_object (key.type) ≡ false
text_is_no_object key e = type_is_no_object (key.type) e

module _ (p : Pcre2) (h : HashTable (Route p)) (tokens : List Token) (json : Bytes) where
  second_fails :
      (k at j : ℕ) (key : Token) (routes : h.Table)
      → tok_at tokens (at + j + 1) ≡ ok key
      → jsoneq json key (bytes "location") ≡ true
      → locations_loop p h true (suc k) tokens json at j routes ≡ ok (false, routes)
  unfolding locations_loop
  second_fails k at j key routes has is =
      rw (has, text_is_no_object key (text_of_jsoneq json key is))

  -- One location of the loop.
  location_step :
      (n at j : ℕ) (path : Token) (ms : List Module) (routes : h.Table)
      → IsLocation tokens json (at + j + 1) path ms
      → ms ≢ []
      → path.end_ - path.start ≢ 0
      → path.end_ - path.start ≤ length (c_str (drop (path.start) json))
      → (routes' : h.Table) × (r : Route p) × (locations_loop p h true
            (suc n)
            tokens
            json
            at
            j
            routes
          ≡ locations_loop p h true n tokens json at (j + 1) routes')
        × (r.modules_chain ≡ ms)
        × (h.items routes'
            ≡ h.items routes
              ++ (take (path.end_ - path.start) (c_str (drop (path.start) json)), r) ∷ [])
  unfolding locations_loop
  location_step n at j path ms routes l some_modules some_path fits =
      let e : at + j + 2 ≡ at + j + 1 + 1 = omega arith in
      let keys =
        keys_loop-IsLocation tokens json (at + j + 1) path ms
          record { path = 0; n_path = 0; modules_chain = [] } l in
      let m = has_none_of ms some_modules in
      let n_path : (path.end_ - path.start == 0) ≡ false = ground arith in
      let (r, routes', done, _, chain, _, items) =
        insert_route-items p h routes (c_str (drop (path.start) json)) (path.end_ - path.start) ms
          true fits in
      (routes', r, rw (l.opens, l.is_object_, l.two_keys, e, keys, m, n_path, done), chain, items)

  -- With the pool there, an array of one well-formed location, with modules and a path that is not
  -- empty, is taken: its route is added behind the others, with the path and the modules that the
  -- tokens name, and the result is positive.
  pub locations_parser-one :
      (i : ℕ) (path locations : Token) (ms : List Module) (routes : h.Table)
      → tok_at tokens (i + 1) ≡ ok locations
      → locations.type ≡ array
      → locations.size ≡ 1
      → IsLocation tokens json (i + 2) path ms
      → ms ≢ []
      → path.end_ - path.start ≢ 0
      → path.end_ - path.start ≤ length (c_str (drop (path.start) json))
      → (routes' : h.Table) × (r : Route p) × (locations_parser p h true tokens json i routes
          ≡ ok (pos (i + 2), routes'))
        × (r.modules_chain ≡ ms)
        × (h.items routes'
            ≡ h.items routes
              ++ (take (path.end_ - path.start) (c_str (drop (path.start) json)), r) ∷ [])
  unfolding locations_parser
  locations_parser-one i path locations ms routes has is_array_ one l some_modules some_path fits =
      let e : i + 2 ≡ i + 1 + 0 + 1 = omega arith in
      let (routes', r, done, chain, items) =
        location_step 0 (i + 1) 0 path ms routes (subst (λ k. IsLocation tokens json k path ms) e l)
          some_modules some_path fits in
      (routes', r, rw (has, is_array_, one, done) (unfold locations_loop in refl), chain, items)

  -- With the pool there, an array of two locations or more is refused if the first is well formed:
  -- the parser takes the first key of the first location for the second location. The route of the
  -- first location stays added behind the others, as if it were the only one, and nothing else.
  pub locations_parser-more :
      (i k : ℕ) (path locations : Token) (ms : List Module) (routes : h.Table)
      → tok_at tokens (i + 1) ≡ ok locations
      → locations.type ≡ array
      → locations.size ≡ suc (suc k)
      → IsLocation tokens json (i + 2) path ms
      → ms ≢ []
      → path.end_ - path.start ≢ 0
      → path.end_ - path.start ≤ length (c_str (drop (path.start) json))
      → (routes' : h.Table) × (r : Route p) × (locations_parser p h true tokens json i routes
          ≡ ok (negsuc 0, routes'))
        × (r.modules_chain ≡ ms)
        × (h.items routes'
            ≡ h.items routes
              ++ (take (path.end_ - path.start) (c_str (drop (path.start) json)), r) ∷ [])
  unfolding locations_parser
  locations_parser-more i k path locations ms routes has is_array_ more l some_modules some_path
        fits =
      let e : i + 2 ≡ i + 1 + 0 + 1 = omega arith in
      let (routes', r, done, chain, items) =
        location_step (suc k) (i + 1) 0 path ms routes
          (subst (λ k. IsLocation tokens json k path ms) e l) some_modules some_path fits in
      let next : tok_at tokens (i + 1 + (0 + 1) + 1) ≡ ok (l.location_key) =
        let e' : i + 1 + (0 + 1) + 1 ≡ i + 2 + 1 = omega arith in rw e' (l.first_key) in
      (
        routes',
        r,
        rw (
          has,
          is_array_,
          more,
          done,
          second_fails k (i + 1) (0 + 1) (l.location_key) routes' next (l.is_location),
        ),
        chain,
        items,
      )
