-- ===== src/Routes.antt =====
-- The routes of main/config/routes.c: the table of routes, lookup by path, match by regex.
pub mod Interfaces
pub mod Strip
pub mod Match
pub mod Lookup
pub mod Listed
mod Examples
use Interfaces.{HashTable, Pcre2, MatchResult, no_match, failed, matched}
use gfhttpd.Base.{
  ℕ, zero, suc, ◌+◌, ◌-◌, ◌%◌, ◌^◌, Bool, true, false, Option, none, some, List, [], ◌∷◌, ◌++◌, Run,
  ok, fault, ◌>>=◌, Bytes, bytes, length, take, drop, get_elem?, ltb, ◌==◌, if◌then◌else◌, ℤ, pos,
  negsuc, to_int, size_sub,
}

-- `module_type` of `struct module`; `other` is a type that no bridge serves.
pub data ModuleType : Type 0 where
  golang : ModuleType
  rust : ModuleType
  other : ModuleType

-- `struct module`
pub record Module : Type 0 where
  pub name : Bytes
  pub module_type : ModuleType

-- `ROOT`
abbrev pub root : Bytes
root = bytes "/"

-- A byte of a C string, its NUL included.
abbrev pub char_at : Bytes → ℕ → Run ℕ
char_at [] zero = ok 0
char_at [] (suc i) = fault
char_at (c ∷ s) zero = ok c
char_at (c ∷ s) (suc i) = char_at s i

-- `for (; *s != '/'; s--)`, from the position `p`; a position before the string is a fault.
unfoldable pub previous_slash : ℕ → Bytes → Run ℕ
previous_slash zero s = char_at s 0 >>= λ c. if c == b'/' then ok 0 else fault
previous_slash (suc p) s =
    let before = previous_slash p s in
    char_at s (suc p) >>= λ c. if c == b'/' then ok (suc p) else before

abbrev last_pair : ℕ × ℕ → List (ℕ × ℕ) → ℕ × ℕ
last_pair p [] = p
last_pair p (q ∷ qs) = last_pair q qs

-- `s += n`, then the slash before it
abbrev pub from_offset : Bytes → ℤ → Run Bytes
from_offset s (pos n) = previous_slash n s >>= λ p. ok (drop p s)
from_offset s (negsuc n) = fault

-- What `match_route` hands to the modules after a match: `full` is the pair 0 of the ovector,
-- `groups` the pairs of the groups.
unfoldable pub strip_path : Bytes → ℕ × ℕ → List (ℕ × ℕ) → Run Bytes
strip_path s full [] = ok root
strip_path s full (g ∷ groups) =
    let sub = last_pair g groups in
    let substring_length = size_sub sub.1 sub.0 in
    let fullmatch_length = size_sub full.1 full.0 in
    from_offset s (to_int (pos (size_sub fullmatch_length substring_length)))

module _ (p : Pcre2) where
  -- `struct route`; `modules_chain` as the list of its modules.
  pub record Route : Type 0 where
    pub path : Bytes
    pub n_path : ℕ
    pub modules_chain : List Module
    pub re : Option (p.Code)

  -- `struct route_match`
  pub record RouteMatch : Type 0 where
    pub route : Option Route
    pub stripped_path : Option Bytes

  -- What `match_route` returns, `none` for the indeterminate value of a variable that was
  -- never set, and what it leaves in `rm`.
  pub record Matched : Type 0 where
    pub ret : Option ℤ
    pub rm : RouteMatch

  abbrev pub on_match : Bytes → Route → RouteMatch → List (ℕ × ℕ) → Run Matched
  on_match s r rm [] = ok record { ret = some (pos 0); rm = record rm { route = some r } }
  on_match s r rm (full ∷ groups) = strip_path s full groups >>= λ stripped.
      ok
        record { ret = some (pos 0); rm = record { route = some r; stripped_path = some stripped } }

  -- The loop of `match_route`.
  unfoldable pub match_loop : List (Bytes × Route) → Bytes → RouteMatch → Option ℤ → Run Matched
  match_loop [] s rm ret = ok record { ret = ret; rm = rm }
  match_loop ((k, r) ∷ rs) s rm ret = elim r.re [
    | none ↦ match_loop rs s rm ret
    | some re ↦ elim (p.exec re s) [
      | no_match ↦ match_loop rs s rm (some (negsuc 0))
      | failed e ↦ ok record { ret = some (negsuc 0); rm = rm }
      | matched ovector ↦ on_match s r rm ovector
    ]
  ]

module _ (p : Pcre2) (h : HashTable (Route p)) where
  unfoldable pub match_route : h.Table → Bytes → RouteMatch p → Run (Matched p)
  match_route routes s rm = match_loop p (h.items routes) s rm none

  -- `path` is a C string; the pool has room. A fault when `n_path` runs past the string's NUL.
  unfoldable pub insert_route : h.Table → Bytes → ℕ → List Module → Bool → Run (Route p × h.Table)
  insert_route routes path n_path m regex =
      let buffer : Bytes = path ++ 0 ∷ [] in
      let r : Route p = record {
        path = take n_path buffer;
        n_path = n_path;
        modules_chain = m;
        re = if regex then p.compile path else none;
      } in
      if ltb (length buffer) n_path then fault else ok (r, h.add (r.path) r routes)

  -- `n_path` and `m` are not used: the fields stay 0 and NULL, and the test of `regex` is the
  -- other way round than in `insert_route`.
  unfoldable pub create_route : Bytes → ℕ → List Module → Bool → Route p
  create_route path n_path m regex = record {
    path = path;
    n_path = 0;
    modules_chain = [];
    re = if regex then none else p.compile path;
  }

  unfoldable pub add_route : Route p → h.Table → h.Table
  add_route r routes = h.add (take (r.n_path) (r.path)) r routes

  -- -1 is `none`: `rm` stays as it is then.
  unfoldable pub get_route : h.Table → Bytes → RouteMatch p → Option (RouteMatch p)
  get_route routes path rm = elim (h.find path routes) [
    | none ↦ none
    | some r ↦ some record { route = some r; stripped_path = some root }
  ]

  unfoldable pub length_routes : h.Table → ℕ
  length_routes routes = length (h.items routes)

  -- HASH_DEL of a route that is not in the table is undefined.
  unfoldable pub delete_route : Route p → h.Table → Run h.Table
  delete_route r routes = elim (h.find (take (r.n_path) (r.path)) routes) [
    | none ↦ fault
    | some _ ↦ ok (h.delete (take (r.n_path) (r.path)) routes)
  ]

  -- The loop over the table: what is left of it, and the codes given to `pcre2_code_free`.
  unfoldable pub delete_routes_loop :
      List (Bytes × Route p) → h.Table → h.Table × List (Option (p.Code))
  delete_routes_loop [] routes = (routes, [])
  delete_routes_loop ((key, current) ∷ rest) routes =
      let (routes', codes) = delete_routes_loop rest (h.delete key routes) in
      (routes', current.re ∷ codes)

  unfoldable pub delete_routes_all : h.Table → h.Table × List (Option (p.Code))
  unfolding delete_routes_loop
  delete_routes_all routes = delete_routes_loop (h.items routes) routes
