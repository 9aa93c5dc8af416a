-- ===== src/Routes/Examples.antt =====
-- Examples for main/config/routes.c.
use gfhttpd.Base.{
  ◌≡◌, refl, sym, false, none, some, List, [], ◌∷◌, Bytes, bytes, length, arith, take, ok,
}
use mathlib.Core.Path.{subst}
use mathlib.Core.Option.{some_inj}
use gfhttpd.Routes.Interfaces.{matched}
use gfhttpd.Routes.{
  Module, golang, Route, RouteMatch, Matched, strip_path, match_route, insert_route, get_route,
  root, add_route, create_route,
}
use gfhttpd.Routes.Listed.{listed, prefixes}
use gfhttpd.Routes.Strip.{IsNested}
use gfhttpd.Routes.Match.{IsWellMatched, Answer, match_route-Answer}
use gfhttpd.Routes.Lookup.{IsFresh, get_route-insert_route, get_route-add_route}

abbrev url : Bytes
url = bytes "/go/a/b"

-- The match of "/go/(.*)" with `url`.
url-IsNested : IsNested (length url) (0, 7) ((4, 7) ∷ [])
url-IsNested = record {
  full_ordered = omega arith;
  full_bound = omega arith;
  sub_ordered = omega arith;
  sub_bound = omega arith;
  sub_shorter = omega arith;
}

strips : strip_path url (0, 7) ((4, 7) ∷ []) ≡ ok (bytes "/a/b")
unfolding strip_path gfhttpd.Routes.previous_slash
strips = refl

abbrev hello : List Module
hello = record { name = bytes "hello"; module_type = golang } ∷ []

abbrev plain : Route prefixes
plain = record { path = bytes "/plain"; n_path = 6; modules_chain = hello; re = none }

abbrev go : Route prefixes
go = record { path = bytes "/go/"; n_path = 4; modules_chain = hello; re = some (bytes "/go/") }

abbrev routes : List (Bytes × Route prefixes)
routes = (bytes "/plain", plain) ∷ (bytes "/go/", go) ∷ []

abbrev nothing : RouteMatch prefixes
nothing = record { route = none; stripped_path = none }

plain-IsWellMatched : IsWellMatched prefixes url plain
plain-IsWellMatched ovector m = absurd (let c = m.compiled in ground arith)

go-IsWellMatched : IsWellMatched prefixes url go
go-IsWellMatched ovector m =
    let result =
      subst (λ c. prefixes.exec c url ≡ matched ovector) (sym (some_inj.0 (m.compiled)))
        (m.result) in
    let e : (0, 7) ∷ (4, 7) ∷ [] ≡ ovector = ground arith in
    ((0, 7), (4, 7) ∷ [], sym e, url-IsNested)

match_route-Answer_example :
    (res : Matched prefixes) × (match_route prefixes listed routes url nothing ≡ ok res)
    × Answer prefixes url routes nothing (res.rm)
match_route-Answer_example =
    match_route-Answer prefixes listed routes url nothing refl (omega arith)
      (plain-IsWellMatched, (go-IsWellMatched, tt))

new-IsFresh : IsFresh (take 4 (bytes "/new")) routes
new-IsFresh = (λ e. absurd (ground arith), (λ e. absurd (ground arith), tt))

get_route-insert_route_example :
    (r : Route prefixes) × (routes' : List (Bytes × Route prefixes)) × (insert_route prefixes listed
        routes
        (bytes "/new")
        4
        hello
        false
      ≡ ok (r, routes'))
    × (r.modules_chain ≡ hello)
    × (get_route prefixes listed routes' (take 4 (bytes "/new")) nothing
        ≡ some record { route = some r; stripped_path = some root })
get_route-insert_route_example =
    get_route-insert_route prefixes listed routes (bytes "/new") 4 hello false nothing (omega arith)
      new-IsFresh

get_route-add_route_example :
    get_route prefixes listed
      (add_route prefixes listed (create_route prefixes listed (bytes "/new") 4 hello false) routes)
      (bytes "/new")
      nothing
    ≡ get_route prefixes listed routes (bytes "/new") nothing
get_route-add_route_example =
    get_route-add_route prefixes listed routes (bytes "/new") 4 hello false nothing
      (λ e. absurd (ground arith))
