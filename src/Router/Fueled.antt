-- ===== src/Router/Fueled.antt =====
-- No loop of `root_router` of main/router/router.c is cut off.
use gfhttpd.Base.{
  ℕ, zero, suc, Bool, Option, some, List, [], ◌∷◌, ok, IsFueled, fueled_rules, Bytes, ℤ, pos,
  negsuc, Option-cases, inl, inr,
}
use gfhttpd.Routes.Interfaces.{HashTable, Pcre2, MatchResult, no_match, failed, matched}
use gfhttpd.Routes.{
  Route, RouteMatch, char_at, previous_slash, from_offset, strip_path, on_match, match_loop,
  match_route, get_route,
}
use gfhttpd.Router.Calls.{System}
use gfhttpd.Router.{Stream, no_route, find_route, root_router}

char_at-IsFueled : (s : Bytes) (i : ℕ) → IsFueled (char_at s i)
char_at-IsFueled [] zero = tt
char_at-IsFueled [] (suc i) = tt
char_at-IsFueled (c ∷ s) zero = tt
char_at-IsFueled (c ∷ s) (suc i) = char_at-IsFueled s i

previous_slash-IsFueled : (p : ℕ) (s : Bytes) → IsFueled (previous_slash p s)
unfolding previous_slash
previous_slash-IsFueled zero s = search (fueled_rules, char_at-IsFueled)
previous_slash-IsFueled (suc p) s =
    search (fueled_rules, char_at-IsFueled, previous_slash-IsFueled p s)

from_offset-IsFueled : (s : Bytes) (n : ℤ) → IsFueled (from_offset s n)
from_offset-IsFueled s (pos n) = search (fueled_rules, previous_slash-IsFueled)
from_offset-IsFueled s (negsuc n) = tt

strip_path-IsFueled :
    (s : Bytes) (full : ℕ × ℕ) (groups : List (ℕ × ℕ)) → IsFueled (strip_path s full groups)
unfolding strip_path
strip_path-IsFueled s full [] = tt
strip_path-IsFueled s full (g ∷ groups) = from_offset-IsFueled s _

module _ (p : Pcre2) where
  on_match-IsFueled :
      (s : Bytes) (r : Route p) (rm : RouteMatch p) (ovector : List (ℕ × ℕ))
      → IsFueled (on_match p s r rm ovector)
  on_match-IsFueled s r rm [] = tt
  on_match-IsFueled s r rm (full ∷ groups) = search (fueled_rules, strip_path-IsFueled)

  -- What follows a try of a route, if what follows no match does.
  tried-IsFueled :
      (rs : List (Bytes × Route p)) (s : Bytes) (r : Route p) (rm : RouteMatch p) (m : MatchResult)
      → IsFueled (match_loop p rs s rm (some (negsuc 0)))
      → IsFueled (elim m [
        | no_match ↦ match_loop p rs s rm (some (negsuc 0))
        | failed e ↦ ok record { ret = some (negsuc 0); rm = rm }
        | matched ovector ↦ on_match p s r rm ovector
      ])
  tried-IsFueled rs s r rm no_match h = h
  tried-IsFueled rs s r rm (failed e) h = tt
  tried-IsFueled rs s r rm (matched ovector) h = on_match-IsFueled s r rm ovector

  match_loop-IsFueled :
      (rs : List (Bytes × Route p)) (s : Bytes) (rm : RouteMatch p) (ret : Option ℤ)
      → IsFueled (match_loop p rs s rm ret)
  unfolding match_loop
  match_loop-IsFueled [] s rm ret = tt
  match_loop-IsFueled ((k, r) ∷ rs) s rm ret = elim (Option-cases (r.re)) [
    | inl plain ↦ rw (plain, IsFueled) (match_loop-IsFueled rs s rm ret)
    | inr (re, some') ↦
        rw (some', IsFueled)
          (tried-IsFueled rs s r rm (p.exec re s) (match_loop-IsFueled rs s rm (some (negsuc 0))))
  ]

  module _ (h : HashTable (Route p)) where
    find_route-IsFueled :
        (routes : h.Table) (rel_path : Bytes) → IsFueled (find_route p h routes rel_path)
    unfolding find_route match_route
    find_route-IsFueled routes rel_path =
        elim (Option-cases (get_route p h routes rel_path no_route)) [
          | inr (rm, some') ↦ rw (some', IsFueled) tt
          | inl none' ↦ rw (none', IsFueled) (search (fueled_rules, match_loop-IsFueled))
        ]

    pub root_router-IsFueled :
        (sys : System) (loop : Bool) (routes : h.Table) (hs : Stream)
        → IsFueled (root_router p h sys loop routes hs)
    unfolding root_router
    root_router-IsFueled sys loop routes hs = search (fueled_rules, find_route-IsFueled)
