-- ===== src/Routes/Match.antt =====
-- Which route `match_route` finds.
use gfhttpd.Base.{
  ℕ, ◌^◌, ◌<◌, ◌≡◌, refl, ap, true, Option, none, some, List, [], ◌∷◌, ◌++◌, ok, Bytes, length, ℤ,
  pos, arith, inl, inr, sym, ◌∙◌, All, negsuc, Option-cases,
}
use mathlib.Core.Path.{subst}
use mathlib.Core.Option.{some_inj}
use gfhttpd.Path.{is_rooted}
use gfhttpd.Routes.Interfaces.{HashTable, Pcre2, MatchResult, no_match, failed, matched}
use gfhttpd.Routes.{Route, RouteMatch, Matched, match_loop, match_route, on_match}
use gfhttpd.Routes.Strip.{IsNested, IsStripped, strip_path-IsStripped}

module _ (p : Pcre2) (s : Bytes) where
  -- The route is none of those that the subject matches: it has no regex, or its regex does
  -- not match.
  abbrev pub IsPassed : Route p → Type 0
  IsPassed r = (re : p.Code) → r.re ≡ some re → p.exec re s ≡ no_match

  -- The regex of `r` matches with these pairs.
  pub record Matches (r : Route p) (ovector : List (ℕ × ℕ)) : Type 0 where
    pub code : p.Code
    pub compiled : r.re ≡ some code
    pub result : p.exec code s ≡ matched ovector

  -- Every match of a route's regex gives at least the pair of the whole match, and pairs in
  -- range.
  abbrev pub IsWellMatched : Route p → Type 0
  IsWellMatched r =
      (ovector : List (ℕ × ℕ))
      → Matches r ovector
      → (full : ℕ × ℕ) × (groups : List (ℕ × ℕ)) × (ovector ≡ full ∷ groups)
        × IsNested (length s) full groups

  -- `r` is the first route that the subject matches, and `rm` says so.
  pub record IsFirst (routes : List (Bytes × Route p)) (r : Route p) (rm : RouteMatch p)
      : Type 0 where
    pub before : List (Bytes × Route p)
    pub key : Bytes
    pub after : List (Bytes × Route p)
    pub split : routes ≡ before ++ (key, r) ∷ after
    pub passed : All (λ e. IsPassed e.1) before
    pub ovector : List (ℕ × ℕ)
    pub matching : Matches r ovector
    pub stripped : Bytes
    pub answer : rm ≡ record { route = some r; stripped_path = some stripped }
    pub from_match : IsStripped s ovector stripped

  -- No route matches, or the search ended at a route whose match failed with an error.
  pub data NoRoute : List (Bytes × Route p) → Type 0 where
    exhausted : {routes : List (Bytes × Route p)} → All (λ e. IsPassed e.1) routes → NoRoute routes
    broke :
        (before after : List (Bytes × Route p)) (key : Bytes) (r : Route p) (re : p.Code) (e : ℤ)
        → All (λ e. IsPassed e.1) before
        → r.re ≡ some re
        → p.exec re s ≡ failed e
        → NoRoute (before ++ (key, r) ∷ after)

  -- What the search leaves in `rm'` when it starts from `rm`.
  pub data Answer (routes : List (Bytes × Route p)) (rm rm' : RouteMatch p) : Type 0 where
    not_found : NoRoute routes → rm' ≡ rm → Answer routes rm rm'
    found : (r : Route p) → IsFirst routes r rm' → Answer routes rm rm'

  pass :
      {k : Bytes} {r : Route p} {routes : List (Bytes × Route p)} {rm rm' : RouteMatch p}
      → IsPassed r
      → Answer routes rm rm'
      → Answer ((k, r) ∷ routes) rm rm'
  pass skip (not_found (exhausted all) same) = not_found (exhausted (skip, all)) same
  pass {k} {r} skip (not_found (broke before after key r' re e all has fails) same) =
      not_found (broke ((k, r) ∷ before) after key r' re e (skip, all) has fails) same
  pass {k} {r} skip (found r' first) = found r' record {
    before = (k, r) ∷ first.before;
    key = first.key;
    after = first.after;
    split = ap ((k, r) ∷◌) (first.split);
    passed = (skip, first.passed);
    ovector = first.ovector;
    matching = first.matching;
    stripped = first.stripped;
    answer = first.answer;
    from_match = first.from_match;
  }

  module _ (rooted : is_rooted s ≡ true) (small : length s < 2 ^ 31) where
    on_match_lem :
        (k : Bytes) (r : Route p) (routes : List (Bytes × Route p)) (rm : RouteMatch p)
        (ovector : List (ℕ × ℕ))
        → IsWellMatched r
        → Matches r ovector
        → (res : Matched p) × (on_match p s r rm ovector ≡ ok res)
          × IsFirst ((k, r) ∷ routes) r (res.rm)
    on_match_lem k r routes rm ovector well m =
        let (full, groups, e, nested) = well ovector m in
        let (t, done, stripped) = strip_path-IsStripped s full groups rooted small nested in
        (
          record { ret = some (pos 0); rm = record { route = some r; stripped_path = some t } },
          rw (e, done),
          record {
            before = [];
            key = k;
            after = routes;
            split = refl;
            passed = tt;
            ovector = full ∷ groups;
            matching = subst (Matches r) e m;
            stripped = t;
            answer = refl;
            from_match = stripped;
          },
        )

    -- The route `r` is asked, which has a regex.
    try_code :
        (k : Bytes) (r : Route p) (routes : List (Bytes × Route p)) (rm : RouteMatch p)
        (ret : Option ℤ) (re : p.Code)
        → r.re ≡ some re
        → (result : MatchResult) → p.exec re s ≡ result
        → IsWellMatched r
        → ((ret' : Option ℤ)
            → (res : Matched p) × (match_loop p routes s rm ret' ≡ ok res)
              × Answer routes rm (res.rm))
        → (res : Matched p) × (match_loop p ((k, r) ∷ routes) s rm ret ≡ ok res)
          × Answer ((k, r) ∷ routes) rm (res.rm)
    unfolding match_loop
    try_code k r routes rm ret re has no_match e w rest =
        let (res, done, answer) = rest (some (negsuc 0)) in
        (
          res,
          rw (has, e, done),
          pass (λ re' has'. subst (λ c. p.exec c s ≡ no_match) (some_inj.0 (sym has ∙ has')) e)
              answer,
        )
    try_code k r routes rm ret re has (failed code) e w rest = (
      record { ret = some (negsuc 0); rm = rm },
      rw (has, e),
      not_found (broke [] routes k r re code tt has e) refl,
    )
    try_code k r routes rm ret re has (matched ovector) e w rest =
        let (res, done, first) =
          on_match_lem k r routes rm ovector w record { code = re; compiled = has; result = e } in
        (res, rw (has, e, done), found r first)

    -- Where no regex of a route gives a pair out of range, the search ends, without a fault.
    pub match_loop-Answer :
        (routes : List (Bytes × Route p)) (rm : RouteMatch p) (ret : Option ℤ)
        → All (λ e. IsWellMatched e.1) routes
        → (res : Matched p) × (match_loop p routes s rm ret ≡ ok res) × Answer routes rm (res.rm)
    unfolding match_loop
    match_loop-Answer [] rm ret well =
        (record { ret = ret; rm = rm }, refl, not_found (exhausted tt) refl)
    match_loop-Answer ((k, r) ∷ routes) rm ret (w, well) = elim (Option-cases (r.re)) [
      | inl none' ↦
          (let (res, e, answer) = match_loop-Answer routes rm ret well in
            (res, rw (none', e), pass (λ re has. absurd (ground arith)) answer))
      | inr (re, has) ↦
          try_code k r routes rm ret re has (p.exec re s) refl w
            (λ ret'. match_loop-Answer routes rm ret' well)
    ]

-- On a rooted path of less than 2^31 bytes, where every match of a route's regex gives pairs in
-- range and a last group no longer than the match, `match_route` returns without a fault. It
-- finds the first route, in the order of insertion, whose regex matches, and strips the path as
-- the ovector says; or `rm` is unchanged, and then no regex matches, or one failed with an error
-- and those before it do not match.
pub match_route-Answer :
    (p : Pcre2) (h : HashTable (Route p)) (routes : h.Table) (s : Bytes) (rm : RouteMatch p)
    → is_rooted s ≡ true
    → length s < 2 ^ 31
    → All (λ e. IsWellMatched p s e.1) (h.items routes)
    → (res : Matched p) × (match_route p h routes s rm ≡ ok res)
      × Answer p s (h.items routes) rm (res.rm)
unfolding match_route
match_route-Answer p h routes s rm rooted small well =
    match_loop-Answer p s rooted small (h.items routes) rm none well
