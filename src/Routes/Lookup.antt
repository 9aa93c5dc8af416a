-- ===== src/Routes/Lookup.antt =====
-- Inserting a route and finding it by its path.
use mathlib.Core.Path.{subst}
use gfhttpd.Base.{
  ℕ, ◌≤◌, ◌≡◌, ◌≢◌, refl, ap, Bool, none, some, List, [], ◌∷◌, ◌++◌, ok, Bytes, length, take,
  if◌then◌else◌, arith, inl, inr, sym, ◌∙◌, All, length-append, take-append_of_le, Option-cases,
}
use gfhttpd.Routes.Interfaces.{HashTable, Pcre2}
use gfhttpd.Routes.{
  Module, Route, RouteMatch, insert_route, get_route, add_route, create_route, root,
}

-- The key is in no entry.
abbrev pub IsFresh {ℓ} : {A : Type ℓ} → Bytes → List (Bytes × A) → Type 0
IsFresh k entries = All (λ e. e.0 ≢ k) entries

abbrev head_or : {A : Type 0} → Bytes → List (Bytes × A) → Bytes
head_or k [] = k
head_or k (e ∷ _) = e.0

-- An entry for a key that only the last of the entries has is the last.
fresh-last :
    {A : Type 0} (k : Bytes) (a b : A) (entries before after : List (Bytes × A))
    → IsFresh k entries
    → entries ++ (k, a) ∷ [] ≡ before ++ (k, b) ∷ after
    → b ≡ a
fresh-last k a b [] [] after fresh e = ground arith
fresh-last k a b [] (x ∷ []) after fresh e = absurd (ground arith)
fresh-last k a b [] (x ∷ z ∷ before) after fresh e = absurd (ground arith)
fresh-last k a b (y ∷ entries) [] after (ne, fresh) e = absurd (ne (ap (λ l. (head_or k l)) e))
fresh-last k a b (y ∷ entries) (x ∷ before) after (ne, fresh) e =
    fresh-last k a b entries before after fresh (ground arith)

All-last : {A : Type 0} (P : A → Type 0) (xs : List A) (a : A) → All P (xs ++ a ∷ []) → P a
All-last P [] a (h, _) = h
All-last P (x ∷ xs) a (_, h) = All-last P xs a h

module _ (p : Pcre2) (h : HashTable (Route p)) where
  -- For an `n_path` of at most the string's length, `insert_route` adds, behind the routes that
  -- are there, one with the first `n_path` bytes as its path and key and the given modules. With
  -- `regex` its regex is that of the whole string, else it has none.
  pub insert_route-items :
      (routes : h.Table) (path : Bytes) (n : ℕ) (m : List Module) (regex : Bool)
      → n ≤ length path
      → (r : Route p) × (routes' : h.Table) × (insert_route p h routes path n m regex
          ≡ ok (r, routes'))
        × (r.path ≡ take n path)
        × (r.modules_chain ≡ m)
        × (r.re ≡ (if regex then p.compile path else none))
        × (h.items routes' ≡ h.items routes ++ (take n path, r) ∷ [])
  unfolding insert_route
  insert_route-items routes path n m regex fits =
      let e = take-append_of_le n path (0 ∷ []) fits in
      let r : Route p = record {
        path = take n (path ++ 0 ∷ []);
        n_path = n;
        modules_chain = m;
        re = if regex then p.compile path else none;
      } in
      (
        r,
        h.add (r.path) r routes,
        ground (arith, length-append path (0 ∷ [])),
        e,
        refl,
        refl,
        h.items-add (r.path) r routes ∙ ap (λ k. h.items routes ++ (k, r) ∷ []) e,
      )

  found_last :
      (k : Bytes) (r : Route p) (routes routes' : h.Table) (rm : RouteMatch p)
      → IsFresh k (h.items routes)
      → h.items routes' ≡ h.items routes ++ (k, r) ∷ []
      → get_route p h routes' k rm ≡ some record { route = some r; stripped_path = some root }
  unfolding get_route
  found_last k r routes routes' rm fresh items = elim (Option-cases (h.find k routes')) [
    | inl missing ↦ absurd (
        All-last (λ e. e.0 ≢ k) (h.items routes) (k, r)
          (subst (IsFresh k) items (h.find-none k routes' missing)) refl)
    | inr (r', found) ↦
        (let (before, after, split) = h.find-some k routes' r' found in
          let e = fresh-last k r r' (h.items routes) before after fresh (sym items ∙ split) in
          rw (found, e, get_route))
  ]

  -- After the insertion of a route under a path that no route has, `get_route` finds that route
  -- for the path, with "/" as the path for the modules.
  pub get_route-insert_route :
      (routes : h.Table) (path : Bytes) (n : ℕ) (m : List Module) (regex : Bool) (rm : RouteMatch p)
      → n ≤ length path
      → IsFresh (take n path) (h.items routes)
      → (r : Route p) × (routes' : h.Table) × (insert_route p h routes path n m regex
          ≡ ok (r, routes'))
        × (r.modules_chain ≡ m)
        × (get_route p h routes' (take n path) rm
            ≡ some record { route = some r; stripped_path = some root })
  get_route-insert_route routes path n m regex rm fits fresh =
      let (r, routes', done, _, chain, _, items) = insert_route-items routes path n m regex fits in
      (r, routes', done, chain, found_last (take n path) r routes routes' rm fresh items)

  -- A route of `create_route` that is added is not found by its path, which is not empty: whatever
  -- `get_route` found for the path before, it finds after.
  pub get_route-add_route :
      (routes : h.Table) (path : Bytes) (n : ℕ) (m : List Module) (regex : Bool) (rm : RouteMatch p)
      → path ≢ []
      → get_route p h (add_route p h (create_route p h path n m regex) routes) path rm
        ≡ get_route p h routes path rm
  unfolding get_route add_route create_route
  get_route-add_route routes path n m regex rm some_path = rw (
    h.find-add_ne [] path (create_route p h path n m regex) routes (λ e. some_path (sym e)),
    get_route,
  )
