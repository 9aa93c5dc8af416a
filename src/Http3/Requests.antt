-- ===== src/Http3/Requests.antt =====
-- Which requests of HTTP/3 reach the router.
use gfhttpd.Base.{
  ◌≡◌, ◌≢◌, refl, Bool, false, some, List, [], ◌∷◌, ◌++◌, ok, Bytes, bytes, c_str, arith, ◌^◌, ◌-◌,
  All, bytes_eq_iff, ℕ_discrete, ap, ◌∙◌,
}
use gfhttpd.Path.{check_path}
use gfhttpd.Routes.Interfaces.{HashTable, Pcre2}
use gfhttpd.Routes.{Route}
use gfhttpd.Router.Calls.{System}
use gfhttpd.Router.{Stream, root_router}
use gfhttpd.Http3.Quiche.{HeaderEvents}
use gfhttpd.Http3.{Request, pseudo_header, for_each_header, on_headers, route_request}

module _ (q : HeaderEvents) (H : Type 0) (insert_header : Bytes → Bytes → H → H) where
  -- The headers before the path: each has a name, and none is ":path".
  abbrev pub IsBeforePath : List (Bytes × Bytes) → Type 0
  IsBeforePath headers = All (λ e. (e.0 ≢ []) × (e.0 ≢ bytes ":path")) headers

  pseudo_header-zero :
      (name value : Bytes) (hs : Request H insert_header)
      → name ≢ bytes "path"
      → (pseudo_header H insert_header name value hs).0 ≡ 0
  unfolding pseudo_header
  pseudo_header-zero name value hs other =
      let e = (bytes_eq_iff name (bytes "path")).0 in ground (arith, e, other)

  -- Another header than ":path" does not stop the callbacks.
  goes_on :
      (name value : Bytes) (hs : Request H insert_header)
      → name ≢ []
      → name ≢ bytes ":path"
      → (hs' : Request H insert_header) × (for_each_header H insert_header name value hs
          ≡ ok (0, hs'))
  unfolding for_each_header
  goes_on [] value hs named other = absurd (named refl)
  goes_on (c ∷ name) value hs named other = elim (ℕ_discrete c b':') [
    | yes colon ↦
        (let e =
            pseudo_header-zero name value hs (λ e. other (ap (◌∷ name) colon ∙ ap (b':' ∷◌) e)) in
          ((pseudo_header H insert_header name value hs).1, ground (arith, colon, e)))
    | no plain ↦
        (record hs { headers = insert_header (c ∷ name) value (hs.headers) }, ground (arith, plain))
  ]

  for_each-path :
      (before : List (Bytes × Bytes)) (value : Bytes) (after : List (Bytes × Bytes))
      (hs : Request H insert_header)
      → IsBeforePath before
      → check_path (c_str value) ≡ false
      → (hs' : Request H insert_header) × (q.for_each
            (for_each_header H insert_header)
            (before ++ (bytes ":path", value) ∷ after)
            hs
          ≡ ok (1, hs'))
        × (hs'.url ≡ some (c_str value))
  unfolding for_each_header pseudo_header
  for_each-path [] value after hs ok' unsafe = (
    record hs { url = some (c_str value) },
    q.for_each-stops (for_each_header H insert_header) (bytes ":path") value after hs _ 1
        (rw unsafe) (λ e. absurd (ground arith)),
    refl,
  )
  for_each-path (e ∷ before) value after hs ((named, other), before') unsafe =
      let (r, done) = goes_on e.0 e.1 hs named other in
      let (hs', rest, url) = for_each-path before value after r before' unsafe in
      (hs', q.for_each-goes_on (for_each_header H insert_header) e.0 e.1 _ hs r done ∙ rest, url)

  -- A request whose path `check_path` refuses is routed like any other: the router gets that path
  -- from `on_headers`, since the result of the callback is not looked at.
  pub on_headers-root_router :
      (p : Pcre2) (h : HashTable (Route p)) (sys : System) (loop : Bool) (routes : h.Table)
      (before : List (Bytes × Bytes)) (value : Bytes) (after : List (Bytes × Bytes))
      (hs : Request H insert_header) (response : Stream)
      → IsBeforePath before
      → check_path (c_str value) ≡ false
      → on_headers H insert_header q p h sys loop routes
          (before ++ (bytes ":path", value) ∷ after)
          hs
          response
        ≡ root_router p h sys loop routes
            record response { url = c_str value; content_length = 2 ^ 64 - 1 }
  unfolding on_headers
  on_headers-root_router p h sys loop routes before value after hs response before' unsafe =
      let (hs', done, url) = for_each-path before value after hs before' unsafe in
      rw done (ap (route_request p h sys loop routes response) url)
