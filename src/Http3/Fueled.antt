-- ===== src/Http3/Fueled.antt =====
-- The loop over the headers of a request of HTTP/3 and the routing of the request are not cut off.
use gfhttpd.Base.{
  ℕ, zero, suc, ◌≡◌, refl, ◌⊎◌, inl, inr, Bool, Option, none, some, List, [], ◌∷◌, Run, ok, fault,
  IsFueled, Bytes, arith,
}
use gfhttpd.Routes.Interfaces.{HashTable, Pcre2}
use gfhttpd.Routes.{Route}
use gfhttpd.Router.Calls.{System}
use gfhttpd.Router.{Stream}
use gfhttpd.Router.Fueled.{root_router-IsFueled}
use gfhttpd.Http3.Quiche.{HeaderEvents}
use gfhttpd.Http3.{Request, for_each_header, route_request}

-- A loop over headers is not cut off when its callback never is.
pub for_each-IsFueled :
    (q : HeaderEvents) {S : Type 0} (f : Bytes → Bytes → S → Run (ℕ × S))
    → ((name value : Bytes) (s : S)
        → (f name value s ≡ fault) ⊎ ((r : ℕ × S) × (f name value s ≡ ok r)))
    → (headers : List (Bytes × Bytes)) (s : S) → IsFueled (q.for_each f headers s)
for_each-IsFueled q f total [] s = rw (q.for_each-[] f s, IsFueled) tt
for_each-IsFueled q f total ((name, value) ∷ rest) s = elim (total name value s) [
  | inl bad ↦ rw (q.for_each-faults f name value rest s bad, IsFueled) tt
  | inr ((zero, s'), good) ↦
      rw (q.for_each-goes_on f name value rest s s' good, IsFueled)
        (for_each-IsFueled q f total rest s')
  | inr ((suc r, s'), good) ↦
      rw (q.for_each-stops f name value rest s s' (suc r) good (λ e. ground (arith, e)), IsFueled)
        tt
]

for_each_header-total :
    (H : Type 0) (insert_header : Bytes → Bytes → H → H) (name value : Bytes)
    (hs : Request H insert_header)
    → (for_each_header H insert_header name value hs ≡ fault)
      ⊎ ((r : ℕ × Request H insert_header) × (for_each_header H insert_header name value hs ≡ ok r))
unfolding for_each_header
for_each_header-total H insert_header [] value hs = inl refl
for_each_header-total H insert_header (c ∷ name) value hs = inr (_, refl)

pub route_request-IsFueled :
    (p : Pcre2) (h : HashTable (Route p)) (sys : System) (loop : Bool) (routes : h.Table)
    (response : Stream) (url : Option Bytes)
    → IsFueled (route_request p h sys loop routes response url)
route_request-IsFueled p h sys loop routes response none = tt
route_request-IsFueled p h sys loop routes response (some url) =
    root_router-IsFueled p h sys loop routes _

pub headers-IsFueled :
    (q : HeaderEvents) (H : Type 0) (insert_header : Bytes → Bytes → H → H)
    (headers : List (Bytes × Bytes)) (hs : Request H insert_header)
    → IsFueled (q.for_each (for_each_header H insert_header) headers hs)
headers-IsFueled q H insert_header =
    for_each-IsFueled q (for_each_header H insert_header) (for_each_header-total H insert_header)
