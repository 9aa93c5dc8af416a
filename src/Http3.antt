-- ===== src/Http3.antt =====
-- The requests of HTTP/3: `for_each_header` of main/http3/event_cb.c, and what `http3_event_cb`
-- does with the headers of a request.
pub mod Quiche
pub mod Requests
pub mod Looping
pub mod Fueled
mod Examples
use Quiche.{HeaderEvents}
use gfhttpd.Base.{
  ℕ, zero, suc, Bool, true, false, not, Option, none, some, List, [], ◌∷◌, Run, ok, fault, ◌>>=◌,
  Bytes, bytes, bytes_eq, c_str, length, ◌==◌, if◌then◌else◌, ℤ, pos, negsuc, ◌^◌, ◌-◌,
}
use gfhttpd.Path.{check_path}
use gfhttpd.Routes.Interfaces.{HashTable, Pcre2}
use gfhttpd.Routes.{Route, Module}
use gfhttpd.Router.Calls.{System}
use gfhttpd.Router.{Stream, Reply, root_router}

-- The call of `root_router`. `response` is the router's part of the stream, whose content length
-- is -1 before the call; the router reads the URL, which must be there.
abbrev pub route_request :
    (p : Pcre2) (h : HashTable (Route p))
    → System
    → Bool
    → h.Table
    → Stream
    → Option Bytes
    → Run Reply
route_request p h sys loop routes response none = fault
route_request p h sys loop routes response (some url) =
    root_router p h sys loop routes record response { url = url; content_length = 2 ^ 64 - 1 }

module _ (H : Type 0) (insert_header : Bytes → Bytes → H → H) where
  -- The request of a `struct http_stream`, without what the router keeps.
  pub record Request : Type 0 where
    pub url : Option Bytes
    pub method : Option Bytes
    pub scheme : Option Bytes
    pub authority : Option Bytes
    pub headers : H

  -- A pseudo-header, by its name without the colon: the result of the callback, and the request.
  unfoldable pub pseudo_header : Bytes → Bytes → Request → ℕ × Request
  pseudo_header name value hs =
      if bytes_eq name (bytes "path")
      then (if check_path (c_str value) then 0 else 1, record hs { url = some (c_str value) })
      else if bytes_eq name (bytes "method")
      then (0, record hs { method = some (c_str value) })
      else if bytes_eq name (bytes "scheme")
      then (0, record hs { scheme = some (c_str value) })
      else if bytes_eq name (bytes "authority")
      then (0, record hs { authority = some (c_str value) })
      else (0, hs)

  -- An empty name has no first byte to read.
  unfoldable pub for_each_header : Bytes → Bytes → Request → Run (ℕ × Request)
  for_each_header [] value hs = fault
  for_each_header (c ∷ name) value hs = ok (
      if c == b':'
      then pseudo_header name value hs
      else (0, record hs { headers = insert_header (c ∷ name) value (hs.headers) }))

  -- The case QUICHE_H3_EVENT_HEADERS: the result of the callback is only logged.
  unfoldable pub on_headers :
      HeaderEvents
      → (p : Pcre2) (h : HashTable (Route p)) → System
      → Bool
      → h.Table
      → List (Bytes × Bytes)
      → Request
      → Stream
      → Run Reply
  on_headers q p h sys loop routes headers hs response =
      q.for_each for_each_header headers hs >>= λ r.
      route_request p h sys loop routes response (Request.url r.1)
