-- ===== src/Router.antt =====
-- The router of main/router/router.c: the 404 page, the socket pair for the modules, and
-- `root_router`.
pub mod Calls
pub mod Files
pub mod Serving
pub mod Fueled
pub mod Sample
mod Examples
use Calls.{System, Call, opened, scheduled, piped, wrote, closed}
use gfhttpd.Base.{
  ℕ, ◌+◌, ◌-◌, ◌≡◌, refl, Bool, true, false, not, Option, none, some, List, [], ◌∷◌, ◌++◌, Run, ok,
  abort, ◌>>=◌, Bytes, bytes, length, take, ◌&&◌, ◌==◌, if◌then◌else◌, ℤ, pos, negsuc, is_negative,
  is_zero, to_size, to_int,
}
use gfhttpd.Routes.Interfaces.{HashTable, Pcre2}
use gfhttpd.Routes.{Module, Route, RouteMatch, Matched, get_route, match_route}

-- What `struct http_stream` keeps of a request and its response for the router: `modules_chain`
-- as the list of the modules left, `module_cb_ev` as whether an event is there.
pub record Stream : Type 0 where
  pub url : Bytes
  pub modules_url : Option Bytes
  pub modules_chain : List Module
  pub http_status : Option Bytes
  pub content_length : ℕ
  pub response_fd : ℤ
  pub module_cb_ev : Bool

-- What a function of the router returns, the stream after it, and the calls that it made.
pub record Reply : Type 0 where
  pub fd : ℤ
  pub stream : Stream
  pub calls : List Call

-- `error_html`: the page, and the size that it stores, which counts the page's NUL.
unfoldable pub error_page : Bytes
error_page = bytes "<html><head><title>404</title></head><body><h1>404 Not Found</h1></body></html>"

unfoldable pub error_html : Bytes × ℕ
error_html = (error_page, length error_page + 1)

-- `get_socketpair`: what it returns, and the pair.
unfoldable pub get_socketpair : System → ℤ × (ℤ × ℤ)
get_socketpair sys =
    let (ret, fds) = sys.socketpair in
    if not (is_zero ret)
    then (ret, fds)
    else (let first = sys.set_nonblocking fds.0 in
        if not (is_zero first) then (first, fds) else (sys.set_nonblocking fds.1, fds))

-- Whether `error_fd` gives up after the write: not all was written, and `writelen` is -1.
unfoldable pub unwritten : ℤ → Bool
unwritten (pos n) = false
unwritten (negsuc n) = n == 0

unfoldable pub error_fd : System → Stream → Bytes → Reply
error_fd sys hs http_status =
    let (ret, fds) = sys.pipe in
    if not (is_zero ret)
    then record { fd = ret; stream = hs; calls = piped ∷ [] }
    else (let (page, size) = error_html in
        let text = take (size - 1) page in
        let writelen = sys.write (fds.1) text in
        let calls : List Call = piped ∷ wrote (fds.1) text ∷ closed (fds.1) ∷ [] in
        if unwritten writelen
        then record { fd = writelen; stream = hs; calls = calls }
        else record {
          fd = fds.0;
          stream = record hs { content_length = to_size writelen; http_status = some http_status };
          calls = calls;
        })

-- The loop that removes the root slash of a local file.
unfoldable pub skip_slashes : Bytes → Bytes
skip_slashes [] = []
skip_slashes (c ∷ s) = let rest = skip_slashes s in if c == b'/' then rest else c ∷ s

-- The end of `root_router`: no file and no socket is a 404.
unfoldable pub or_not_found : System → Reply → Reply
or_not_found sys reply =
    if is_negative (reply.fd)
    then (let page = error_fd sys (reply.stream) (bytes "404") in
        record page { calls = reply.calls ++ page.calls })
    else reply

-- The branch of `root_router` without a route: a local file.
unfoldable pub open_file : System → Stream → Reply
open_file sys hs =
    let rel_path : Bytes = skip_slashes (hs.url) in
    let fd = sys.open_fd rel_path in
    record {
      fd = fd;
      stream = record hs { content_length = to_size (to_int (sys.lseek_end fd)) };
      calls = opened rel_path ∷ [];
    }

module _ {p : Pcre2} (sys : System) (hs : Stream) where
  -- The branch of `root_router` with a route.
  unfoldable pub start_modules : Route p → Option Bytes → Reply
  start_modules route stripped_path =
      let (ret, fds) = get_socketpair sys in
      if not (is_zero ret)
      then record { fd = ret; stream = hs; calls = [] }
      else (let hs' : Stream = record hs {
        response_fd = fds.1;
        modules_chain = route.modules_chain;
        modules_url = stripped_path;
        module_cb_ev = true;
      } in
          let added = sys.evtimer_add in
          if is_negative added
          then record { fd = added; stream = hs'; calls = scheduled ∷ [] }
          else or_not_found sys record { fd = fds.0; stream = hs'; calls = scheduled ∷ [] })

  unfoldable pub serve : RouteMatch p → Reply
  serve rm = elim (rm.route) [
    | some route ↦ start_modules route (rm.stripped_path)
    | none ↦ or_not_found sys (open_file sys hs)
  ]

abbrev pub no_route : {p : Pcre2} → RouteMatch p
no_route = record { route = none; stripped_path = none }

module _ (p : Pcre2) (h : HashTable (Route p)) where
  -- The specific route, or else the one whose regex matches.
  unfoldable pub find_route : h.Table → Bytes → Run (RouteMatch p)
  find_route routes rel_path = elim (get_route p h routes rel_path no_route) [
    | some rm ↦ ok rm
    | none ↦ match_route p h routes rel_path no_route >>= λ res. ok (res.rm)
  ]

  -- `loop` says whether the event base is there.
  unfoldable pub root_router : System → Bool → h.Table → Stream → Run Reply
  root_router sys loop routes hs =
      if not loop then abort else find_route routes (hs.url) >>= λ rm. ok (serve sys hs rm)
