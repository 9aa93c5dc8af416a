-- ===== src/Router/Serving.antt =====
-- What `root_router` answers when no system call but `open` fails.

use gfhttpd.Base.{
  ℕ, ◌+◌, ◌-◌, ◌^◌, ◌<◌, ◌≡◌, refl, true, Option, none, some, [], ◌∷◌, ok, ◌>>=◌, Bytes, bytes,
  length, take, ℤ, pos, negsuc, is_negative, to_size, to_int, All, Option-cases, inl, inr, ◌⊎◌,
}
use gfhttpd.Path.{is_rooted}
use gfhttpd.Routes.Interfaces.{HashTable, Pcre2}
use gfhttpd.Routes.{Route, RouteMatch, get_route, match_route, root}
use gfhttpd.Routes.Match.{
  IsWellMatched, IsFirst, NoRoute, Answer, not_found, found, match_route-Answer,
}
use gfhttpd.Router.Calls.{System, opened, scheduled, piped, wrote, closed}
use gfhttpd.Router.{
  Stream, Reply, get_socketpair, error_fd, error_html, error_page, unwritten, skip_slashes,
  or_not_found, open_file, start_modules, serve, root_router, no_route, find_route,
}

-- No call but `open` fails: the others succeed with descriptors that are not negative, and a
-- write to a pipe takes the whole text.
pub record IsWorking (sys : System) : Type 0 where
  pub pair : (a : ℕ) × (b : ℕ) × (sys.socketpair ≡ (pos 0, (pos a, pos b)))
  pub nonblocking : (fd : ℤ) → sys.set_nonblocking fd ≡ pos 0
  pub timer : sys.evtimer_add ≡ pos 0
  pub piping : (a : ℕ) × (b : ℕ) × (sys.pipe ≡ (pos 0, (pos a, pos b)))
  pub writing : (fd : ℤ) (text : Bytes) → sys.write fd text ≡ pos (length text)

-- The reply of the modules of `route`: one end of the pair; the other end, the modules and their
-- path stand in the stream, and the first module is scheduled.
pub record IsModuleReply {p : Pcre2} (sys : System) (hs : Stream) (route : Route p)
    (path : Option Bytes) (reply : Reply) : Type 0 where
  pub fd : reply.fd ≡ sys.socketpair.1.0
  pub calls : reply.calls ≡ scheduled ∷ []
  pub stream : reply.stream ≡ record hs {
    response_fd = sys.socketpair.1.1;
    modules_chain = route.modules_chain;
    modules_url = path;
    module_cb_ev = true;
  }

-- The reply of a file that can be opened.
pub record IsFileReply (sys : System) (hs : Stream) (reply : Reply) : Type 0 where
  pub fd : ℕ
  pub is_open : sys.open_fd (skip_slashes (hs.url)) ≡ pos fd
  pub answer : reply.fd ≡ pos fd
  pub calls : reply.calls ≡ opened (skip_slashes (hs.url)) ∷ []
  pub status : Stream.http_status (reply.stream) ≡ hs.http_status
  pub size : Stream.content_length (reply.stream) ≡ to_size (to_int (sys.lseek_end (pos fd)))

-- The reply when the file cannot be opened: the page's pipe, its length without the NUL, 404.
pub record IsNotFoundReply (sys : System) (hs : Stream) (reply : Reply) : Type 0 where
  pub missing : is_negative (sys.open_fd (skip_slashes (hs.url))) ≡ true
  pub answer : reply.fd ≡ sys.pipe.1.0
  pub calls :
      reply.calls
      ≡ opened (skip_slashes (hs.url))
        ∷ piped
        ∷ wrote (sys.pipe.1.1) error_page
        ∷ closed (sys.pipe.1.1)
        ∷ []
  pub status : Stream.http_status (reply.stream) ≡ some (bytes "404")
  pub size : Stream.content_length (reply.stream) ≡ length error_page

module _ (sys : System) (work : IsWorking sys) where
  start_modules-IsModuleReply :
      {p : Pcre2} (hs : Stream) (route : Route p) (path : Option Bytes)
      → IsModuleReply sys hs route path (start_modules sys hs route path)
  unfolding start_modules or_not_found get_socketpair
  start_modules-IsModuleReply hs route path =
      let (a, b, pair) = work.pair in
      rw (pair, work.nonblocking (pos a), work.nonblocking (pos b), work.timer)
        record { fd = refl; calls = refl; stream = refl }

  error_fd_lem :
      (hs : Stream)
      → error_fd sys hs (bytes "404") ≡ record {
        fd = sys.pipe.1.0;
        stream = record hs { content_length = length error_page; http_status = some (bytes "404") };
        calls = piped ∷ wrote (sys.pipe.1.1) error_page ∷ closed (sys.pipe.1.1) ∷ [];
      }
  unfolding error_fd error_html unwritten
  error_fd_lem hs =
      let (a, b, pipe) = work.piping in
      let e : take (length error_page + 1 - 1) error_page ≡ error_page =
        unfold error_page in refl in
      rw (e, pipe, work.writing (pos b) error_page) (unfold error_page in refl)

  -- A local file, or the page for a missing one.
  abbrev pub IsLocalReply : Stream → Reply → Type 0
  IsLocalReply hs reply = IsFileReply sys hs reply ⊎ IsNotFoundReply sys hs reply

  local_reply :
      (hs : Stream) (fd : ℤ)
      → sys.open_fd (skip_slashes (hs.url)) ≡ fd
      → IsLocalReply hs (or_not_found sys (open_file sys hs))
  unfolding or_not_found open_file
  local_reply hs (pos fd) e =
      inl record { fd = fd; is_open = e; answer = rw e; calls = rw e; status = rw e; size = rw e }
  local_reply hs (negsuc n) e = inr record {
    missing = rw e;
    answer = rw (e, error_fd_lem _);
    calls = rw (e, error_fd_lem _);
    status = rw (e, error_fd_lem _);
    size = rw (e, error_fd_lem _);
  }

-- What `root_router` answers for a stream: the modules of the route whose path is the URL, else
-- of the first route whose regex matches, else a local file or the 404 page.
pub data Served (p : Pcre2) (h : HashTable (Route p)) (sys : System) (routes : h.Table)
    (hs : Stream) (reply : Reply) : Type 0 where
  specific :
      (route : Route p)
      → h.find (hs.url) routes ≡ some route
      → IsModuleReply sys hs route (some root) reply
      → Served p h sys routes hs reply
  by_regex :
      (route : Route p) (rm : RouteMatch p)
      → h.find (hs.url) routes ≡ none
      → IsFirst p (hs.url) (h.items routes) route rm
      → IsModuleReply sys hs route (rm.stripped_path) reply
      → Served p h sys routes hs reply
  no_module :
      h.find (hs.url) routes ≡ none
      → NoRoute p (hs.url) (h.items routes)
      → IsFileReply sys hs reply ⊎ IsNotFoundReply sys hs reply
      → Served p h sys routes hs reply

serve-Served :
    (p : Pcre2) (h : HashTable (Route p)) (sys : System)
    → IsWorking sys
    → (routes : h.Table) (hs : Stream) (rm : RouteMatch p) → h.find (hs.url) routes ≡ none
    → Answer p (hs.url) (h.items routes) no_route rm
    → Served p h sys routes hs (serve sys hs rm)
unfolding serve
serve-Served p h sys work routes hs rm e (not_found none' same) =
    no_module e none' (rw same (local_reply sys work hs (sys.open_fd (skip_slashes (hs.url))) refl))
serve-Served p h sys work routes hs rm e (found route first) =
    by_regex route rm e first
      (rw (first.answer) (start_modules-IsModuleReply sys work hs route (some (first.stripped))))

find_route-match_route :
    (p : Pcre2) (h : HashTable (Route p)) (routes : h.Table) (path : Bytes)
    → h.find path routes ≡ none
    → find_route p h routes path ≡ (match_route p h routes path no_route >>= λ res. ok (res.rm))
unfolding find_route get_route
find_route-match_route p h routes path e = rw (e, find_route)

find_route-get_route :
    (p : Pcre2) (h : HashTable (Route p)) (routes : h.Table) (path : Bytes) (route : Route p)
    → h.find path routes ≡ some route
    → find_route p h routes path ≡ ok record { route = some route; stripped_path = some root }
unfolding find_route get_route
find_route-get_route p h routes path route e = rw (e, find_route)

-- For a rooted URL of less than 2^31 bytes, with regexes whose matches give pairs in range and a
-- last group no longer than the match, and with system calls that work except `open`,
-- `root_router` returns, without a fault. A route for the URL itself is taken first, then the
-- first route whose regex matches: its modules are scheduled and get the stripped path. Without
-- a route the file of the URL's name is opened, and if that fails the answer is the 404 page.
pub root_router-Served :
    (p : Pcre2) (h : HashTable (Route p)) (sys : System) (routes : h.Table) (hs : Stream)
    → IsWorking sys
    → is_rooted (hs.url) ≡ true
    → length (hs.url) < 2 ^ 31
    → All (λ e. IsWellMatched p (hs.url) e.1) (h.items routes)
    → (reply : Reply) × (root_router p h sys true routes hs ≡ ok reply)
      × Served p h sys routes hs reply
unfolding root_router
root_router-Served p h sys routes hs work rooted small well =
    elim (Option-cases (h.find (hs.url) routes)) [
      | inr (route, e) ↦ (
        serve sys hs record { route = some route; stripped_path = some root },
        rw (find_route-get_route p h routes (hs.url) route e),
        specific route e
            (unfold serve in start_modules-IsModuleReply sys work hs route (some root)),
      )
      | inl e ↦
          (let (res, done, answer) =
              match_route-Answer p h routes (hs.url) no_route rooted small well in
            (
              serve sys hs (res.rm),
              rw (find_route-match_route p h routes (hs.url) e, done),
              serve-Served p h sys work routes hs (res.rm) e answer,
            ))
    ]
