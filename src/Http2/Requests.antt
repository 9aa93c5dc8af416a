-- ===== src/Http2/Requests.antt =====
-- What the requests of HTTP/2 lead to.
use mathlib.Core.Path.{subst}
use mathlib.Core.Option.{some_inj}
use gfhttpd.Base.{
  ℕ, ◌≡◌, ◌≢◌, ap, true, false, not, ◌||◌, Option, none, some, [], ok, fault, abort, Bytes, bytes,
  ℤ, All, Option-cases, Bool-cases, inl, inr, if-cases, ok_of_bind, ok-inj, arith, ==_refl, is_zero,
}
use gfhttpd.Path.{check_path}
use gfhttpd.Routes.Interfaces.{HashTable, Pcre2}
use gfhttpd.Routes.{Route}
use gfhttpd.Router.Calls.{System}
use gfhttpd.Router.{Reply, root_router}
use gfhttpd.Router.Files.{IsSafeCall, closes, IsSafeReply, All-append, root_router-IsSafeReply}
use gfhttpd.Http2.{
  H2Stream, Frame, headers_frame, Session, create_http_stream, on_begin_headers_callback,
  on_header_callback, store_header, field, Answer, answer_request, is_other, is_minus_one,
  on_request_recv, on_frame_recv_callback, on_stream_close_callback, set_user_data,
}

-- The URL that the calls of a request are about.
abbrev pub requested : H2Stream → Bytes
requested hs = elim (hs.url) [ none ↦ [] | some url ↦ url ]

-- The calls of an answer open only local files.
pub record IsSafeAnswer (url : Bytes) (a : Answer) : Type 0 where
  pub safe : All (IsSafeCall url) (a.calls)

answer_request-IsSafeAnswer :
    (url : Bytes) (submitted : ℤ) (hs : H2Stream) (reply : Reply)
    → IsSafeReply url reply
    → IsSafeAnswer url (answer_request submitted hs reply)
unfolding answer_request
answer_request-IsSafeAnswer url submitted hs reply r =
    if-cases (IsSafeAnswer url) (is_minus_one (reply.fd)) (λ _. record { safe = r.safe })
      (λ _.
        if-cases (IsSafeAnswer url) (not (is_zero submitted))
          (λ _. record {
            safe = All-append (IsSafeCall url) (reply.calls) _ (r.safe) (closes _, tt);
          })
          (λ _. record { safe = r.safe }))

none-some : {a : Answer} → none ≢ some a
none-some e = ground arith

module _ (p : Pcre2) (h : HashTable (Route p)) (sys : System) (submitted : ℤ) where
  -- The request of a stream with a URL.
  on_request_recv-IsSafeAnswer :
      (hs : H2Stream) (url : Bytes) (a : Answer)
      → hs.url ≡ some url
      → on_request_recv p h sys submitted hs ≡ ok a
      → IsSafeAnswer url a
  unfolding on_request_recv
  on_request_recv-IsSafeAnswer hs url a has done = elim (Bool-cases (check_path url)) [
    | inl safe ↦
        (let (reply, routed, e) =
            ok_of_bind (root_router p h sys (hs.evbase) (h.empty) record (hs.router) { url = url })
              (answer_request submitted (record hs { url = some url })) a
              (rw (has, safe) at done) in
          subst (IsSafeAnswer url) e (
            answer_request-IsSafeAnswer url submitted (record hs { url = some url }) reply
              (root_router-IsSafeReply p h sys (hs.evbase) (h.empty)
                record (hs.router) { url = url } reply safe routed)))
    | inr unsafe ↦
        (let e = ok-inj (rw (has, unsafe) at done) in
          subst (IsSafeAnswer url) e record { safe = tt })
  ]

  without_url :
      (hs : H2Stream) (a : Answer)
      → hs.url ≡ none
      → on_request_recv p h sys submitted hs ≡ ok a
      → IsSafeAnswer (requested hs) a
  unfolding on_request_recv
  without_url hs a has done =
      let e = ok-inj (rw has at done) in subst (IsSafeAnswer (requested hs)) e record { safe = tt }

  with_any_url :
      (hs : H2Stream) (a : Answer)
      → on_request_recv p h sys submitted hs ≡ ok a
      → IsSafeAnswer (requested hs) a
  with_any_url hs a done = elim (Option-cases (hs.url)) [
    | inl has ↦ without_url hs a has done
    | inr (url, has) ↦
        subst (λ u. IsSafeAnswer u a) (rw has) (on_request_recv-IsSafeAnswer hs url a has done)
  ]

  -- A request that is complete opens only local files: the path of each is the stream's URL
  -- without its leading slashes, is relative, and has no segment "." or "..".
  pub on_frame_recv_callback-IsSafeAnswer :
      (frame : Frame) (session session' : Session) (a : Answer)
      → on_frame_recv_callback p h sys submitted frame session ≡ ok (session', some a)
      → (hs : H2Stream) × (session (frame.stream_id) ≡ some hs) × IsSafeAnswer (requested hs) a
  unfolding on_frame_recv_callback
  on_frame_recv_callback-IsSafeAnswer frame session session' a done =
      elim (Bool-cases (is_other (frame.type) || not (frame.end_stream))) [
        | inl skipped ↦ absurd (let e = ok-inj (rw skipped at done) in none-some (ap (λ r. r.1) e))
        | inr complete ↦ elim (Option-cases (session (frame.stream_id))) [
          | inl missing ↦
              absurd
                (let e = ok-inj (rw (complete, missing) at done) in none-some (ap (λ r. r.1) e))
          | inr (hs, has) ↦
              (let (a', answered, e) =
                  ok_of_bind (on_request_recv p h sys submitted hs)
                    (λ b. (set_user_data (frame.stream_id) (some (b.stream)) session, some b))
                    (session', some a) (rw (complete, has) at done) in
                (
                  hs,
                  has,
                  subst (IsSafeAnswer (requested hs)) (some_inj.0 (ap (λ r. r.1) e))
                      (with_any_url hs a' answered),
                ))
        ]
      ]

-- A frame of headers that is a whole request.
abbrev pub whole_request : ℕ → Frame
whole_request stream_id = record {
  type = headers_frame;
  is_request = true;
  end_stream = true;
  stream_id = stream_id;
}

pub set_user_data-same :
    (id : ℕ) (hs : Option H2Stream) (session : Session) → set_user_data id hs session id ≡ hs
set_user_data-same id hs session = rw (==_refl id)

pub begun :
    (frame : Frame) (session : Session)
    → frame.type ≡ headers_frame
    → frame.is_request ≡ true
    → on_begin_headers_callback frame session (frame.stream_id) ≡ some create_http_stream
unfolding on_begin_headers_callback
begun frame session e f =
    rw (e, f) (set_user_data-same (frame.stream_id) (some create_http_stream) session)

pub header_path :
    (id : ℕ) (session : Session) (hs : H2Stream) (value url : Bytes)
    → session id ≡ some hs
    → hs.url ≡ none
    → field value ≡ ok url
    → on_header_callback (whole_request id) (bytes ":path") value session
      ≡ ok (set_user_data id (some (record hs { url = some url })) session)
unfolding on_header_callback store_header
header_path id session hs value url has empty decoded = rw (has, empty, decoded)

pub frame_abort :
    (p : Pcre2) (h : HashTable (Route p)) (sys : System) (submitted : ℤ) (id : ℕ)
    (session : Session) (hs : H2Stream) (url : Bytes)
    → session id ≡ some hs
    → hs.url ≡ some url
    → hs.evbase ≡ false
    → check_path url ≡ true
    → on_frame_recv_callback p h sys submitted (whole_request id) session ≡ abort
unfolding on_frame_recv_callback on_request_recv root_router
frame_abort p h sys submitted id session hs url has set base safe = rw (has, set, base, safe)

close_fault :
    (id : ℕ) (session : Session)
    → session id ≡ some create_http_stream
    → on_stream_close_callback id session ≡ fault
unfolding on_stream_close_callback
close_fault id session has = rw (has, on_stream_close_callback)

-- Closing a stream that `on_begin_headers_callback` has made is an access through NULL, since no
-- stream is linked into a list.
pub on_stream_close_callback-fault :
    (frame : Frame) (session : Session)
    → frame.type ≡ headers_frame
    → frame.is_request ≡ true
    → on_stream_close_callback (frame.stream_id) (on_begin_headers_callback frame session) ≡ fault
on_stream_close_callback-fault frame session e f =
    close_fault (frame.stream_id) (on_begin_headers_callback frame session)
      (begun frame session e f)
