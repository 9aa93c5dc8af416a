-- ===== src/Http2/Session.antt =====
-- The connections of HTTP/2: main/http2/http2_session.c, the callbacks of main/http2/read_cb.c,
-- write_cb.c and accept_cb.c, and those of main/http2/event_cb.c that do not build a request.
pub mod Leaving
pub mod Ends
pub mod Reads
mod Examples
use gfhttpd.Base.{
  ℕ, ◌+◌, ◌^◌, Bool, true, false, not, ◌||◌, ◌&&◌, Option, none, some, List, [], ◌∷◌, ◌++◌, Run, ok,
  fault, out_of_fuel, ◌>>=◌, Bytes, bytes, bytes_eq, length, drop, leb, ltb, ◌==◌, if◌then◌else◌, ℤ,
  pos, negsuc, is_negative, is_zero,
}
use gfhttpd.Router.Calls.{Call, closed}
use gfhttpd.Http2.{is_minus_one}

-- What is asked of nghttp2 for a session; a result of 0 is a success.
pub record Nghttp2 : Type 1 where
  pub Handle : Type 0
  pub server_new : Handle
  pub submit_settings : Handle → ℤ × Handle
  pub send : Handle → ℤ × Handle
  pub mem_recv : Handle → Bytes → ℤ × Handle
  pub want_read : Handle → Bool
  pub want_write : Handle → Bool

-- OUTPUT_WOULDBLOCK_THRESHOLD
abbrev pub output_wouldblock_threshold : ℕ
output_wouldblock_threshold = 2 ^ 16

-- NGHTTP2_ERR_WOULDBLOCK
abbrev pub err_wouldblock : ℤ
err_wouldblock = negsuc 503

-- The bytes of the output buffer after the call, and the result.
unfoldable pub send_callback : Bytes → Bytes → ℤ × Bytes
send_callback output payload =
    if leb output_wouldblock_threshold (length output)
    then (err_wouldblock, output)
    else (pos (length payload), output ++ payload)

-- `delete_http_stream`: the descriptor that is closed.
unfoldable pub delete_http_stream : ℤ → List Call
delete_http_stream sock = if is_minus_one sock then [] else closed sock ∷ []

unfoldable pub delete_streams : List ℤ → List Call
unfolding delete_http_stream
delete_streams [] = []
delete_streams (sock ∷ rest) = delete_http_stream sock ++ delete_streams rest

module _ (n : Nghttp2) where
  -- `http2_session_data` with its buffers, and what it hangs on: `from_pool` says whether it was
  -- allocated from a pool, and `streams` are the sockets of the streams behind `hs`.
  pub record SessionData : Type 0 where
    pub session : Option (n.Handle)
    pub input : Bytes
    pub output : Bytes
    pub drain : ℤ
    pub from_pool : Bool
    pub streams : List ℤ

  -- The connection of `create_http2_conn`.
  unfoldable pub create_http2_conn : SessionData
  create_http2_conn = record {
    session = none;
    input = [];
    output = [];
    drain = pos 0;
    from_pool = true;
    streams = [];
  }

  -- `free` of memory that a pool gave is undefined.
  unfoldable pub delete_http2_session_data : SessionData → Run (List Call)
  unfolding delete_streams
  delete_http2_session_data session_data =
      if session_data.from_pool then fault else ok (delete_streams (session_data.streams))

  -- A use of the session that is not there is a fault.
  abbrev pub with_session : {A : Type 0} → SessionData → (n.Handle → Run A) → Run A
  with_session session_data f = elim (session_data.session) [ none ↦ fault | some s ↦ f s ]

  -- 0 or -1, and the data.
  unfoldable pub session_send : SessionData → Run (ℤ × SessionData)
  session_send session_data = with_session session_data λ session.
      (let (rv, session') = n.send session in
        ok
          (if is_zero rv then pos 0 else negsuc 0, record session_data { session = some session' }))

  -- `evbuffer_drain` of as many bytes.
  abbrev pub drain_input : ℤ → Bytes → Bytes
  drain_input (pos k) input = drop k input
  drain_input (negsuc k) input = input

  unfoldable pub session_recv : SessionData → Run (ℤ × SessionData)
  unfolding session_send
  session_recv session_data = with_session session_data λ session.
      (let (readlen, session') = n.mem_recv session (session_data.input) in
        let session_data' : SessionData = record session_data { session = some session' } in
        if is_negative readlen
        then ok (negsuc 0, session_data')
        else if not (is_zero (session_data.drain))
        then ok (negsuc 0, session_data')
        else session_send record session_data' { input = drain_input readlen (session_data.input) })

  -- How a callback leaves the connection: open, or deleted with these calls.
  pub data Left : Type 0 where
    open_ : SessionData → Left
    deleted : List Call → Left

  unfoldable pub delete_session : SessionData → Run Left
  unfolding delete_http2_session_data
  delete_session session_data =
      delete_http2_session_data session_data >>= λ calls. ok (deleted calls)

  -- The connection stays where a result is 0.
  abbrev pub keep_if_zero : ℤ × SessionData → Run Left
  keep_if_zero (rv, session_data) =
      if not (is_zero rv) then delete_session session_data else ok (open_ session_data)

  unfoldable pub http2_readcb : SessionData → Run Left
  unfolding session_recv delete_session
  http2_readcb session_data = session_recv session_data >>= keep_if_zero

  unfoldable pub http2_writecb : SessionData → Run Left
  unfolding session_send delete_session
  http2_writecb session_data =
      if ltb 0 (length (session_data.output))
      then ok (open_ session_data)
      else with_session session_data λ session.
        (if not (n.want_read session) && not (n.want_write session)
          then delete_session session_data
          else (session_send session_data >>= keep_if_zero))

  unfoldable pub initialize_nghttp2_session : SessionData → SessionData
  initialize_nghttp2_session session_data = record session_data { session = some (n.server_new) }

  unfoldable pub send_server_connection_header : SessionData → Run (ℤ × SessionData)
  send_server_connection_header session_data = with_session session_data λ session.
      (let (rv, session') = n.submit_settings session in
        ok
          (if is_zero rv then pos 0 else negsuc 0, record session_data { session = some session' }))

  -- After the header is sent.
  abbrev pub send_if_zero : ℤ × SessionData → Run Left
  send_if_zero (rv, session_data) =
      if not (is_zero rv)
      then delete_session session_data
      else (session_send session_data >>= keep_if_zero)

  -- `alpn` is what was negotiated, if anything; an event that is no BEV_EVENT_CONNECTED ends the
  -- connection.
  unfoldable pub http2_eventcb : Bool → Option Bytes → SessionData → Run Left
  unfolding delete_session initialize_nghttp2_session send_server_connection_header session_send
  http2_eventcb connected alpn session_data =
      if not connected then delete_session session_data else elim alpn [
        | none ↦ delete_session session_data
        | some protocol ↦
            if not (bytes_eq protocol (bytes "h2"))
            then delete_session session_data
            else (send_server_connection_header (initialize_nghttp2_session session_data)
                >>= send_if_zero)
      ]
