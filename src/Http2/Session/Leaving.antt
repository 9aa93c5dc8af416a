-- ===== src/Http2/Session/Leaving.antt =====
-- The callbacks of a connection of main/http2 on an event, and when they are meant to end it.
use gfhttpd.Base.{
  ◌≡◌, refl, true, false, not, ◌&&◌, Option, none, some, List, [], ◌∷◌, ◌++◌, Run, ok, fault, ◌>>=◌,
  Bytes, inl, inr, bytes, bytes_eq, ltb, length, Bool, ◌||◌, Bool-cases, is_zero, is_negative,
}
use gfhttpd.Http2.Session.{
  Nghttp2, SessionData, delete_http2_session_data, session_send, session_recv, drain_input, Left,
  open_, deleted, delete_session, keep_if_zero, http2_readcb, http2_writecb,
  initialize_nghttp2_session, send_server_connection_header, http2_eventcb,
}

-- An event of a connection, with what the buffer has received before.
pub data BevEvent : Type 0 where
  readable : Bytes → BevEvent
  writable : BevEvent
  connected : Option Bytes → BevEvent
  ended : BevEvent

module _ (n : Nghttp2) where
  -- The callback for an event.
  abbrev pub callback : BevEvent → SessionData n → Run (Left n)
  callback (readable bytes_in) d = http2_readcb n record d { input = d.input ++ bytes_in }
  callback writable d = http2_writecb n d
  callback (connected alpn) d = http2_eventcb n true alpn d
  callback ended d = http2_eventcb n false none d

  -- The events of a connection as long as it is open.
  abbrev pub next_event : (SessionData n → Run (Left n)) → Left n → Run (Left n)
  next_event rest (open_ d) = rest d
  next_event rest (deleted calls) = ok (deleted calls)

  abbrev pub events : List BevEvent → SessionData n → Run (Left n)
  events [] d = ok (open_ d)
  events (e ∷ rest) d = callback e d >>= next_event (events rest)

  abbrev pub HasSession : SessionData n → Type 0
  HasSession d = (session : n.Handle) × (d.session ≡ some session)

  -- The session that a callback uses.
  abbrev pub handle : Option n.Handle → n.Handle
  handle none = n.server_new
  handle (some session) = session

  -- nghttp2 cannot send.
  abbrev pub send_fails : n.Handle → Bool
  send_fails session = not (is_zero (n.send session).0)

  -- The protocol of a new connection is "h2".
  abbrev pub is_h2 : Option Bytes → Bool
  is_h2 none = false
  is_h2 (some protocol) = bytes_eq protocol (bytes "h2")

  -- An event is meant to end the connection: an error of nghttp2 or of the buffer, a session that
  -- wants neither to read nor to write and has nothing left in the buffer, another protocol than
  -- "h2", or the end itself.
  abbrev pub ends_it : BevEvent → SessionData n → Bool
  ends_it (readable bytes_in) d =
      let received = n.mem_recv (handle (d.session)) (d.input ++ bytes_in) in
      is_negative (received.0) || (not (is_zero (d.drain)) || send_fails (received.1))
  ends_it writable d =
      let session = handle (d.session) in
      not (ltb 0 (length (d.output)))
      && ((not (n.want_read session) && not (n.want_write session)) || send_fails session)
  ends_it (connected alpn) d =
      let submitted = n.submit_settings (n.server_new) in
      not (is_h2 alpn) || (not (is_zero (submitted.0)) || send_fails (submitted.1))
  ends_it ended d = true

  -- How a callback leaves a connection that it should end or not: the end is undefined.
  abbrev pub Leaves : Bool → Run (Left n) → Type 0
  Leaves true r = r ≡ fault
  Leaves false r = (d : SessionData n) × (r ≡ ok (open_ d)) × (d.from_pool ≡ true) × HasSession d

  pub delete_session-fault : (d : SessionData n) → d.from_pool ≡ true → delete_session n d ≡ fault
  unfolding delete_session delete_http2_session_data
  delete_session-fault d e = rw e

  session_send-Leaves :
      (d : SessionData n) (session : n.Handle)
      → d.session ≡ some session
      → d.from_pool ≡ true
      → Leaves (send_fails session) (session_send n d >>= keep_if_zero n)
  unfolding session_send
  session_send-Leaves d session has e = elim (Bool-cases (is_zero (n.send session).0)) [
    | inl sent ↦ rw (has, sent) (_, refl, e, (_, refl))
    | inr failed ↦ rw (has, failed) (delete_session-fault _ e)
  ]

  http2_readcb-Leaves :
      (d : SessionData n) (session : n.Handle)
      → d.session ≡ some session
      → d.from_pool ≡ true
      → let received = n.mem_recv session (d.input) in
        Leaves
          (is_negative (received.0) || (not (is_zero (d.drain)) || send_fails (received.1)))
          (http2_readcb n d)
  unfolding http2_readcb session_recv
  http2_readcb-Leaves d session has e =
      let received : SessionData n = record d { session = some (n.mem_recv session (d.input)).1 } in
      elim (Bool-cases (is_negative (n.mem_recv session (d.input)).0)) [
        | inl bad ↦ rw (has, bad) (delete_session-fault received e)
        | inr good ↦ elim (Bool-cases (is_zero (d.drain))) [
          | inr stuck ↦ rw (has, good, stuck) (delete_session-fault received e)
          | inl drained ↦
              rw (has, good, drained)
                (session_send-Leaves
                  record received {
                    input = drain_input n (n.mem_recv session (d.input)).0 (d.input);
                  }
                  (n.mem_recv session (d.input)).1 refl e)
        ]
      ]

  http2_writecb-Leaves :
      (d : SessionData n) (session : n.Handle)
      → d.session ≡ some session
      → d.from_pool ≡ true
      → Leaves
          (not (ltb 0 (length (d.output)))
            && ((not (n.want_read session) && not (n.want_write session)) || send_fails session))
          (http2_writecb n d)
  unfolding http2_writecb session_send
  http2_writecb-Leaves d session has e = elim (Bool-cases (ltb 0 (length (d.output)))) [
    | inl more ↦ rw more (d, refl, e, (session, has))
    | inr empty ↦ elim (Bool-cases (not (n.want_read session) && not (n.want_write session))) [
      | inl over ↦ rw (empty, has, over) (delete_session-fault d e)
      | inr going ↦ elim (Bool-cases (is_zero (n.send session).0)) [
        | inl sent ↦
            rw (empty, has, going, sent)
              (record d { session = some (n.send session).1 }, refl, e, (_, refl))
        | inr failed ↦
            rw (empty, has, going, failed)
              (delete_session-fault record d { session = some (n.send session).1 } e)
      ]
    ]
  ]

  pub http2_eventcb-Leaves :
      (alpn : Option Bytes) (d : SessionData n)
      → d.from_pool ≡ true
      → Leaves (ends_it (connected alpn) d) (callback (connected alpn) d)
  unfolding http2_eventcb initialize_nghttp2_session send_server_connection_header
  http2_eventcb-Leaves none d e = delete_session-fault d e
  http2_eventcb-Leaves (some protocol) d e =
      let begun : SessionData n = record d {
        session = some (n.submit_settings (n.server_new)).1;
      } in
      elim (Bool-cases (bytes_eq protocol (bytes "h2"))) [
        | inr other ↦ rw other (delete_session-fault d e)
        | inl h2 ↦ elim (Bool-cases (is_zero (n.submit_settings (n.server_new)).0)) [
          | inr refused ↦ rw (h2, refused) (delete_session-fault begun e)
          | inl submitted ↦
              rw (h2, submitted)
                (session_send-Leaves begun (n.submit_settings (n.server_new)).1 refl e)
        ]
      ]

  pub callback-Leaves :
      (event : BevEvent) (d : SessionData n) (session : n.Handle)
      → d.session ≡ some session
      → d.from_pool ≡ true
      → Leaves (ends_it event d) (callback event d)
  unfolding http2_eventcb
  callback-Leaves (readable bytes_in) d session has e = rw has (
      http2_readcb-Leaves record d { session = some session; input = d.input ++ bytes_in } session
        refl e)
  callback-Leaves writable d session has e =
      rw has (http2_writecb-Leaves record d { session = some session } session refl e)
  callback-Leaves (connected alpn) d session has e = http2_eventcb-Leaves alpn d e
  callback-Leaves ended d session has e = delete_session-fault d e
