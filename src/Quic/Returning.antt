-- ===== src/Quic/Returning.antt =====
-- `http3_event_cb` of main/http3/event_cb.c is not cut off within the bounds of its loops.
use gfhttpd.Base.{
  ℕ, zero, suc, sym, Bool, some, List, [], ◌∷◌, Run, IsFueled, bind-IsFueled, fueled_rules,
  Ensures_ok, Bytes, if-cases, Option-cases, inl, inr, ℤ,
}
use mathlib.Core.Path.{subst}
use gfhttpd.Routes.Interfaces.{HashTable, Pcre2}
use gfhttpd.Routes.{Route}
use gfhttpd.Router.Calls.{System}
use gfhttpd.Http3.Quiche.{HeaderEvents}
use gfhttpd.Http3.Fueled.{headers-IsFueled, route_request-IsFueled}
use gfhttpd.Quic.Api.{
  Transport, H3Event, headers_event, data_event, finished_event, other_event, Input, done, refused,
  processed,
}
use gfhttpd.Quic.{Datagram, Socket, Connection}
use gfhttpd.Quic.Accept.{Resources, Server, Found, returned, found}
use gfhttpd.Quic.Events.{
  Next, returns, breaks, continues, on_event, poll_loop, on_established, on_input, receive,
  received, on_datagram, go_on, recv_loop, after_recv, http3_event_cb,
}
use gfhttpd.Quic.Polled.{IsLike, on_event-IsLike}
use gfhttpd.Quic.Bounded.{AfterEvent, PollsWithin, IsBound}
use gfhttpd.Quic.Fueled.{retire-IsFueled, flush_each-IsFueled, find_connection-IsFueled}

module _ (t : Transport) (H : Type 0) (insert_header : Bytes → Bytes → H → H) (empty : H)
    (h : HashTable (Connection t H insert_header)) (q : HeaderEvents) (p : Pcre2)
    (hr : HashTable (Route p)) (sys : System) (loop : Bool) (routes : hr.Table) where
  abbrev C : Type 0
  C = Connection t H insert_header

  abbrev S : Type 0
  S = Server t H insert_header empty h

  on_event-IsFueled :
      (stream_id : ℕ) (event : H3Event) (hs : C) (server : S)
      → IsFueled
          (on_event t H insert_header empty h q p hr sys loop routes stream_id event hs server)
  unfolding on_event
  on_event-IsFueled stream_id (headers_event headers) hs server =
      search (fueled_rules, headers-IsFueled, route_request-IsFueled)
  on_event-IsFueled stream_id data_event hs server = tt
  on_event-IsFueled stream_id finished_event hs server = tt
  on_event-IsFueled stream_id other_event hs server = tt

  poll_loop-IsFueled :
      (fuel : ℕ) (http3 : t.H3) (hs : C) (server : S)
      → PollsWithin t fuel http3 (hs.conn)
      → IsFueled (poll_loop t H insert_header empty h q p hr sys loop routes fuel http3 hs server)
  unfolding poll_loop
  poll_loop-IsFueled zero http3 hs server b = elim b [ ]
  poll_loop-IsFueled (suc fuel) http3 hs server b =
      let http3' = (t.poll http3 (hs.conn)).1.0 in
      let conn = (t.poll http3 (hs.conn)).1.1 in
      let hs' : C = record hs { http3 = some http3'; conn = conn } in
      elim (Option-cases ((t.poll http3 (hs.conn)).0)) [
        | inl nothing ↦ rw (nothing, IsFueled) tt
        | inr ((stream_id, event), some') ↦
            (let b' = subst (λ o. AfterEvent o (PollsWithin t fuel http3' conn)) some' b in
              rw (some', IsFueled)
                (bind-IsFueled
                  (on_event t H insert_header empty h q p hr sys loop routes stream_id event hs'
                    server)
                  _ (on_event-IsFueled stream_id event hs' server)
                  (λ r e.
                    let like =
                      Ensures_ok
                        (IsLike t H insert_header empty h (λ _. Unit) q p hr sys loop routes hs'
                          server)
                        _ r
                        (on_event-IsLike t H insert_header empty h (λ _. Unit) q p hr sys loop
                          routes stream_id event hs' server)
                        e in
                    if-cases IsFueled r.0
                      (λ _.
                        poll_loop-IsFueled fuel http3' r.1.0 r.1.1
                          (subst (PollsWithin t fuel http3') (sym (like.same_conn)) b'))
                      (λ _. tt))))
      ]

  module _ (fuel : ℕ) (b : IsBound t fuel) where
    on_established-IsFueled :
        (hs : C) (server : S)
        → IsFueled (on_established t H insert_header empty h q p hr sys loop routes fuel hs server)
    unfolding on_established
    on_established-IsFueled hs server = elim (Option-cases (hs.http3)) [
      | inr (http3, some') ↦
          rw (some', IsFueled) (poll_loop-IsFueled fuel http3 hs server (b.polls http3 (hs.conn)))
      | inl none' ↦ elim (Option-cases (t.new_with_transport (hs.conn))) [
        | inl missing ↦ rw (none', missing, IsFueled) tt
        | inr (http3, made) ↦
            rw (none', made, IsFueled)
              (poll_loop-IsFueled fuel http3 hs server (b.polls http3 (hs.conn)))
      ]
    ]

    on_input-IsFueled :
        (input : Input) (hs : C) (server : S)
        → IsFueled (on_input t H insert_header empty h q p hr sys loop routes fuel input hs server)
    unfolding on_input
    on_input-IsFueled done hs server = tt
    on_input-IsFueled refused hs server = search (fueled_rules, retire-IsFueled)
    on_input-IsFueled (processed n) hs server = search (fueled_rules, on_established-IsFueled)

    received-IsFueled :
        (payload : Bytes) (r : Found t H insert_header empty h)
        → IsFueled (received t H insert_header empty h q p hr sys loop routes fuel payload r)
    unfolding receive
    received-IsFueled payload (returned server) = tt
    received-IsFueled payload (found hs server) =
        on_input-IsFueled (t.recv (hs.conn) payload).0 _ server

    on_datagram-IsFueled :
        (res : Resources) (sock : ℤ) (d : Datagram) (server : S)
        → IsFueled
            (on_datagram t H insert_header empty h q p hr sys loop routes res sock fuel d server)
    unfolding on_datagram
    on_datagram-IsFueled res sock d server = elim (Option-cases (t.header_info (d.payload))) [
      | inl bad ↦ rw (bad, IsFueled) tt
      | inr (header, parsed) ↦
          rw (parsed, IsFueled) (search (fueled_rules, find_connection-IsFueled, received-IsFueled))
    ]

    go_on-IsFueled :
        (next : Next t H insert_header empty h) (rest : S → Run (Next t H insert_header empty h))
        → ((server : S) → IsFueled (rest server))
        → IsFueled (go_on t H insert_header empty h q p hr sys loop routes next rest)
    go_on-IsFueled (returns server) rest f = tt
    go_on-IsFueled (breaks server) rest f = tt
    go_on-IsFueled (continues server) rest f = f server

    recv_loop-IsFueled :
        (sock : ℤ) (datagrams : List (Resources × Datagram)) (would_block : Bool) (server : S)
        → IsFueled (
            recv_loop t H insert_header empty h q p hr sys loop routes sock fuel datagrams
              would_block server)
    unfolding recv_loop
    recv_loop-IsFueled sock [] would_block server = tt
    recv_loop-IsFueled sock ((res, d) ∷ rest) would_block server =
        bind-IsFueled
          (on_datagram t H insert_header empty h q p hr sys loop routes res sock fuel d server) _
          (on_datagram-IsFueled res sock d server)
          (λ next _.
            go_on-IsFueled next
              (recv_loop t H insert_header empty h q p hr sys loop routes sock fuel rest
                would_block)
              (λ server'. recv_loop-IsFueled sock rest would_block server'))

    after_recv-IsFueled :
        (socket : Socket) (next : Next t H insert_header empty h)
        → IsFueled (after_recv t H insert_header empty h q p hr sys loop routes socket fuel next)
    after_recv-IsFueled socket (returns server) = tt
    after_recv-IsFueled socket (breaks server) =
        flush_each-IsFueled t H insert_header empty h fuel b socket _ server
    after_recv-IsFueled socket (continues server) =
        flush_each-IsFueled t H insert_header empty h fuel b socket _ server

    pub http3_event_cb-IsFueled :
        (socket : Socket) (sock : ℤ) (datagrams : List (Resources × Datagram)) (would_block : Bool)
        (server : S)
        → IsFueled (
            http3_event_cb t H insert_header empty h q p hr sys loop routes socket sock fuel
              datagrams would_block server)
    unfolding http3_event_cb
    http3_event_cb-IsFueled socket sock datagrams would_block server =
        bind-IsFueled
          (recv_loop t H insert_header empty h q p hr sys loop routes sock fuel datagrams
            would_block server)
          _ (recv_loop-IsFueled sock datagrams would_block server)
          (λ next _. after_recv-IsFueled socket next)
