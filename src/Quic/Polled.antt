-- ===== src/Quic/Polled.antt =====
-- What `Trust` says of the table is kept by what `http3_event_cb` of main/http3/event_cb.c does with
-- a packet for a connection.
use gfhttpd.Base.{
  ℕ, zero, suc, ◌≡◌, refl, sym, Bool, some, Ensures, bind-Ensures, bind-Ensures-all, Bytes,
  if-cases, Option-cases, inl, inr,
}
use mathlib.Core.Path.{subst}
use gfhttpd.Routes.Interfaces.{HashTable, Pcre2}
use gfhttpd.Routes.{Route}
use gfhttpd.Router.Calls.{System}
use gfhttpd.Router.{Reply}
use gfhttpd.Http2.{is_minus_one}
use gfhttpd.Http3.Quiche.{HeaderEvents}
use gfhttpd.Http3.{Request, for_each_header, route_request}
use gfhttpd.Quic.Api.{
  Transport, H3Event, headers_event, data_event, finished_event, other_event, Input, done, refused,
  processed,
}
use gfhttpd.Quic.{Connection}
use gfhttpd.Quic.Accept.{Server}
use gfhttpd.Quic.Events.{
  retire, Next, returns, breaks, continues, start_response, init_headers, on_event, poll_loop,
  on_established, on_input, receive,
}
use gfhttpd.Quic.Trust.{IsTrusted, store_back-IsTrusted}
use gfhttpd.Quic.Guarded.{retire-IsTrusted}

module _ (t : Transport) (H : Type 0) (insert_header : Bytes → Bytes → H → H) (empty : H)
    (h : HashTable (Connection t H insert_header)) (V : Bytes → Type 0) where
  abbrev C : Type 0
  C = Connection t H insert_header

  abbrev S : Type 0
  S = Server t H insert_header empty h

  abbrev IsGood : S → Type 0
  IsGood server = IsTrusted t H insert_header empty h V (server.head)

  abbrev pub IsGoodNext : Next t H insert_header empty h → Type 0
  IsGoodNext (returns server) = IsGood server
  IsGoodNext (breaks server) = IsGood server
  IsGoodNext (continues server) = IsGood server

  module _ (q : HeaderEvents) (p : Pcre2) (hr : HashTable (Route p)) (sys : System) (loop : Bool)
      (routes : hr.Table) where
    -- An event changes neither the table nor the peer.
    pub record IsLike (hs : C) (server : S) (r : Bool × (C × S)) : Type 0 where
      pub same_peer : (r.1.0).peer_addr ≡ hs.peer_addr
      pub same_head : (r.1.1).head ≡ server.head
      pub same_conn : (r.1.0).conn ≡ hs.conn

    start_response-IsLike :
        (stream_id : ℕ) (hs : C) (server : S) (reply : Reply)
        → IsLike hs server (
            start_response t H insert_header empty h q p hr sys loop routes stream_id hs server
              reply)
    unfolding start_response
    start_response-IsLike stream_id hs server reply =
        if-cases (IsLike hs server) (is_minus_one (reply.fd))
          (λ _. record { same_peer = refl; same_head = refl; same_conn = refl })
          (λ _. record { same_peer = refl; same_head = refl; same_conn = refl })

    pub on_event-IsLike :
        (stream_id : ℕ) (event : H3Event) (hs : C) (server : S)
        → Ensures
            (IsLike hs server)
            (on_event t H insert_header empty h q p hr sys loop routes stream_id event hs server)
    unfolding on_event
    on_event-IsLike stream_id (headers_event headers) hs server =
        bind-Ensures-all (IsLike hs server)
          (q.for_each (for_each_header H insert_header) headers (hs.request)) _
          (λ r.
            bind-Ensures-all (IsLike hs server)
              (route_request p hr sys loop routes (hs.response) (Request.url r.1)) _
              (λ reply.
                let hs' : C = record hs {
                  request = r.1;
                  response_headers =
                      init_headers t H insert_header empty h q p hr sys loop routes
                        (hs.response_headers);
                } in
                let like = start_response-IsLike stream_id hs' server reply in
                record {
                  same_peer = like.same_peer;
                  same_head = like.same_head;
                  same_conn = like.same_conn;
                }))
    on_event-IsLike stream_id data_event hs server = record {
      same_peer = refl;
      same_head = refl;
      same_conn = refl;
    }
    on_event-IsLike stream_id finished_event hs server = record {
      same_peer = refl;
      same_head = refl;
      same_conn = refl;
    }
    on_event-IsLike stream_id other_event hs server = record {
      same_peer = refl;
      same_head = refl;
      same_conn = refl;
    }

    poll_loop-IsTrusted :
        (fuel : ℕ) (http3 : t.H3) (hs : C) (server : S)
        → IsGood server
        → V (hs.peer_addr)
        → Ensures IsGoodNext
            (poll_loop t H insert_header empty h q p hr sys loop routes fuel http3 hs server)
    unfolding poll_loop
    poll_loop-IsTrusted zero http3 hs server i v = tt
    poll_loop-IsTrusted (suc fuel) http3 hs server i v =
        let conn = (t.poll http3 (hs.conn)).1.1 in
        let hs' : C = record hs { http3 = some ((t.poll http3 (hs.conn)).1.0); conn = conn } in
        elim (Option-cases ((t.poll http3 (hs.conn)).0)) [
          | inl nothing ↦
              rw (nothing, Ensures)
                (store_back-IsTrusted t H insert_header empty h V hs' server i v)
          | inr ((stream_id, event), some') ↦
              rw (some', Ensures)
                (bind-Ensures (IsLike hs' server) IsGoodNext
                  (on_event t H insert_header empty h q p hr sys loop routes stream_id event hs'
                    server)
                  _ (on_event-IsLike stream_id event hs' server)
                  (λ r like.
                    let i' =
                      subst (IsTrusted t H insert_header empty h V) (sym (like.same_head)) i in
                    let v' = subst V (sym (like.same_peer)) v in
                    if-cases (Ensures IsGoodNext) r.0
                      (λ _.
                        poll_loop-IsTrusted fuel ((t.poll http3 (hs.conn)).1.0) r.1.0 r.1.1 i' v')
                      (λ _. store_back-IsTrusted t H insert_header empty h V r.1.0 r.1.1 i' v')))
        ]

    on_established-IsTrusted :
        (fuel : ℕ) (hs : C) (server : S)
        → IsGood server
        → V (hs.peer_addr)
        → Ensures IsGoodNext
            (on_established t H insert_header empty h q p hr sys loop routes fuel hs server)
    unfolding on_established
    on_established-IsTrusted fuel hs server i v = elim (Option-cases (hs.http3)) [
      | inr (http3, some') ↦ rw (some', Ensures) (poll_loop-IsTrusted fuel http3 hs server i v)
      | inl none' ↦ elim (Option-cases (t.new_with_transport (hs.conn))) [
        | inl missing ↦
            rw (none', missing, Ensures)
              (store_back-IsTrusted t H insert_header empty h V hs server i v)
        | inr (http3, made) ↦
            rw (none', made, Ensures) (poll_loop-IsTrusted fuel http3 hs server i v)
      ]
    ]

    on_input-IsTrusted :
        (fuel : ℕ) (input : Input) (hs : C) (server : S)
        → IsGood server
        → V (hs.peer_addr)
        → Ensures IsGoodNext
            (on_input t H insert_header empty h q p hr sys loop routes fuel input hs server)
    unfolding on_input
    on_input-IsTrusted fuel done hs server i v =
        store_back-IsTrusted t H insert_header empty h V hs server i v
    on_input-IsTrusted fuel refused hs server i v =
        bind-Ensures IsGood IsGoodNext (retire t H insert_header empty h hs server) _
          (retire-IsTrusted t H insert_header empty h V hs server i) (λ server' i'. i')
    on_input-IsTrusted fuel (processed n) hs server i v =
        if-cases (Ensures IsGoodNext) (t.is_established (hs.conn))
          (λ _. on_established-IsTrusted fuel hs server i v)
          (λ _. store_back-IsTrusted t H insert_header empty h V hs server i v)

    -- A packet keeps the table so, for a connection with such a peer.
    pub receive-IsTrusted :
        (fuel : ℕ) (payload : Bytes) (hs : C) (server : S)
        → IsGood server
        → V (hs.peer_addr)
        → Ensures IsGoodNext
            (receive t H insert_header empty h q p hr sys loop routes fuel payload hs server)
    unfolding receive
    receive-IsTrusted fuel payload hs server i v =
        on_input-IsTrusted fuel (t.recv (hs.conn) payload).0
          record hs { conn = (t.recv (hs.conn) payload).1 } server i v
