-- ===== src/Quic/Events.antt =====
-- The rest of `http3_event_cb` of main/http3/event_cb.c, `http3_connection_cleanup` and
-- `http3_cleanup` of main/http3/http3.c, and main/http3/timeout_cb.c.
use gfhttpd.Base.{
  ℕ, zero, suc, Bool, true, false, not, none, some, List, [], ◌∷◌, ◌++◌, Run, ok, fault,
  out_of_fuel, ◌>>=◌, Bytes, bytes, take, if◌then◌else◌, ℤ,
}
use gfhttpd.Routes.Interfaces.{HashTable, Pcre2}
use gfhttpd.Routes.{Route}
use gfhttpd.Router.Calls.{System}
use gfhttpd.Router.{Reply}
use gfhttpd.Body.{send_response}
use gfhttpd.Connections.{local_conn_id_len, delete_connection, connections_iter}
use gfhttpd.Http2.{is_minus_one}
use gfhttpd.Http3.Quiche.{HeaderEvents}
use gfhttpd.Http3.{Request, for_each_header, route_request}
use gfhttpd.Quic.Api.{
  Transport, H3Event, headers_event, data_event, finished_event, other_event, Input, done, refused,
  processed,
}
use gfhttpd.Quic.{Datagram, Socket, Connection, flush_egress}
use gfhttpd.Quic.Accept.{Resources, Server, Found, returned, found, find_connection}

module _ (t : Transport) (H : Type 0) (insert_header : Bytes → Bytes → H → H) (empty : H)
    (h : HashTable (Connection t H insert_header)) where
  abbrev Hs : Type 0
  Hs = Connection t H insert_header

  abbrev Srv : Type 0
  Srv = Server t H insert_header empty h

  -- The table's structure after changes through the pointer to it.
  abbrev pub store_back : Hs → Srv → Srv
  store_back hs server = record server {
    head = h.modify (λ _. hs) (take local_conn_id_len (hs.cid)) (server.head);
  }

  -- The timer event must be there to be deleted.
  unfoldable pub http3_connection_cleanup : Hs → Srv → Run Srv
  http3_connection_cleanup hs server =
      if not (hs.timeout_ev)
      then fault
      else ok record server { cleaned = server.cleaned ++ hs.cid ∷ [] }

  -- `delete_connection`, then `http3_connection_cleanup`.
  unfoldable pub retire : Hs → Srv → Run Srv
  retire hs server = delete_connection Hs (λ c. c.cid) h hs (server.head) >>= λ head.
      http3_connection_cleanup hs record server { head = head }

  -- A connection is flushed, and removed if it is closed.
  unfoldable pub flush_connection : Socket → ℕ → Hs → Srv → Run Srv
  unfolding retire
  flush_connection socket fuel hs server = flush_egress t H insert_header socket fuel hs >>= λ r.
      (let (hs', sent) = r in
        let server' : Srv = store_back hs' record server { out = server.out ++ sent } in
        let closed = retire hs' server' in if t.is_closed (hs'.conn) then closed else ok server')

  unfoldable pub timeout_cb : Socket → ℕ → Hs → Srv → Run Srv
  timeout_cb socket fuel hs server =
      flush_connection socket fuel record hs { conn = t.on_timeout (hs.conn) } server

  -- The loop over the table at the end of `http3_event_cb`.
  unfoldable pub flush_each : Socket → ℕ → List (Bytes × Hs) → Srv → Run Srv
  flush_each socket fuel [] server = ok server
  flush_each socket fuel ((id, hs) ∷ rest) server =
      flush_connection socket fuel hs server >>= λ server'. flush_each socket fuel rest server'

  -- The connections of `http3_cleanup`.
  unfoldable pub cleanup_each : List (Bytes × Hs) → Srv → Run Srv
  cleanup_each [] server = ok server
  cleanup_each ((id, hs) ∷ rest) server = retire hs server >>= λ server'. cleanup_each rest server'

  unfoldable pub http3_cleanup : Srv → Run Srv
  unfolding connections_iter
  http3_cleanup server = cleanup_each (connections_iter Hs (λ c. c.cid) h (server.head)) server

  -- How a part of the loop over the datagrams ends: by a return, by a break, or at its end.
  pub data Next : Type 0 where
    returns : Srv → Next
    breaks : Srv → Next
    continues : Srv → Next

  module _ (q : HeaderEvents) (p : Pcre2) (hr : HashTable (Route p)) (sys : System) (loop : Bool)
      (routes : hr.Table) where
    -- The headers that a response starts with.
    abbrev pub init_headers : H → H
    init_headers headers = insert_header (bytes "content-length") (bytes "5") (
        insert_header (bytes "server") (bytes "quiche")
          (insert_header (bytes ":status") (bytes "200") headers))

    -- After the router: a response that is scheduled, or a return. The pool has room for the event.
    unfoldable pub start_response : ℕ → Hs → Srv → Reply → Bool × (Hs × Srv)
    start_response stream_id hs server reply =
        let hs' : Hs = record hs { response = reply.stream } in
        let server' : Srv = record server { calls = server.calls ++ reply.calls } in
        if is_minus_one (reply.fd) then (false, (hs', server')) else (
          true,
          (
            hs',
            record server' {
              writes =
                  server.writes
                  ++ record { stream_id = stream_id; fd = reply.fd; write = send_response } ∷ [];
            },
          ),
        )

    -- A case of the switch; false stands for a return.
    unfoldable pub on_event : ℕ → H3Event → Hs → Srv → Run (Bool × (Hs × Srv))
    unfolding start_response
    on_event stream_id (headers_event headers) hs server =
        q.for_each (for_each_header H insert_header) headers (hs.request) >>= λ r.
        (let hs' : Hs = record hs {
          request = r.1;
          response_headers = init_headers (hs.response_headers);
        } in
          route_request p hr sys loop routes (hs.response) (Request.url r.1) >>= λ reply.
          ok (start_response stream_id hs' server reply))
    on_event stream_id data_event hs server = ok (true, (hs, server))
    on_event stream_id finished_event hs server = ok (true, (hs, server))
    on_event stream_id other_event hs server = ok (true, (hs, server))

    -- The loop over the events of a connection.
    unfoldable pub poll_loop : ℕ → t.H3 → Hs → Srv → Run Next
    poll_loop zero http3 hs server = out_of_fuel
    poll_loop (suc fuel) http3 hs server =
        let (event, (http3', conn)) = t.poll http3 (hs.conn) in
        let hs' : Hs = record hs { http3 = some http3'; conn = conn } in
        elim event [
          | none ↦ ok (continues (store_back hs' server))
          | some (stream_id, ev) ↦
              (on_event stream_id ev hs' server >>= λ r.
              (let rest = poll_loop fuel http3' r.1.0 r.1.1 in
                if r.0 then rest else ok (returns (store_back r.1.0 r.1.1))))
        ]

    -- The events of an established connection.
    unfoldable pub on_established : ℕ → Hs → Srv → Run Next
    unfolding poll_loop
    on_established fuel hs server = elim (hs.http3) [
      | some http3 ↦ poll_loop fuel http3 hs server
      | none ↦ elim (t.new_with_transport (hs.conn)) [
        | none ↦ ok (returns (store_back hs server))
        | some http3 ↦ poll_loop fuel http3 hs server
      ]
    ]

    -- What `quiche_conn_recv` says of a packet.
    unfoldable pub on_input : ℕ → Input → Hs → Srv → Run Next
    on_input fuel done hs server = ok (breaks (store_back hs server))
    on_input fuel refused hs server = retire hs server >>= λ server'. ok (returns server')
    on_input fuel (processed n) hs server =
        if t.is_established (hs.conn)
        then on_established fuel hs server
        else ok (continues (store_back hs server))

    -- A packet for a connection.
    unfoldable pub receive : ℕ → Bytes → Hs → Srv → Run Next
    unfolding on_input
    receive fuel payload hs server =
        let (input, conn) = t.recv (hs.conn) payload in
        on_input fuel input record hs { conn = conn } server

    -- What follows the search for the connection.
    abbrev pub received : ℕ → Bytes → Found t H insert_header empty h → Run Next
    received fuel payload (returned server) = ok (returns server)
    received fuel payload (found hs server) = receive fuel payload hs server

    -- A datagram: `none` from `quiche_header_info` stands for a negative result.
    unfoldable pub on_datagram : Resources → ℤ → ℕ → Datagram → Srv → Run Next
    unfolding receive
    on_datagram res sock fuel d server = elim (t.header_info (d.payload)) [
      | none ↦ ok (returns server)
      | some header ↦
          find_connection t H insert_header empty h res sock (d.addr) header server
          >>= received fuel (d.payload)
    ]

    -- The loop over the datagrams that `recvfrom` gives before it fails; `would_block` says that it
    -- fails with EWOULDBLOCK or EAGAIN.
    abbrev pub go_on : Next → (Srv → Run Next) → Run Next
    go_on (returns server) rest = ok (returns server)
    go_on (breaks server) rest = ok (breaks server)
    go_on (continues server) rest = rest server

    unfoldable pub recv_loop : ℤ → ℕ → List (Resources × Datagram) → Bool → Srv → Run Next
    unfolding on_datagram
    recv_loop sock fuel [] would_block server =
        ok (if would_block then breaks server else returns server)
    recv_loop sock fuel ((res, d) ∷ rest) would_block server =
        on_datagram res sock fuel d server >>= λ r. go_on r (recv_loop sock fuel rest would_block)

    -- After a break every connection is flushed.
    abbrev pub after_recv : Socket → ℕ → Next → Run Srv
    after_recv socket fuel (returns server) = ok server
    after_recv socket fuel (breaks server) =
        flush_each socket fuel (connections_iter Hs (λ c. c.cid) h (server.head)) server
    after_recv socket fuel (continues server) =
        flush_each socket fuel (connections_iter Hs (λ c. c.cid) h (server.head)) server

    unfoldable pub http3_event_cb :
        Socket → ℤ → ℕ → List (Resources × Datagram) → Bool → Srv → Run Srv
    unfolding recv_loop flush_each connections_iter
    http3_event_cb socket sock fuel datagrams would_block server =
        recv_loop sock fuel datagrams would_block server >>= λ r. after_recv socket fuel r
