-- ===== src/Quic.antt =====
-- The QUIC connections of main/http3: the stream that stands for one, and `flush_egress` of
-- main/http3/http3.c.
pub mod Api
pub mod Accept
pub mod Events
pub mod Flushed
pub mod Trust
pub mod Guarded
pub mod Polled
pub mod Bounded
pub mod Fueled
pub mod Returning
pub mod Admitted
pub mod Validated
pub mod Counting
mod Examples
use Api.{Transport, Output, drained, failed, packet}
use gfhttpd.Base.{
  ℕ, zero, suc, Bool, true, false, ◌&&◌, Option, none, some, List, [], ◌∷◌, ◌++◌, Run, ok,
  out_of_fuel, ◌>>=◌, Bytes, length, if◌then◌else◌, ℤ, is_int,
}
use gfhttpd.Timer.{Timeval, set_timeout}
use gfhttpd.Http2.{is_minus_one}
use gfhttpd.Http3.{Request}
use gfhttpd.Router.{Stream}

-- A datagram: the peer's address and the bytes.
pub record Datagram : Type 0 where
  pub addr : Bytes
  pub payload : Bytes

-- What the system answers to `sendto`, whether `errno` is then EISCONN, and what it answers to
-- `send`.
pub record Socket : Type 0 where
  pub sendto : Datagram → ℤ
  pub is_connected : Bool
  pub send : Bytes → ℤ

-- `sent != written` is false: the datagram went out whole, by `sendto` or else by `send`.
unfoldable pub transmitted : Socket → Datagram → Bool
transmitted socket d =
    let sent = socket.sendto d in
    is_int (if is_minus_one sent && socket.is_connected then socket.send (d.payload) else sent)
      (length (d.payload))

-- The loop of `flush_egress`: the connection, the datagrams passed to the socket, and whether
-- quiche had nothing more to send.
pub record Flush (t : Transport) : Type 0 where
  pub conn : t.Conn
  pub out : List Datagram
  pub finished : Bool

module _ (t : Transport) (socket : Socket) where
  unfoldable pub flush_loop : ℕ → Bytes → t.Conn → List Datagram → Run (Flush t)
  flush_loop zero addr conn out = out_of_fuel
  flush_loop (suc fuel) addr conn out =
      let (output, conn') = t.send conn in
      elim output [
        | drained ↦ ok record { conn = conn'; out = out; finished = true }
        | failed ↦ ok record { conn = conn'; out = out; finished = false }
        | packet payload ↦
            (let d : Datagram = record { addr = addr; payload = payload } in
              let rest = flush_loop fuel addr conn' (out ++ d ∷ []) in
              if transmitted socket d
              then rest
              else ok record { conn = conn'; out = out ++ d ∷ []; finished = false })
      ]

-- A `struct http_stream` of HTTP/3, with its `http3_params`. `timer` is the time for which
-- `timeout_ev` is scheduled, and `H` a table of headers.
pub record Connection (t : Transport) (H : Type 0) (insert_header : Bytes → Bytes → H → H)
    : Type 0 where
  pub cid : Bytes
  pub conn : t.Conn
  pub http3 : Option t.H3
  pub sock : ℤ
  pub timeout_ev : Bool
  pub timer : Option Timeval
  pub peer_addr : Bytes
  pub request : Request H insert_header
  pub response : Stream
  pub response_headers : H
  pub headers_sent : Bool

module _ (t : Transport) (H : Type 0) (insert_header : Bytes → Bytes → H → H) where
  abbrev pub Hs : Type 0
  Hs = Connection t H insert_header

  -- `timer` where `set_timeout` schedules one.
  abbrev pub with_timer : Hs → Option Timeval → Hs
  with_timer hs none = hs
  with_timer hs (some tv) = record hs { timer = some tv }

  -- After the loop, unless it gave up, the timer of the connection.
  unfoldable pub after_loop : Hs → Flush t → Run (Hs × List Datagram)
  after_loop hs flush =
      let hs' : Hs = record hs { conn = flush.conn } in
      if flush.finished
      then (set_timeout (hs.timeout_ev) (t.timeout_as_nanos (flush.conn)) >>= λ timer.
          ok (with_timer hs' timer, flush.out))
      else ok (hs', flush.out)

  -- The connection after the call, and the datagrams passed to the socket.
  unfoldable pub flush_egress : Socket → ℕ → Hs → Run (Hs × List Datagram)
  unfolding after_loop
  flush_egress socket fuel hs =
      flush_loop t socket fuel (hs.peer_addr) (hs.conn) [] >>= λ flush. after_loop hs flush
