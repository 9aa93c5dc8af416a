-- ===== src/Quic/Accept.antt =====
-- The first part of `http3_event_cb` of main/http3/event_cb.c: the connection that a datagram
-- belongs to, after version negotiation, address validation and `create_conn`.
pub mod Retry
use gfhttpd.Base.{
  ℕ, ◌+◌, zero, suc, Bool, true, false, not, Option, none, some, List, [], ◌∷◌, ◌++◌, Run, ok,
  fault, abort, ◌>>=◌, Bytes, bytes, length, take, replicate, ◌==◌, if◌then◌else◌, ℤ, pos,
  is_negative,
}
use gfhttpd.Timer.{Timeval}
use gfhttpd.Token.{prefix, mint_token, validate_token}
use gfhttpd.Routes.Interfaces.{HashTable}
use gfhttpd.Connections.{local_conn_id_len, get_connection, add_connection}
use gfhttpd.Http2.{no_stream}
use gfhttpd.Http3.{Request}
use gfhttpd.Router.Calls.{Call}
use gfhttpd.Router.{Stream}
use gfhttpd.Body.{Write}
use gfhttpd.Quic.Api.{Transport, PacketHeader, max_conn_id_len}
use gfhttpd.Quic.{Datagram, Socket, Connection, transmitted}

-- MAX_TOKEN_LEN, with `sizeof(struct sockaddr_storage)`
abbrev pub max_token_len : ℕ
max_token_len = length prefix + 128 + max_conn_id_len

-- A `struct future_write` with its stream and its file.
pub record Pending : Type 0 where
  pub stream_id : ℕ
  pub fd : ℤ
  pub write : Write

-- What the system answers to `create_conn` and to the making of the timer: whether there is
-- memory, the result of `open`, and what `read` gives of /dev/urandom.
pub record Resources : Type 0 where
  pub pool : Bool
  pub stream : Bool
  pub params : Bool
  pub rng : ℤ
  pub random : Option Bytes
  pub timer : Bool

module _ (t : Transport) (H : Type 0) (insert_header : Bytes → Bytes → H → H) (empty : H) where
  -- A request with all fields NULL.
  abbrev pub no_request : Request H insert_header
  no_request = record {
    url = none;
    method = none;
    scheme = none;
    authority = none;
    headers = empty;
  }

  -- The bytes of `cid` behind what was read are zero, as `mp_calloc` left them.
  abbrev pub new_cid : Bytes → Bytes
  new_cid random = take local_conn_id_len (random ++ replicate local_conn_id_len 0)

  -- `none` stands for NULL; `conn` is what `quiche_accept` returns.
  unfoldable pub create_conn : Resources → ℤ → Bytes → Run (Option (Connection t H insert_header))
  create_conn res sock odcid =
      if not (res.pool)
      then abort
      else if not (res.stream)
      then ok none
      else if is_negative (res.rng)
      then ok none
      else elim (res.random) [
        | none ↦ ok none
        | some random ↦ if not (res.params) then fault else elim (t.accept (new_cid random) odcid) [
          | none ↦ ok none
          | some conn ↦ ok (
              some record {
                cid = new_cid random;
                conn = conn;
                http3 = none;
                sock = sock;
                timeout_ev = false;
                timer = none;
                peer_addr = [];
                request = no_request;
                response = record no_stream { http_status = some (bytes "200") };
                response_headers = empty;
                headers_sent = false;
              })
        ]
      ]

  module _ (h : HashTable (Connection t H insert_header)) where
    -- The table of connections, the datagrams passed to the socket, the responses scheduled, the
    -- calls of the router, and the ids of the connections that were cleaned up.
    pub record Server : Type 0 where
      pub head : h.Table
      pub out : List Datagram
      pub writes : List Pending
      pub calls : List Call
      pub cleaned : List Bytes

    -- How the first part ends: with a return of `http3_event_cb`, or with a connection.
    pub data Found : Type 0 where
      returned : Server → Found
      found : Connection t H insert_header → Server → Found

    -- The packet that answers, if there is one, is passed to the socket, by `sendto` or else by
    -- `send`; whether it goes out is only logged.
    abbrev pub reply : Bytes → Option Bytes → Server → Found
    reply addr none server = returned server
    reply addr (some written) server =
        returned
          record server { out = server.out ++ record { addr = addr; payload = written } ∷ [] }

    unfoldable pub version_negotiation : Bytes → PacketHeader → Server → Found
    version_negotiation addr header server =
        reply addr (t.negotiate_version (header.scid) (header.dcid)) server

    unfoldable pub stateless_retry : Bytes → PacketHeader → Server → Run Found
    stateless_retry addr header server = mint_token max_token_len (header.dcid) addr >>= λ token.
        ok (reply addr (t.retry (header.scid) (header.dcid) (header.dcid) token) server)

    -- The timer event, the table, and the peer's address of a new connection. The address is set
    -- through the pointer that the table holds.
    unfoldable pub register : Bool → Bytes → Connection t H insert_header → Server → Run Found
    register timer addr hs server =
        if not timer
        then abort
        else (let hs' : Connection t H insert_header = record hs {
          timeout_ev = true;
          timer = some record { tv_sec = pos 0; tv_usec = 0 };
          peer_addr = addr;
        } in
            add_connection (Connection t H insert_header) (λ c. c.cid) h hs' (server.head)
            >>= λ head. ok (found hs' record server { head = head }))

    -- What follows `create_conn`.
    abbrev pub registered :
        Bool → Bytes → Server → Option (Connection t H insert_header) → Run Found
    registered timer addr server none = ok (returned server)
    registered timer addr server (some hs) = register timer addr hs server

    unfoldable pub new_connection : Resources → ℤ → Bytes → PacketHeader → Server → Run Found
    unfolding register create_conn
    new_connection res sock addr header server =
        elim (validate_token (header.token) addr max_conn_id_len) [
          | none ↦ ok (returned server)
          | some odcid ↦ create_conn res sock odcid >>= registered (res.timer) addr server
        ]

    -- The connection of a header from an address.
    unfoldable pub find_connection : Resources → ℤ → Bytes → PacketHeader → Server → Run Found
    find_connection res sock addr header server =
        elim (get_connection (Connection t H insert_header) (λ c. c.cid) h
          (header.dcid ++ header.dcid_rest) (server.head)) [
            | some hs ↦ ok (found hs server)
            | none ↦
                if not (t.version_is_supported (header.version))
                then ok (version_negotiation addr header server)
                else if length (header.token) == 0
                then stateless_retry addr header server
                else new_connection res sock addr header server
          ]
