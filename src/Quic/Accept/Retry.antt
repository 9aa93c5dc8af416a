-- ===== src/Quic/Accept/Retry.antt =====
-- The two halves of address validation in main/http3/event_cb.c: the token of a stateless retry is
-- accepted when the client comes back with it.
use gfhttpd.Base.{
  ◌+◌, ◌≤◌, ◌≡◌, ap, Bool, true, false, none, some, [], ◌++◌, ok, Bytes, bytes, length,
  length-append, take, leb, ◌==◌, ℤ, pos, is_negative, arith,
}
use gfhttpd.Routes.Interfaces.{HashTable}
use gfhttpd.Token.{prefix, mint_token, validate_token}
use gfhttpd.Token.Laws.{validate_token_iff}
use gfhttpd.Connections.{local_conn_id_len, get_connection, add_connection}
use gfhttpd.Http2.{no_stream}
use gfhttpd.Quic.Api.{Transport, PacketHeader, max_conn_id_len}
use gfhttpd.Quic.{Connection}
use gfhttpd.Quic.Accept.{
  max_token_len, Resources, Server, found, new_cid, no_request, create_conn, reply, stateless_retry,
  register, new_connection, find_connection,
}

-- The system gives all that `create_conn` and `register` ask for.
pub record IsAble (res : Resources) (random : Bytes) : Type 0 where
  pub has_pool : res.pool ≡ true
  pub has_stream : res.stream ≡ true
  pub has_params : res.params ≡ true
  pub opened : is_negative (res.rng) ≡ false
  pub has_random : res.random ≡ some random
  pub has_timer : res.timer ≡ true

-- The token of a retry.
abbrev pub retry_token : Bytes → PacketHeader → Bytes
retry_token addr header = prefix ++ (addr ++ header.dcid)

minted :
    (addr dcid : Bytes)
    → length addr ≤ 128
    → length dcid ≤ max_conn_id_len
    → mint_token max_token_len dcid addr ≡ ok (prefix ++ (addr ++ dcid))
unfolding mint_token
minted addr dcid a d =
    let fits : leb (length prefix + length addr + length dcid) max_token_len ≡ true =
      ground arith in
    rw fits

module _ (t : Transport) (H : Type 0) (insert_header : Bytes → Bytes → H → H) (empty : H)
    (h : HashTable (Connection t H insert_header)) where
  -- A header of a supported version whose connection id is not in the table.
  pub record IsUnknown (server : Server t H insert_header empty h) (header : PacketHeader)
      : Type 0 where
    pub missing :
        get_connection
          (Connection t H insert_header)
          (λ c. c.cid)
          h
          (header.dcid ++ header.dcid_rest)
          (server.head)
        ≡ none
    pub supported : t.version_is_supported (header.version) ≡ true

  -- The connection that is made of random bytes for an address.
  abbrev pub made : ℤ → Bytes → Bytes → t.Conn → Connection t H insert_header
  made sock addr random conn = record {
    cid = new_cid t H insert_header empty random;
    conn = conn;
    http3 = none;
    sock = sock;
    timeout_ev = true;
    timer = some record { tv_sec = pos 0; tv_usec = 0 };
    peer_addr = addr;
    request = no_request t H insert_header empty;
    response = record no_stream { http_status = some (bytes "200") };
    response_headers = empty;
    headers_sent = false;
  }

  create_conn-made :
      (res : Resources) (sock : ℤ) (odcid random : Bytes) (conn : t.Conn)
      → IsAble res random
      → t.accept (new_cid t H insert_header empty random) odcid ≡ some conn
      → create_conn t H insert_header empty res sock odcid
        ≡ ok (some record (made sock [] random conn) { timeout_ev = false; timer = none })
  unfolding create_conn
  create_conn-made res sock odcid random conn able accepted =
      rw (able.has_pool, able.has_stream, able.opened, create_conn)
        (rw (able.has_random) (rw (able.has_params) (rw accepted)))

  register-made :
      (timer : Bool) (sock : ℤ) (addr random : Bytes) (conn : t.Conn)
      (server : Server t H insert_header empty h)
      → timer ≡ true
      → h.find (take local_conn_id_len (new_cid t H insert_header empty random)) (server.head)
        ≡ none
      → register t H insert_header empty h timer addr
          record (made sock [] random conn) { timeout_ev = false; timer = none }
          server
        ≡ ok (
            found (made sock addr random conn) record server {
              head =
                  h.add
                    (take local_conn_id_len (new_cid t H insert_header empty random))
                    (made sock addr random conn)
                    (server.head);
            })
  unfolding register add_connection get_connection
  register-made timer sock addr random conn server on fresh =
      rw (on, register) (rw (fresh, add_connection))

  new_connection-made :
      (res : Resources) (sock : ℤ) (addr odcid random : Bytes) (header : PacketHeader)
      (server : Server t H insert_header empty h) (conn : t.Conn)
      → validate_token (header.token) addr max_conn_id_len ≡ some odcid
      → IsAble res random
      → t.accept (new_cid t H insert_header empty random) odcid ≡ some conn
      → h.find (take local_conn_id_len (new_cid t H insert_header empty random)) (server.head)
        ≡ none
      → new_connection t H insert_header empty h res sock addr header server
        ≡ ok (
            found (made sock addr random conn) record server {
              head =
                  h.add
                    (take local_conn_id_len (new_cid t H insert_header empty random))
                    (made sock addr random conn)
                    (server.head);
            })
  unfolding new_connection
  new_connection-made res sock addr odcid random header server conn valid able accepted fresh =
      rw (valid, new_connection)
        (rw (create_conn-made res sock odcid random conn able accepted)
          (register-made (res.timer) sock addr random conn server (able.has_timer) fresh))

  -- A client whose packet has no token gets a retry with a token for its address and the id that
  -- it used. If it comes back from that address with that token, under any id that is not in the
  -- table, it gets a connection that quiche accepts for its first id, and the table has it. The
  -- versions are supported, the address fits `struct sockaddr_storage`, the system gives what is
  -- asked for, and the random id is new.
  pub find_connection-retry :
      (res res' : Resources) (sock : ℤ) (addr payload random : Bytes)
      (header header' : PacketHeader) (server server' : Server t H insert_header empty h)
      (conn : t.Conn)
      → length addr ≤ 128
      → t.header_info payload ≡ some header
      → header.token ≡ []
      → IsUnknown server header
      → header'.token ≡ retry_token addr header
      → IsUnknown server' header'
      → IsAble res' random
      → t.accept (new_cid t H insert_header empty random) (header.dcid) ≡ some conn
      → h.find (take local_conn_id_len (new_cid t H insert_header empty random)) (server'.head)
        ≡ none
      → (find_connection t H insert_header empty h res sock addr header server
          ≡ ok (
              reply t H insert_header empty h addr
                (t.retry (header.scid) (header.dcid) (header.dcid) (retry_token addr header))
                server))
        × (find_connection t H insert_header empty h res' sock addr header' server'
            ≡ ok (
                found (made sock addr random conn) record server' {
                  head =
                      h.add
                        (take local_conn_id_len (new_cid t H insert_header empty random))
                        (made sock addr random conn)
                        (server'.head);
                }))
  unfolding find_connection stateless_retry
  find_connection-retry res res' sock addr payload random header header' server server' conn short
        parsed no_token unknown token unknown' able accepted fresh =
      let d = t.dcid_fits payload header parsed in
      let valid =
        (validate_token_iff (header'.token) addr (header.dcid) max_conn_id_len).1 (token, d) in
      let long : (length (header'.token) == 0) ≡ false =
        ground (arith, length-append prefix (addr ++ header.dcid), ap length token) in
      (
        rw (unknown.missing, find_connection)
            (rw (unknown.supported) (rw no_token (rw (minted addr (header.dcid) short d)))),
        rw (unknown'.missing, find_connection)
            (rw (unknown'.supported) (
              rw long (
                new_connection-made res' sock addr (header.dcid) random header' server' conn valid
                  able accepted fresh))),
      )
