-- ===== src/Quic/Admitted.antt =====
-- Address validation of a new connection, in `http3_event_cb` of main/http3/event_cb.c.
use gfhttpd.Base.{
  ◌≡◌, Bool, not, Option, none, some, ◌++◌, Ensures, bind-Ensures-all, Bytes, if-cases, ℤ,
  Option-cases, inl, inr, take, length, ◌==◌,
}
use gfhttpd.Routes.Interfaces.{HashTable}
use gfhttpd.Token.{prefix, mint_token, validate_token}
use gfhttpd.Token.Laws.{validate_token_iff}
use gfhttpd.Connections.{local_conn_id_len, get_connection, add_connection}
use gfhttpd.Quic.Api.{Transport, PacketHeader, max_conn_id_len}
use gfhttpd.Quic.{Connection}
use gfhttpd.Quic.Accept.{
  Resources, Server, Found, returned, found, find_connection, reply, stateless_retry,
  new_connection, register, registered, create_conn, version_negotiation, max_token_len,
}
use gfhttpd.Quic.Trust.{IsTrusted, add-IsTrusted}

module _ (t : Transport) (H : Type 0) (insert_header : Bytes → Bytes → H → H) (empty : H)
    (h : HashTable (Connection t H insert_header)) (V : Bytes → Type 0) where
  abbrev C : Type 0
  C = Connection t H insert_header

  abbrev S : Type 0
  S = Server t H insert_header empty h

  abbrev IsGood : S → Type 0
  IsGood server = IsTrusted t H insert_header empty h V (server.head)

  abbrev pub IsGoodFound : Found t H insert_header empty h → Type 0
  IsGoodFound (returned server) = IsGood server
  IsGoodFound (found hs server) = IsGood server × V (hs.peer_addr)

  reply-IsGoodFound :
      (addr : Bytes) (written : Option Bytes) (server : S)
      → IsGood server
      → IsGoodFound (reply t H insert_header empty h addr written server)
  reply-IsGoodFound addr none server i = i
  reply-IsGoodFound addr (some written) server i = i

  register-IsGoodFound :
      (timer : Bool) (addr : Bytes) (hs : C) (server : S)
      → IsGood server
      → V addr
      → Ensures IsGoodFound (register t H insert_header empty h timer addr hs server)
  unfolding register add_connection get_connection
  register-IsGoodFound timer addr hs server i v =
      if-cases (Ensures IsGoodFound) (not timer) (λ _. tt)
        (λ _. elim (Option-cases (h.find (take local_conn_id_len (hs.cid)) (server.head))) [
          | inl unknown ↦
              rw (unknown, Ensures)
                (add-IsTrusted t H insert_header empty h V _ _ (server.head) i unknown v, v)
          | inr (a, known) ↦ rw (known, Ensures) tt
        ])

  created_IsGoodFound :
      (timer : Bool) (addr : Bytes) (made : Option C) (server : S)
      → IsGood server
      → V addr
      → Ensures IsGoodFound (registered t H insert_header empty h timer addr server made)
  created_IsGoodFound timer addr none server i v = i
  created_IsGoodFound timer addr (some hs) server i v =
      register-IsGoodFound timer addr hs server i v

  -- `V` holds of an address for which the token of a header is valid.
  abbrev pub IsShown : Bytes → PacketHeader → Type 0
  IsShown addr header = (odcid : Bytes) → header.token ≡ prefix ++ (addr ++ odcid) → V addr

  new_connection-IsGoodFound :
      (res : Resources) (sock : ℤ) (addr : Bytes) (header : PacketHeader) (server : S)
      → IsGood server
      → IsShown addr header
      → Ensures IsGoodFound (new_connection t H insert_header empty h res sock addr header server)
  unfolding new_connection
  new_connection-IsGoodFound res sock addr header server i v =
      elim (Option-cases (validate_token (header.token) addr max_conn_id_len)) [
        | inl refused ↦ rw (refused, Ensures) i
        | inr (odcid, valid) ↦
            (let shown = (validate_token_iff (header.token) addr odcid max_conn_id_len).0 valid in
              rw (valid, Ensures)
                (bind-Ensures-all IsGoodFound (create_conn t H insert_header empty res sock odcid)
                  (registered t H insert_header empty h (res.timer) addr server)
                  (λ made. created_IsGoodFound (res.timer) addr made server i (v odcid (shown.0)))))
      ]

  pub find_connection-IsGoodFound :
      (res : Resources) (sock : ℤ) (addr : Bytes) (header : PacketHeader) (server : S)
      → IsGood server
      → IsShown addr header
      → Ensures IsGoodFound (find_connection t H insert_header empty h res sock addr header server)
  unfolding find_connection get_connection version_negotiation stateless_retry
  find_connection-IsGoodFound res sock addr header server i v =
      elim (Option-cases
        (h.find (take local_conn_id_len (header.dcid ++ header.dcid_rest)) (server.head))) [
          | inr (hs, known) ↦ rw (known, Ensures) (i, i.peers _ hs known)
          | inl unknown ↦
              rw (unknown, Ensures)
                (if-cases (Ensures IsGoodFound) (not (t.version_is_supported (header.version)))
                  (λ _. reply-IsGoodFound addr _ server i)
                  (λ _.
                    if-cases (Ensures IsGoodFound) (length (header.token) == 0)
                      (λ _.
                        bind-Ensures-all IsGoodFound (mint_token max_token_len (header.dcid) addr) _
                          (λ token. reply-IsGoodFound addr _ server i))
                      (λ _. new_connection-IsGoodFound res sock addr header server i v)))
        ]
