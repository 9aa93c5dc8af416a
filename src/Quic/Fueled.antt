-- ===== src/Quic/Fueled.antt =====
-- The search for the connection of a datagram, the removal of a connection and the flush of
-- every connection, of main/http3, are not cut off.
use gfhttpd.Base.{
  ℕ, Bool, not, Option, none, some, List, [], ◌∷◌, ◌++◌, IsFueled, fueled_rules, if-cases, Bytes,
  Option-cases, inl, inr, ℤ, is_negative,
}
use gfhttpd.Routes.Interfaces.{HashTable}
use gfhttpd.Token.{mint_token, validate_token}
use gfhttpd.Connections.{get_connection, add_connection, delete_connection}
use gfhttpd.Quic.Api.{Transport, PacketHeader, max_conn_id_len}
use gfhttpd.Quic.{Socket, Connection}
use gfhttpd.Quic.Accept.{
  Resources, Server, new_cid, create_conn, stateless_retry, register, registered, new_connection,
  find_connection,
}
use gfhttpd.Quic.Events.{http3_connection_cleanup, retire, flush_connection, flush_each}
use gfhttpd.Quic.Bounded.{IsBound, flush_egress-IsFueled}

module _ (t : Transport) (H : Type 0) (insert_header : Bytes → Bytes → H → H) (empty : H)
    (h : HashTable (Connection t H insert_header)) where
  abbrev C : Type 0
  C = Connection t H insert_header

  abbrev S : Type 0
  S = Server t H insert_header empty h

  pub retire-IsFueled :
      (hs : C) (server : S) → IsFueled (retire t H insert_header empty h hs server)
  unfolding retire delete_connection http3_connection_cleanup
  retire-IsFueled hs server =
      elim (Option-cases (get_connection C (λ c. c.cid) h (hs.cid) (server.head))) [
        | inl unknown ↦ rw (unknown, IsFueled) tt
        | inr (a, known) ↦ rw (known, IsFueled) (search fueled_rules)
      ]

  module _ (fuel : ℕ) (b : IsBound t fuel) where
    flush_connection-IsFueled :
        (socket : Socket) (hs : C) (server : S)
        → IsFueled (flush_connection t H insert_header empty h socket fuel hs server)
    unfolding flush_connection
    flush_connection-IsFueled socket hs server =
        search (fueled_rules, flush_egress-IsFueled, retire-IsFueled, b.sends)

    pub flush_each-IsFueled :
        (socket : Socket) (items : List (Bytes × C)) (server : S)
        → IsFueled (flush_each t H insert_header empty h socket fuel items server)
    unfolding flush_each
    flush_each-IsFueled socket [] server = tt
    flush_each-IsFueled socket ((id, hs) ∷ rest) server =
        search (fueled_rules, flush_connection-IsFueled, flush_each-IsFueled socket rest)

  create_conn-IsFueled :
      (res : Resources) (sock : ℤ) (odcid : Bytes)
      → IsFueled (create_conn t H insert_header empty res sock odcid)
  unfolding create_conn
  create_conn-IsFueled res sock odcid =
      if-cases IsFueled (not (res.pool)) (λ _. tt)
        (λ _.
          if-cases IsFueled (not (res.stream)) (λ _. tt)
            (λ _.
              if-cases IsFueled (is_negative (res.rng)) (λ _. tt)
                (λ _. elim (Option-cases (res.random)) [
                  | inl missing ↦ rw (missing, IsFueled) tt
                  | inr (random, read) ↦
                      elim (Option-cases
                        (t.accept (new_cid t H insert_header empty random) odcid)) [
                          | inl none' ↦
                              rw (read, none', IsFueled)
                                (if-cases IsFueled (not (res.params)) (λ _. tt) (λ _. tt))
                          | inr (conn, some') ↦
                              rw (read, some', IsFueled)
                                (if-cases IsFueled (not (res.params)) (λ _. tt) (λ _. tt))
                        ]
                ])))

  add_connection-IsFueled :
      (hs : C) (head : h.Table) → IsFueled (add_connection C (λ c. c.cid) h hs head)
  unfolding add_connection
  add_connection-IsFueled hs head =
      elim (Option-cases (get_connection C (λ c. c.cid) h (hs.cid) head)) [
        | inl unknown ↦ rw (unknown, IsFueled) tt
        | inr (a, known) ↦ rw (known, IsFueled) tt
      ]

  registered-IsFueled :
      (timer : Bool) (addr : Bytes) (server : S) (made : Option C)
      → IsFueled (registered t H insert_header empty h timer addr server made)
  unfolding register
  registered-IsFueled timer addr server none = tt
  registered-IsFueled timer addr server (some hs) = search (fueled_rules, add_connection-IsFueled)

  new_connection-IsFueled :
      (res : Resources) (sock : ℤ) (addr : Bytes) (header : PacketHeader) (server : S)
      → IsFueled (new_connection t H insert_header empty h res sock addr header server)
  unfolding new_connection
  new_connection-IsFueled res sock addr header server =
      elim (Option-cases (validate_token (header.token) addr max_conn_id_len)) [
        | inl no' ↦ rw (no', IsFueled) tt
        | inr (odcid, valid) ↦
            rw (valid, IsFueled) (search (fueled_rules, create_conn-IsFueled, registered-IsFueled))
      ]

  mint_token-IsFueled : (size : ℕ) (dcid addr : Bytes) → IsFueled (mint_token size dcid addr)
  unfolding mint_token
  mint_token-IsFueled size dcid addr = search fueled_rules

  pub find_connection-IsFueled :
      (res : Resources) (sock : ℤ) (addr : Bytes) (header : PacketHeader) (server : S)
      → IsFueled (find_connection t H insert_header empty h res sock addr header server)
  unfolding find_connection stateless_retry
  find_connection-IsFueled res sock addr header server =
      elim (Option-cases
        (get_connection C (λ c. c.cid) h (header.dcid ++ header.dcid_rest) (server.head))) [
          | inr (hs, known) ↦ rw (known, IsFueled) tt
          | inl unknown ↦
              rw (unknown, IsFueled)
                (search (fueled_rules, mint_token-IsFueled, new_connection-IsFueled))
        ]
