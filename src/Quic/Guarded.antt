-- ===== src/Quic/Guarded.antt =====
-- What `Trust` says of the table is kept by the removal and the flush of connections, by the loop
-- at the end of `http3_event_cb` of main/http3/event_cb.c, and by `timeout_cb`.
use gfhttpd.Base.{
  ℕ, ◌≡◌, refl, sym, not, Option, none, some, List, [], ◌∷◌, ◌++◌, Ensures, bind-Ensures,
  bind-Ensures-all, Bytes, if-cases, Option-cases, inl, inr, take, All,
}
use mathlib.Core.Path.{subst}
use gfhttpd.Routes.Interfaces.{HashTable}
use gfhttpd.Timer.{Timeval, set_timeout}
use gfhttpd.Connections.{local_conn_id_len, get_connection, delete_connection}
use gfhttpd.Quic.Api.{Transport}
use gfhttpd.Quic.{Socket, Connection, Flush, flush_loop, after_loop, with_timer, flush_egress}
use gfhttpd.Quic.Accept.{Server}
use gfhttpd.Quic.Events.{http3_connection_cleanup, retire, flush_connection, timeout_cb, flush_each}
use gfhttpd.Quic.Trust.{IsTrusted, delete-IsTrusted, store_back-IsTrusted}

module _ (t : Transport) (H : Type 0) (insert_header : Bytes → Bytes → H → H) (empty : H)
    (h : HashTable (Connection t H insert_header)) (V : Bytes → Type 0) where
  abbrev C : Type 0
  C = Connection t H insert_header

  abbrev S : Type 0
  S = Server t H insert_header empty h

  abbrev IsGood : S → Type 0
  IsGood server = IsTrusted t H insert_header empty h V (server.head)

  cleanup-IsTrusted :
      (hs : C) (server : S)
      → IsGood server
      → Ensures IsGood (http3_connection_cleanup t H insert_header empty h hs server)
  unfolding http3_connection_cleanup
  cleanup-IsTrusted hs server i = if-cases (Ensures IsGood) (not (hs.timeout_ev)) (λ _. tt) (λ _. i)

  pub retire-IsTrusted :
      (hs : C) (server : S)
      → IsGood server
      → Ensures IsGood (retire t H insert_header empty h hs server)
  unfolding retire delete_connection get_connection
  retire-IsTrusted hs server i =
      elim (Option-cases (h.find (take local_conn_id_len (hs.cid)) (server.head))) [
        | inl unknown ↦ rw (unknown, Ensures) tt
        | inr (a, known) ↦
            rw (known, Ensures)
              (cleanup-IsTrusted hs _
                (delete-IsTrusted t H insert_header empty h V _ a (server.head) i known))
      ]

  -- A connection with the peer of another.
  abbrev IsSamePeer : C → C → Type 0
  IsSamePeer hs hs' = hs'.peer_addr ≡ hs.peer_addr

  with_timer-IsSamePeer :
      (hs hs' : C) (timer : Option Timeval)
      → IsSamePeer hs hs'
      → IsSamePeer hs (with_timer t H insert_header hs' timer)
  with_timer-IsSamePeer hs hs' none same = same
  with_timer-IsSamePeer hs hs' (some tv) same = same

  after_loop-IsSamePeer :
      (hs : C) (flush : Flush t)
      → Ensures (λ r. IsSamePeer hs r.0) (after_loop t H insert_header hs flush)
  unfolding after_loop
  after_loop-IsSamePeer hs flush =
      if-cases (Ensures (λ r. IsSamePeer hs r.0)) (flush.finished)
        (λ _.
          bind-Ensures-all (λ r. IsSamePeer hs r.0) (set_timeout _ _) _
            (λ timer. with_timer-IsSamePeer hs record hs { conn = flush.conn } timer refl))
        (λ _. refl)

  flush_egress-IsSamePeer :
      (socket : Socket) (fuel : ℕ) (hs : C)
      → Ensures (λ r. IsSamePeer hs r.0) (flush_egress t H insert_header socket fuel hs)
  unfolding flush_egress
  flush_egress-IsSamePeer socket fuel hs =
      bind-Ensures-all (λ r. IsSamePeer hs r.0) (flush_loop t socket fuel _ _ []) _
        (λ flush. after_loop-IsSamePeer hs flush)

  pub flush_connection-IsTrusted :
      (socket : Socket) (fuel : ℕ) (hs : C) (server : S)
      → IsGood server
      → V (hs.peer_addr)
      → Ensures IsGood (flush_connection t H insert_header empty h socket fuel hs server)
  unfolding flush_connection
  flush_connection-IsTrusted socket fuel hs server i v =
      bind-Ensures (λ r. IsSamePeer hs r.0) IsGood (flush_egress t H insert_header socket fuel hs) _
        (flush_egress-IsSamePeer socket fuel hs)
        (λ (hs', sent) same.
          let i' =
            store_back-IsTrusted t H insert_header empty h V hs'
              record server { out = server.out ++ sent } i (subst V (sym same) v) in
          if-cases (Ensures IsGood) (t.is_closed (hs'.conn)) (λ _. retire-IsTrusted hs' _ i')
            (λ _. i'))

  -- Each connection of a list has such a peer, as those of the table have.
  pub flush_each-IsTrusted :
      (socket : Socket) (fuel : ℕ) (items : List (Bytes × C)) (server : S)
      → IsGood server
      → All (λ e. V (e.1.peer_addr)) items
      → Ensures IsGood (flush_each t H insert_header empty h socket fuel items server)
  unfolding flush_each
  flush_each-IsTrusted socket fuel [] server i v = i
  flush_each-IsTrusted socket fuel ((id, hs) ∷ rest) server i (v, vs) =
      bind-Ensures IsGood IsGood (flush_connection t H insert_header empty h socket fuel hs server)
        _ (flush_connection-IsTrusted socket fuel hs server i v)
        (λ server' i'. flush_each-IsTrusted socket fuel rest server' i' vs)

  -- `timeout_cb` keeps the table so, for a connection with such a peer.
  pub timeout_cb-IsTrusted :
      (socket : Socket) (fuel : ℕ) (hs : C) (server : S)
      → IsGood server
      → V (hs.peer_addr)
      → Ensures IsGood (timeout_cb t H insert_header empty h socket fuel hs server)
  unfolding timeout_cb
  timeout_cb-IsTrusted socket fuel hs server i v =
      flush_connection-IsTrusted socket fuel record hs { conn = t.on_timeout (hs.conn) } server i v
