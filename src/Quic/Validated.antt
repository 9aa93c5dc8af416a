-- ===== src/Quic/Validated.antt =====
-- Address validation over a whole call of `http3_event_cb` of main/http3/event_cb.c.
use gfhttpd.Base.{
  ℕ, ◌≡◌, refl, Bool, true, false, some, List, [], ◌∷◌, Run, IsFueled, Ensures, bind-Ensures, Bytes,
  ℤ, Option-cases, inl, inr, All,
}
use gfhttpd.Routes.Interfaces.{HashTable, Pcre2}
use gfhttpd.Routes.{Route}
use gfhttpd.Router.Calls.{System}
use gfhttpd.Connections.{connections_iter}
use gfhttpd.Connections.Distinct.{All_of_find}
use gfhttpd.Http3.Quiche.{HeaderEvents}
use gfhttpd.Quic.Api.{Transport, PacketHeader}
use gfhttpd.Quic.{Datagram, Socket, Connection}
use gfhttpd.Quic.Accept.{Resources, Server, Found, returned, found, find_connection}
use gfhttpd.Quic.Events.{
  Next, returns, breaks, continues, received, go_on, on_datagram, recv_loop, http3_event_cb,
  after_recv,
}
use gfhttpd.Quic.Trust.{IsTrusted}
use gfhttpd.Quic.Admitted.{IsGoodFound, IsShown, find_connection-IsGoodFound}
use gfhttpd.Quic.Bounded.{IsBound}
use gfhttpd.Quic.Returning.{http3_event_cb-IsFueled}
use gfhttpd.Quic.Guarded.{flush_each-IsTrusted}
use gfhttpd.Quic.Polled.{IsGoodNext, receive-IsTrusted}

module _ (t : Transport) (H : Type 0) (insert_header : Bytes → Bytes → H → H) (empty : H)
    (h : HashTable (Connection t H insert_header)) (V : Bytes → Type 0) where
  abbrev C : Type 0
  C = Connection t H insert_header

  abbrev S : Type 0
  S = Server t H insert_header empty h

  abbrev pub IsGood : S → Type 0
  IsGood server = IsTrusted t H insert_header empty h V (server.head)

  -- `V` holds of the address of each datagram whose token is valid for it.
  abbrev pub AreShown : List (Resources × Datagram) → Type 0
  AreShown datagrams =
      All
        (λ e.
          (header : PacketHeader)
          → t.header_info ((e.1).payload) ≡ some header
          → IsShown t H insert_header empty h V ((e.1).addr) header)
        datagrams

  module _ (q : HeaderEvents) (p : Pcre2) (hr : HashTable (Route p)) (sys : System) (loop : Bool)
      (routes : hr.Table) where
    after_find :
        (fuel : ℕ) (payload : Bytes) (r : Found t H insert_header empty h)
        → IsGoodFound t H insert_header empty h V r
        → Ensures
            (IsGoodNext t H insert_header empty h V)
            (received t H insert_header empty h q p hr sys loop routes fuel payload r)
    after_find fuel payload (returned server) i = i
    after_find fuel payload (found hs server) (i, v) =
        receive-IsTrusted t H insert_header empty h V q p hr sys loop routes fuel payload hs server
          i v

    on_datagram-IsTrusted :
        (res : Resources) (sock : ℤ) (fuel : ℕ) (d : Datagram) (server : S)
        → IsGood server
        → ((header : PacketHeader)
            → t.header_info (d.payload) ≡ some header
            → IsShown t H insert_header empty h V (d.addr) header)
        → Ensures
            (IsGoodNext t H insert_header empty h V)
            (on_datagram t H insert_header empty h q p hr sys loop routes res sock fuel d server)
    unfolding on_datagram
    on_datagram-IsTrusted res sock fuel d server i v =
        elim (Option-cases (t.header_info (d.payload))) [
          | inl bad ↦ rw (bad, Ensures) i
          | inr (header, parsed) ↦
              rw (parsed, Ensures)
                (bind-Ensures (IsGoodFound t H insert_header empty h V)
                  (IsGoodNext t H insert_header empty h V)
                  (find_connection t H insert_header empty h res sock (d.addr) header server)
                  (received t H insert_header empty h q p hr sys loop routes fuel (d.payload))
                  (find_connection-IsGoodFound t H insert_header empty h V res sock (d.addr) header
                    server i (v header parsed))
                  (after_find fuel (d.payload)))
        ]

    go_on-IsTrusted :
        (next : Next t H insert_header empty h) (rest : S → Run (Next t H insert_header empty h))
        → IsGoodNext t H insert_header empty h V next
        → ((server : S)
            → IsGood server
            → Ensures (IsGoodNext t H insert_header empty h V) (rest server))
        → Ensures
            (IsGoodNext t H insert_header empty h V)
            (go_on t H insert_header empty h q p hr sys loop routes next rest)
    go_on-IsTrusted (returns server) rest i f = i
    go_on-IsTrusted (breaks server) rest i f = i
    go_on-IsTrusted (continues server) rest i f = f server i

    recv_loop-IsTrusted :
        (sock : ℤ) (fuel : ℕ) (datagrams : List (Resources × Datagram)) (would_block : Bool)
        (server : S)
        → IsGood server
        → AreShown datagrams
        → Ensures (IsGoodNext t H insert_header empty h V) (
            recv_loop t H insert_header empty h q p hr sys loop routes sock fuel datagrams
              would_block server)
    unfolding recv_loop
    recv_loop-IsTrusted sock fuel [] true server i vs = i
    recv_loop-IsTrusted sock fuel [] false server i vs = i
    recv_loop-IsTrusted sock fuel ((res, d) ∷ rest) would_block server i (v, vs) =
        bind-Ensures (IsGoodNext t H insert_header empty h V)
          (IsGoodNext t H insert_header empty h V)
          (on_datagram t H insert_header empty h q p hr sys loop routes res sock fuel d server) _
          (on_datagram-IsTrusted res sock fuel d server i v)
          (λ next i'.
            go_on-IsTrusted next
              (recv_loop t H insert_header empty h q p hr sys loop routes sock fuel rest
                would_block)
              i' (λ server' g. recv_loop-IsTrusted sock fuel rest would_block server' g vs))

    after_recv-IsTrusted :
        (socket : Socket) (fuel : ℕ) (next : Next t H insert_header empty h)
        → IsGoodNext t H insert_header empty h V next
        → Ensures IsGood
            (after_recv t H insert_header empty h q p hr sys loop routes socket fuel next)
    unfolding connections_iter
    after_recv-IsTrusted socket fuel (returns server) i = i
    after_recv-IsTrusted socket fuel (breaks server) i =
        flush_each-IsTrusted t H insert_header empty h V socket fuel (h.items (server.head)) server
          i
          (All_of_find h (λ hs. V (hs.peer_addr)) (server.head) [] (h.items (server.head)) refl
            (i.distinct) (i.peers))
    after_recv-IsTrusted socket fuel (continues server) i =
        flush_each-IsTrusted t H insert_header empty h V socket fuel (h.items (server.head)) server
          i
          (All_of_find h (λ hs. V (hs.peer_addr)) (server.head) [] (h.items (server.head)) refl
            (i.distinct) (i.peers))

    event_cb-IsGood :
        (socket : Socket) (sock : ℤ) (fuel : ℕ) (datagrams : List (Resources × Datagram))
        (would_block : Bool) (server : S)
        → IsGood server
        → AreShown datagrams
        → Ensures IsGood (
            http3_event_cb t H insert_header empty h q p hr sys loop routes socket sock fuel
              datagrams would_block server)
    unfolding http3_event_cb
    event_cb-IsGood socket sock fuel datagrams would_block server i vs =
        bind-Ensures (IsGoodNext t H insert_header empty h V) IsGood
          (recv_loop t H insert_header empty h q p hr sys loop routes sock fuel datagrams
            would_block server)
          _ (recv_loop-IsTrusted sock fuel datagrams would_block server i vs)
          (after_recv-IsTrusted socket fuel)

    -- Let the fuel be more than the packets and the events that quiche has for any connection, and
    -- let `V` be any property of addresses. If no id stands for two connections, `V` holds of
    -- every connection's peer, and `V` holds of the address of each datagram whose token is
    -- "quiche", that address and an id, then no loop of `http3_event_cb` is cut off, and when it
    -- returns, again no id stands for two connections and `V` holds of every peer: a call adds
    -- connections only to peers that showed such a token.
    pub http3_event_cb-IsTrusted :
        (socket : Socket) (sock : ℤ) (fuel : ℕ) (datagrams : List (Resources × Datagram))
        (would_block : Bool) (server : S)
        → IsBound t fuel
        → IsTrusted t H insert_header empty h V (server.head)
        → AreShown datagrams
        → let outcome =
            http3_event_cb t H insert_header empty h q p hr sys loop routes socket sock fuel
              datagrams would_block server in
          IsFueled outcome
          × Ensures (λ server'. IsTrusted t H insert_header empty h V (server'.head)) outcome
    http3_event_cb-IsTrusted socket sock fuel datagrams would_block server b i vs = (
      http3_event_cb-IsFueled t H insert_header empty h q p hr sys loop routes fuel b socket sock
          datagrams would_block server,
      event_cb-IsGood socket sock fuel datagrams would_block server i vs,
    )
