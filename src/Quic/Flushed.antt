-- ===== src/Quic/Flushed.antt =====
-- `flush_egress` of main/http3/http3.c returns, and what it sends.
use gfhttpd.Base.{
  ℕ, zero, suc, ◌<◌, ◌≡◌, refl, sym, ap, ◌∙◌, ◌⊎◌, inl, inr, Bool, true, false, ◌&&◌, Option, List,
  [], ◌∷◌, ◌++◌, ok, Bytes, length, if◌then◌else◌, arith, append-[], append_assoc, Bool-cases,
}
use gfhttpd.Timer.{Timeval, set_timeout}
use gfhttpd.Quic.Api.{Transport, Output, drained, failed, packet}
use gfhttpd.Quic.{
  Datagram, Socket, Connection, Flush, transmitted, flush_loop, after_loop, with_timer,
  flush_egress,
}

abbrev pub is_drained : Output → Bool
is_drained drained = true
is_drained failed = false
is_drained (packet payload) = false

abbrev pub is_packet : Output → Bool
is_packet (packet payload) = true
is_packet drained = false
is_packet failed = false

-- The datagrams to a peer.
abbrev pub datagrams : Bytes → List Bytes → List Datagram
datagrams addr [] = []
datagrams addr (payload ∷ rest) = record { addr = addr; payload = payload } ∷ datagrams addr rest

-- The datagrams up to the first that does not go out whole, and whether all do.
abbrev pub tried : Socket → List Datagram → List Datagram × Bool
tried socket [] = ([], true)
tried socket (d ∷ ds) =
    let rest = tried socket ds in
    if transmitted socket d then (d ∷ rest.0, rest.1) else (d ∷ [], false)

module _ (t : Transport) where
  -- quiche has these packets to send for a connection, ends with `last`, and leaves `conn'`.
  abbrev pub IsQueue : t.Conn → List Bytes → Output → t.Conn → Type 0
  IsQueue conn [] last conn' = (t.send conn ≡ (last, conn')) × (is_packet last ≡ false)
  IsQueue conn (payload ∷ rest) last conn' =
      (next : t.Conn) × (t.send conn ≡ (packet payload, next)) × IsQueue next rest last conn'

  -- What the loop makes of a queue.
  pub record IsFlushed (socket : Socket) (addr : Bytes) (payloads : List Bytes) (last : Output)
      (conn' : t.Conn) (out : List Datagram) (flush : Flush t) : Type 0 where
    pub sent : flush.out ≡ out ++ (tried socket (datagrams addr payloads)).0
    pub same_finished :
        flush.finished ≡ ((tried socket (datagrams addr payloads)).1 && is_drained last)
    pub same_conn : flush.finished ≡ true → flush.conn ≡ conn'

  module _ (socket : Socket) (addr : Bytes) where
    last_IsFlushed :
        (fuel : ℕ) (conn : t.Conn) (last : Output) (conn' : t.Conn) (out : List Datagram)
        → t.send conn ≡ (last, conn')
        → is_packet last ≡ false
        → (flush : Flush t) × (flush_loop t socket (suc fuel) addr conn out ≡ ok flush)
          × IsFlushed socket addr [] last conn' out flush
    unfolding flush_loop
    last_IsFlushed fuel conn drained conn' out e h = (
      record { conn = conn'; out = out; finished = true },
      rw (ap (λ r. r.0) e, flush_loop) (rw (ap (λ r. r.1) e)),
      record { sent = sym (append-[] out); same_finished = refl; same_conn = λ _. refl },
    )
    last_IsFlushed fuel conn failed conn' out e h = (
      record { conn = conn'; out = out; finished = false },
      rw (ap (λ r. r.0) e, flush_loop) (rw (ap (λ r. r.1) e)),
      record {
        sent = sym (append-[] out);
        same_finished = refl;
        same_conn = λ q. absurd (ground arith);
      },
    )
    last_IsFlushed fuel conn (packet payload) conn' out e h = absurd (ground arith)

    loop_more :
        (fuel : ℕ) (conn next : t.Conn) (payload : Bytes) (out : List Datagram)
        → t.send conn ≡ (packet payload, next)
        → transmitted socket record { addr = addr; payload = payload } ≡ true
        → flush_loop t socket (suc fuel) addr conn out
          ≡ flush_loop t socket fuel addr next
              (out ++ record { addr = addr; payload = payload } ∷ [])
    unfolding flush_loop
    loop_more fuel conn next payload out e yes' =
        rw (ap (λ r. r.0) e, flush_loop) (rw (ap (λ r. r.1) e) (rw yes'))

    loop_stops :
        (fuel : ℕ) (conn next : t.Conn) (payload : Bytes) (out : List Datagram)
        → t.send conn ≡ (packet payload, next)
        → transmitted socket record { addr = addr; payload = payload } ≡ false
        → flush_loop t socket (suc fuel) addr conn out
          ≡ ok record {
            conn = next;
            out = out ++ record { addr = addr; payload = payload } ∷ [];
            finished = false;
          }
    unfolding flush_loop
    loop_stops fuel conn next payload out e no' =
        rw (ap (λ r. r.0) e, flush_loop) (rw (ap (λ r. r.1) e) (rw no'))

    flush_loop-IsFlushed :
        (fuel : ℕ) (conn : t.Conn) (payloads : List Bytes) (last : Output) (conn' : t.Conn)
        (out : List Datagram)
        → IsQueue conn payloads last conn'
        → length payloads < fuel
        → (flush : Flush t) × (flush_loop t socket fuel addr conn out ≡ ok flush)
          × IsFlushed socket addr payloads last conn' out flush
    flush_loop-IsFlushed zero conn payloads last conn' out q h = absurd (omega arith)
    flush_loop-IsFlushed (suc fuel) conn [] last conn' out (e, p) h =
        last_IsFlushed fuel conn last conn' out e p
    flush_loop-IsFlushed (suc fuel) conn (payload ∷ rest) last conn' out (next, e, q) h =
        let d : Datagram = record { addr = addr; payload = payload } in
        elim (Bool-cases (transmitted socket d)) [
          | inl yes' ↦
              (let (flush, r, f) =
                  flush_loop-IsFlushed fuel next rest last conn' (out ++ d ∷ []) q (omega arith) in
                (
                  flush,
                  loop_more fuel conn next payload out e yes' ∙ r,
                  record {
                    sent = rw yes' (f.sent ∙ append_assoc out (d ∷ []) _);
                    same_finished = rw yes' (f.same_finished);
                    same_conn = f.same_conn;
                  },
                ))
          | inr no' ↦ (
            record { conn = next; out = out ++ d ∷ []; finished = false },
            loop_stops fuel conn next payload out e no',
            record {
              sent = rw no';
              same_finished = rw no';
              same_conn = λ q. absurd (ground arith);
            },
          )
        ]

module _ (t : Transport) (H : Type 0) (insert_header : Bytes → Bytes → H → H) where
  -- The connection at the end, with its timer set.
  abbrev pub scheduled :
      Connection t H insert_header → t.Conn → Option Timeval → Connection t H insert_header
  scheduled hs conn' timer = with_timer t H insert_header record hs { conn = conn' } timer

  after_finished :
      (hs : Connection t H insert_header) (flush : Flush t) (conn' : t.Conn)
      (timer : Option Timeval)
      → flush.finished ≡ true
      → flush.conn ≡ conn'
      → set_timeout (hs.timeout_ev) (t.timeout_as_nanos conn') ≡ ok timer
      → after_loop t H insert_header hs flush ≡ ok (scheduled hs conn' timer, flush.out)
  unfolding after_loop
  after_finished hs flush conn' timer f c e = rw (f, after_loop) (rw c (rw e))

  after_failed :
      (hs : Connection t H insert_header) (flush : Flush t)
      → flush.finished ≡ false
      → after_loop t H insert_header hs flush ≡ ok (record hs { conn = flush.conn }, flush.out)
  unfolding after_loop
  after_failed hs flush f = rw (f, after_loop)

  -- With a queue of packets to send, and more fuel than packets, `flush_egress` returns. It passes
  -- them to the socket in order, each to the peer, up to the first that does not go out whole. If
  -- all do and quiche has nothing more, the connection's timer is set for quiche's timeout;
  -- otherwise the timer stays. The timeout must be one that `set_timeout` can round.
  pub flush_egress-returns :
      (socket : Socket) (fuel : ℕ) (hs : Connection t H insert_header) (payloads : List Bytes)
      (last : Output) (conn' : t.Conn) (timer : Option Timeval)
      → IsQueue t (hs.conn) payloads last conn'
      → length payloads < fuel
      → set_timeout (hs.timeout_ev) (t.timeout_as_nanos conn') ≡ ok timer
      → let (sent, all) = tried socket (datagrams (hs.peer_addr) payloads) in
        (hs' : Connection t H insert_header) × (flush_egress t H insert_header socket fuel hs
          ≡ ok (hs', sent))
        × (((all && is_drained last ≡ true) × (hs' ≡ scheduled hs conn' timer))
            ⊎ ((all && is_drained last ≡ false) × (hs' ≡ record hs { conn = hs'.conn })))
  unfolding flush_egress
  flush_egress-returns socket fuel hs payloads last conn' timer q h e =
      let (flush, r, f) =
        flush_loop-IsFlushed t socket (hs.peer_addr) fuel (hs.conn) payloads last conn' [] q h in
      elim (Bool-cases (flush.finished)) [
        | inl yes' ↦
            (let after = after_finished hs flush conn' timer yes' (f.same_conn yes') e in
              (
                scheduled hs conn' timer,
                rw (r, flush_egress)
                    (after ∙ ap (λ sent. ok (scheduled hs conn' timer, sent)) (f.sent)),
                inl (sym (f.same_finished) ∙ yes', refl),
              ))
        | inr no' ↦ (
          record hs { conn = flush.conn },
          rw (r, flush_egress)
              (after_failed hs flush no'
                ∙ ap (λ sent. ok (record hs { conn = flush.conn }, sent)) (f.sent)),
          inr (sym (f.same_finished) ∙ no', refl),
        )
      ]
