-- ===== src/Quic/Bounded.antt =====
-- How much quiche gives for a connection, as bounds on the loops of main/http3, and that
-- `flush_egress` of main/http3/http3.c is not cut off within its bound.
use gfhttpd.Base.{
  ℕ, zero, suc, Bool, true, false, Option, none, some, List, [], ◌∷◌, ◌++◌, ok, IsFueled,
  fueled_rules, Bytes, if-cases, if◌then◌else◌, ℤ, pos, negsuc,
}
use gfhttpd.Timer.{set_timeout}
use gfhttpd.Quic.Api.{Transport, Output, drained, failed, packet, H3Event}
use gfhttpd.Quic.{
  Datagram, Socket, Connection, Flush, transmitted, flush_loop, after_loop, flush_egress,
}

-- What a bound asks after an answer: nothing, if the answer ends the loop.
abbrev pub After : Output → Type 0 → Type 0
After drained Rest = Unit
After failed Rest = Unit
After (packet payload) Rest = Rest

abbrev pub AfterEvent : Option (ℕ × H3Event) → Type 0 → Type 0
AfterEvent none Rest = Unit
AfterEvent (some event) Rest = Rest

module _ (t : Transport) where
  -- quiche has fewer packets than this to send for a connection.
  abbrev pub SendsWithin : ℕ → t.Conn → Type 0
  SendsWithin zero conn = ⊥
  SendsWithin (suc n) conn = After (t.send conn).0 (SendsWithin n (t.send conn).1)

  -- quiche has fewer events than this for a connection.
  abbrev pub PollsWithin : ℕ → t.H3 → t.Conn → Type 0
  PollsWithin zero http3 conn = ⊥
  PollsWithin (suc n) http3 conn =
      AfterEvent (t.poll http3 conn).0
        (PollsWithin n (t.poll http3 conn).1.0 (t.poll http3 conn).1.1)

  -- quiche has fewer packets and fewer events for every connection.
  pub record IsBound (n : ℕ) : Type 0 where
    pub sends : (conn : t.Conn) → SendsWithin n conn
    pub polls : (http3 : t.H3) (conn : t.Conn) → PollsWithin n http3 conn

  flush_round-IsFueled :
      (socket : Socket) (fuel : ℕ) (addr : Bytes) (out : List Datagram) (output : Output)
      (conn' : t.Conn)
      → After output (SendsWithin fuel conn')
      → ((d : Datagram)
          → SendsWithin fuel conn'
          → IsFueled (flush_loop t socket fuel addr conn' (out ++ d ∷ [])))
      → IsFueled {A = Flush t} (elim output [
        | drained ↦ ok record { conn = conn'; out = out; finished = true }
        | failed ↦ ok record { conn = conn'; out = out; finished = false }
        | packet payload ↦
            (let d : Datagram = record { addr = addr; payload = payload } in
              let rest = flush_loop t socket fuel addr conn' (out ++ d ∷ []) in
              if transmitted socket d
              then rest
              else ok record { conn = conn'; out = out ++ d ∷ []; finished = false })
      ])
  flush_round-IsFueled socket fuel addr out drained conn' b f = tt
  flush_round-IsFueled socket fuel addr out failed conn' b f = tt
  flush_round-IsFueled socket fuel addr out (packet payload) conn' b f =
      if-cases IsFueled (transmitted socket record { addr = addr; payload = payload }) (λ _. f _ b)
        (λ _. tt)

  flush_loop-IsFueled :
      (socket : Socket) (fuel : ℕ) (addr : Bytes) (conn : t.Conn) (out : List Datagram)
      → SendsWithin fuel conn
      → IsFueled (flush_loop t socket fuel addr conn out)
  unfolding flush_loop
  flush_loop-IsFueled socket zero addr conn out b = elim b [ ]
  flush_loop-IsFueled socket (suc fuel) addr conn out b =
      flush_round-IsFueled socket fuel addr out (t.send conn).0 (t.send conn).1 b
        (λ d b'. flush_loop-IsFueled socket fuel addr (t.send conn).1 (out ++ d ∷ []) b')

  set_timeout-IsFueled : (timeout_ev : Bool) (q_tout : ℤ) → IsFueled (set_timeout timeout_ev q_tout)
  unfolding set_timeout
  set_timeout-IsFueled timeout_ev (pos n) = search fueled_rules
  set_timeout-IsFueled timeout_ev (negsuc n) = search fueled_rules

  module _ (H : Type 0) (insert_header : Bytes → Bytes → H → H) where
    pub flush_egress-IsFueled :
        (socket : Socket) (fuel : ℕ) (hs : Connection t H insert_header)
        → SendsWithin fuel (hs.conn)
        → IsFueled (flush_egress t H insert_header socket fuel hs)
    unfolding flush_egress after_loop
    flush_egress-IsFueled socket fuel hs b =
        search (fueled_rules, flush_loop-IsFueled, set_timeout-IsFueled, b)
