-- ===== src/Quic/Examples.antt =====
-- A datagram from "peer", on the transport `counting`.
use gfhttpd.Base.{
  ◌≡◌, ◌⊎◌, refl, ℕ, zero, suc, true, false, some, List, [], ◌∷◌, ok, Bytes, bytes, pos, ◌&&◌,
  arith, Ensures, take, IsFueled,
}
use gfhttpd.Routes.Listed.{listed, prefixes}
use gfhttpd.Router.Sample.{one_file}
use gfhttpd.Connections.{local_conn_id_len, get_connection}
use gfhttpd.Http3.Looping.{looping, insert}
use gfhttpd.Quic.Api.{drained}
use gfhttpd.Quic.{Datagram, Connection, flush_egress}
use gfhttpd.Quic.Counting.{with_token, counting, all_sent, five_ms}
use gfhttpd.Quic.Accept.{Resources, Server, found, new_cid, reply, find_connection}
use gfhttpd.Quic.Accept.Retry.{IsAble, IsUnknown, retry_token, made, find_connection-retry}
use gfhttpd.Quic.Events.{http3_event_cb}
use gfhttpd.Quic.Bounded.{SendsWithin, IsBound}
use gfhttpd.Quic.Trust.{IsTrusted}
use gfhttpd.Quic.Validated.{http3_event_cb-IsTrusted}
use gfhttpd.Quic.Flushed.{tried, datagrams, scheduled, flush_egress-returns}

abbrev Headers : Type 0
Headers = List (Bytes × Bytes)

abbrev Hs : Type 0
Hs = Connection counting Headers insert

abbrev peer : Bytes
peer = bytes "peer"

abbrev connection : Hs
connection = made counting Headers insert [] listed (pos 3) peer (bytes "random bytes 16!") 2

flush_egress-returns_example :
    let (sent, all) = tried all_sent (datagrams peer ((1 ∷ []) ∷ (0 ∷ []) ∷ [])) in
    (hs' : Hs) × (flush_egress counting Headers insert all_sent 3 connection ≡ ok (hs', sent))
    × (((all && true ≡ true)
          × (hs'
              ≡ scheduled counting Headers insert connection 0
                  (some record { tv_sec = pos 0; tv_usec = 5000 })))
        ⊎ ((all && true ≡ false) × (hs' ≡ record connection { conn = hs'.conn })))
flush_egress-returns_example =
    flush_egress-returns counting Headers insert all_sent 3 connection ((1 ∷ []) ∷ (0 ∷ []) ∷ [])
      drained 0 (some record { tv_sec = pos 0; tv_usec = 5000 }) (1, refl, (0, refl, (refl, refl)))
      (ground arith) five_ms

abbrev server : Server counting Headers insert [] listed
server = record { head = []; out = []; writes = []; calls = []; cleaned = [] }

abbrev resources : Resources
resources = record {
  pool = true;
  stream = true;
  params = true;
  rng = pos 4;
  random = some (bytes "random bytes 16!");
  timer = true;
}

resources-IsAble : IsAble resources (bytes "random bytes 16!")
resources-IsAble = record {
  has_pool = refl;
  has_stream = refl;
  has_params = refl;
  opened = refl;
  has_random = refl;
  has_timer = refl;
}

with_token-IsUnknown :
    (token : Bytes) → IsUnknown counting Headers insert [] listed server (with_token token)
unfolding get_connection
with_token-IsUnknown token = record { missing = refl; supported = refl }

find_connection-retry_example :
    (find_connection counting Headers insert [] listed resources (pos 3) peer (with_token []) server
      ≡ ok (
          reply counting Headers insert [] listed peer
            (some (retry_token peer (with_token [])))
            server))
    × (find_connection counting Headers insert [] listed resources
          (pos 3)
          peer
          (with_token (retry_token peer (with_token [])))
          server
        ≡ ok (
            found connection record server {
              head =
                  (
                    take local_conn_id_len
                        (new_cid counting Headers insert [] (bytes "random bytes 16!")),
                    connection,
                  )
                  ∷ [];
            }))
find_connection-retry_example =
    find_connection-retry counting Headers insert [] listed resources resources (pos 3) peer []
      (bytes "random bytes 16!") (with_token []) (with_token (retry_token peer (with_token [])))
      server server 2 (ground arith) refl refl (with_token-IsUnknown []) refl
      (with_token-IsUnknown (retry_token peer (with_token []))) resources-IsAble refl refl

server-IsTrusted : IsTrusted counting Headers insert [] listed (λ addr. addr ≡ peer) (server.head)
server-IsTrusted = record { distinct = tt; peers = λ k hs e. absurd (ground (arith, e)) }

abbrev arrived : List (Resources × Datagram)
arrived = (resources, record { addr = peer; payload = retry_token peer (with_token []) }) ∷ []

count_down-Within : (n : ℕ) → SendsWithin counting 9 n
count_down-Within zero = tt
count_down-Within (suc zero) = tt
count_down-Within (suc (suc zero)) = tt
count_down-Within (suc (suc (suc n))) = tt

nine-IsBound : IsBound counting 9
nine-IsBound = record { sends = count_down-Within; polls = λ http3 conn. tt }

http3_event_cb-IsTrusted_example :
    let outcome =
      http3_event_cb counting Headers insert [] listed looping prefixes listed one_file true []
        all_sent
        (pos 3)
        9
        arrived
        true
        server in
    IsFueled outcome
    × Ensures
        (λ server'.
          IsTrusted counting Headers insert [] listed (λ addr. addr ≡ peer) (server'.head))
        outcome
http3_event_cb-IsTrusted_example =
    http3_event_cb-IsTrusted counting Headers insert [] listed (λ addr. addr ≡ peer) looping
      prefixes listed one_file true [] all_sent (pos 3) 9 arrived true server nine-IsBound
      server-IsTrusted ((λ header e odcid e'. refl), tt)
