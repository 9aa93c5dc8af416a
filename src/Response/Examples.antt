-- ===== src/Response/Examples.antt =====
-- A response for a file of three bytes, and a second one on the same connection.
use gfhttpd.Base.{
  ◌≡◌, refl, ℕ, true, false, none, some, List, [], ◌∷◌, ◌++◌, Bytes, bytes, ok, ℤ, pos, length,
  arith,
}
use gfhttpd.Routes.Listed.{listed}
use gfhttpd.Headers.{HttpHeader}
use gfhttpd.Http2.{no_stream}
use gfhttpd.Body.{Send, returned, send_response}
use gfhttpd.Quic.Api.{drained}
use gfhttpd.Quic.Counting.{counting, all_sent, five_ms}
use gfhttpd.Quic.Flushed.{tried, datagrams}
use gfhttpd.Response.{Shipment, future_write_cb}
use gfhttpd.Response.Shipping.{IsFlushable, IsPrepared, IsShipped, future_write_cb-IsShipped}
use gfhttpd.Response.Second.{left_open, future_write_cb-second}

abbrev takes_all : List Send → Send → ℤ
takes_all sends send = pos (length (send.body))

-- One packet is left to send after any calls.
abbrev one_packet : ℕ → List (List (Bytes × Bytes)) → List Send → ℕ
one_packet conn headers sends = 1

abbrev header : Bytes → Bytes → Bytes × HttpHeader
header name value =
    (name, record { name = name; n_name = length name; value = value; n_value = length value })

abbrev Headers : Type 0
Headers = List (Bytes × HttpHeader)

abbrev add : Bytes → Bytes → Headers → Headers
add name value headers = header name value ∷ headers

abbrev headers : Headers
headers =
    header (bytes ":status") (bytes "200")
    ∷ header (bytes "server") (bytes "quiche")
    ∷ header (bytes "content-length") (bytes "5")
    ∷ []

abbrev fresh : Shipment listed counting add
fresh = record {
  hs = record {
    cid = bytes "0123456789abcdef";
    conn = 0;
    http3 = some 0;
    sock = pos 3;
    timeout_ev = true;
    timer = none;
    peer_addr = bytes "peer";
    request = record {
      url = some (bytes "/abc");
      method = none;
      scheme = none;
      authority = none;
      headers = [];
    };
    response = record no_stream { http_status = some (bytes "404"); content_length = 3 };
    response_headers = headers;
    headers_sent = false;
  };
  fw = send_response;
  shipped = [];
  out = [];
}

abbrev one_packet_flush : IsFlushable listed counting add 4 true 1
one_packet_flush = record {
  payloads = (0 ∷ []) ∷ [];
  last = drained;
  conn' = 0;
  timer = some record { tv_sec = pos 0; tv_usec = 5000 };
  queue = (0, refl, (refl, refl));
  enough = omega arith;
  timed = five_ms;
}

fresh-IsPrepared :
    IsPrepared listed counting add (bytes "abc") takes_all one_packet all_sent (bytes "404") fresh
fresh-IsPrepared = record {
  unsent = refl;
  measured = refl;
  answered = refl;
  fresh = refl;
  is_open = refl;
}

future_write_cb-IsShipped_example :
    (after : Shipment listed counting add) × (future_write_cb listed counting add
        (bytes "abc")
        takes_all
        one_packet
        all_sent
        4
        fresh
      ≡ ok (returned (after.fw), after))
    × IsShipped listed counting add
        (bytes "abc")
        takes_all
        one_packet
        all_sent
        (bytes "404")
        fresh
        after
        ((0 ∷ []) ∷ [])
future_write_cb-IsShipped_example =
    future_write_cb-IsShipped listed counting add (bytes "abc") takes_all one_packet all_sent
      (λ sends send. refl) 4 (bytes "404") fresh fresh-IsPrepared (omega arith) (omega arith)
      (omega arith) (λ sends. one_packet_flush)

abbrev used : Shipment listed counting add
used = record fresh { hs = record fresh.hs { headers_sent = true } }

future_write_cb-second_example :
    (after : Shipment listed counting add) × (future_write_cb listed counting add
        (bytes "abc")
        takes_all
        one_packet
        all_sent
        4
        used
      ≡ ok (
        returned (left_open listed counting add (bytes "abc") takes_all one_packet all_sent),
        after,
      ))
    × (after.fw ≡ left_open listed counting add (bytes "abc") takes_all one_packet all_sent)
    × (after.shipped ≡ [])
    × (after.out ≡ [] ++ (tried all_sent (datagrams (bytes "peer") ((0 ∷ []) ∷ []))).0)
future_write_cb-second_example =
    future_write_cb-second listed counting add (bytes "abc") takes_all one_packet all_sent 3 used
      refl refl refl one_packet_flush
