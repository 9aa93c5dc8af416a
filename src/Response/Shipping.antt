-- ===== src/Response/Shipping.antt =====
-- A whole response by `future_write_cb` of main/http3/http3.c, and a second one on a connection.
use gfhttpd.Base.{
  ℕ, ◌^◌, ◌<◌, ◌≡◌, refl, ap, ◌∙◌, drop-append, Bool, true, false, not, ◌&&◌, Option, none, some,
  List, [], ◌∷◌, ◌++◌, ok, Bytes, bytes, length, if◌then◌else◌, ℤ, pos, to_int, arith, Bool-cases,
  inl, inr,
}
use gfhttpd.Routes.Interfaces.{HashTable}
use gfhttpd.Headers.{HttpHeader}
use gfhttpd.Body.{Send, Write, returned, send_response}
use gfhttpd.Body.Complete.{writing, Completes, write_body-Completes}
use gfhttpd.Timer.{Timeval, set_timeout}
use gfhttpd.Quic.Api.{Transport, Output}
use gfhttpd.Quic.{Socket, Connection}
use gfhttpd.Quic.Flushed.{IsQueue, tried, datagrams, scheduled, flush_egress-returns}
use gfhttpd.Response.{
  strncasecmp_eq, decimal, set_value, h3_header, headers_loop, get_http3_headers, Shipment,
  is_unknown, moved, send_headers, future_write_cb,
}

-- The header that a response carries for one of the table: by its name up to the table's length of
-- it, letter case aside, the status, the length in digits, or what it was.
abbrev pub carried : Bytes → ℕ → HttpHeader → HttpHeader
carried status len header =
    if strncasecmp_eq (header.name) (bytes ":status") (header.n_name)
    then record header { value = status; n_value = length status }
    else if strncasecmp_eq (header.name) (bytes "content-length") (header.n_name)
    then record header { value = decimal len; n_value = length (decimal len) }
    else header

abbrev pub all_carried : Bytes → ℕ → List (Bytes × HttpHeader) → List (Bytes × Bytes)
all_carried status len [] = []
all_carried status len ((key, header) ∷ rest) =
    h3_header (carried status len header) ∷ all_carried status len rest

set_value-carried :
    (status : Bytes) (len : ℕ) (header : HttpHeader)
    → set_value (some status) len header ≡ ok (carried status len header)
unfolding set_value
set_value-carried status len header =
    elim (Bool-cases (strncasecmp_eq (header.name) (bytes ":status") (header.n_name))) [
      | inl is_status ↦ rw is_status
      | inr other ↦
          rw other
            (elim (Bool-cases
              (strncasecmp_eq (header.name) (bytes "content-length") (header.n_name))) [
                | inl is_length ↦ rw is_length
                | inr plain ↦ rw plain
              ])
    ]

to_int_small : (n : ℕ) → n < 2 ^ 31 → to_int (pos n) ≡ pos n
to_int_small n h = ground arith

module _ (h : HashTable HttpHeader) where
  headers_loop-carried :
      (status : Bytes) (len : ℕ) (items : List (Bytes × HttpHeader)) (phdrs : h.Table)
      → (phdrs' : h.Table) × (headers_loop h (some status) len items phdrs
          ≡ ok (all_carried status len items, phdrs'))
  unfolding headers_loop
  headers_loop-carried status len [] phdrs = (phdrs, refl)
  headers_loop-carried status len ((key, header) ∷ rest) phdrs =
      let (phdrs', e) =
        headers_loop-carried status len rest
          (h.modify (λ _. carried status len header) key phdrs) in
      (phdrs', rw (set_value-carried status len header) (rw e))

  known : (n : ℕ) → n < 2 ^ 31 → is_unknown h n ≡ false
  known n small = ground arith

  module _ (t : Transport) (insert_header : Bytes → Bytes → h.Table → h.Table) where
    abbrev Hs : Type 0
    Hs = Connection t (h.Table) insert_header

    abbrev Ship : Type 0
    Ship = Shipment h t insert_header

    -- `flush_egress` returns for the connection: quiche has fewer packets for it than the fuel, and
    -- a timeout that `set_timeout` can round.
    pub record IsFlushable (fuel : ℕ) (timeout_ev : Bool) (conn : t.Conn) : Type 0 where
      pub payloads : List Bytes
      pub last : Output
      pub conn' : t.Conn
      pub timer : Option Timeval
      pub queue : IsQueue t conn payloads last conn'
      pub enough : length payloads < fuel
      pub timed : set_timeout timeout_ev (t.timeout_as_nanos conn') ≡ ok timer

    -- A connection with the headers of its response sent.
    abbrev with_headers : Hs → h.Table → Hs
    with_headers hs headers' = record hs { headers_sent = true; response_headers = headers' }

    -- The flush changes none of what the response reads.
    scheduled-headers_sent :
        (hs : Hs) (conn' : t.Conn) (timer : Option Timeval)
        → (scheduled t (h.Table) insert_header hs conn' timer).headers_sent ≡ hs.headers_sent
    scheduled-headers_sent hs conn' none = refl
    scheduled-headers_sent hs conn' (some tv) = refl

    module _ (file : Bytes) (accept : List Send → Send → ℤ)
        (conn_after : t.Conn → List (List (Bytes × Bytes)) → List Send → t.Conn)
        (socket : Socket) where
      -- The response is prepared and nothing was sent of it: the headers, their values from the
      -- status and the length, go out with the first call.
      pub record IsPrepared (status : Bytes) (s : Ship) : Type 0 where
        pub unsent : (s.hs).headers_sent ≡ false
        pub measured : ((s.hs).response).content_length ≡ length file
        pub answered : ((s.hs).response).http_status ≡ some status
        pub fresh : s.fw ≡ send_response
        pub is_open : t.is_closed ((s.hs).conn) ≡ false

      -- The headers of a response.
      abbrev pub response_headers : Bytes → Ship → List (Bytes × Bytes)
      response_headers status s =
          all_carried status (length file) (h.items ((s.hs).response_headers))

      -- The headers went out once, each as `carried` says, then the whole file in order, the file
      -- is closed, and the packets of quiche were passed to the socket.
      pub record IsShipped (status : Bytes) (s after : Ship) (payloads : List Bytes) : Type 0 where
        pub sent : (after.hs).headers_sent ≡ true
        pub one_more : after.shipped ≡ s.shipped ++ response_headers status s ∷ []
        pub complete : Completes file 0 [] (after.fw)
        pub closed : (after.fw).closed ≡ true
        pub flushed_out :
            after.out ≡ s.out ++ (tried socket (datagrams ((s.hs).peer_addr) payloads)).0

      -- What `send_headers` leaves.
      abbrev headed : Bytes → Ship → h.Table → Ship
      headed status s headers' = record {
        hs = with_headers (s.hs) headers';
        fw = writing file 0 false 0 [];
        shipped = s.shipped ++ response_headers status s ∷ [];
        out = s.out;
      }

      send_headers-headed :
          (status : Bytes) (s : Ship)
          → IsPrepared status s
          → length file < 2 ^ 31
          → (headers' : h.Table) × (send_headers h t insert_header
                record s { fw = record s.fw { scheduled = false } }
              ≡ ok (headed status s headers'))
      unfolding send_headers get_http3_headers send_response
      send_headers-headed status s i small =
          let (headers', e) =
            headers_loop-carried status (length file) (h.items ((s.hs).response_headers))
              ((s.hs).response_headers) in
          (
            headers',
            rw (i.measured, send_headers)
                (rw (i.answered) (rw (i.fresh) (rw e (rw (to_int_small (length file) small))))),
          )

      -- Neither sent nor of unknown length.
      IsPrepared-known :
          (status : Bytes) (s : Ship)
          → IsPrepared status s
          → length file < 2 ^ 31
          → (not ((s.hs).headers_sent) && not (is_unknown h (((s.hs).response).content_length)))
            ≡ true
      IsPrepared-known status s i small = rw (i.unsent, i.measured, known (length file) small)

      -- The connection after the run.
      moved-headed :
          (status : Bytes) (s : Ship) (headers' : h.Table) (fw : Write)
          → s.fw ≡ send_response
          → moved h t insert_header file accept conn_after socket s
              record (headed status s headers') { fw = fw }
            ≡ record (with_headers (s.hs) headers') {
              conn = conn_after ((s.hs).conn) (response_headers status s ∷ []) (fw.sends);
            }
      unfolding send_response
      moved-headed status s headers' fw fresh =
          rw (fresh, drop-append (s.shipped) (response_headers status s ∷ []))

      -- For a file that is not empty and has less than 2^31 bytes, on an open connection whose
      -- body calls take all that they are given, and that `flush_egress` returns for after the
      -- calls, the first call of `future_write_cb` for the connection returns. It gives quiche one
      -- list of headers, with the status under ":status", the digits of the file's size under
      -- "content-length" and any other header as it was, then the whole file in order, closes the
      -- file, and passes quiche's packets to the socket up to the first that does not go out. A
      -- header counts as one of the two if its name begins theirs.
      pub future_write_cb-IsShipped :
          (all : (sends : List Send) (send : Send) → accept sends send ≡ pos (length (send.body)))
          (fuel : ℕ) (status : Bytes) (s : Ship)
          → IsPrepared status s
          → 0 < length file
          → length file < 2 ^ 31
          → length file < fuel
          → (f : (sends : List Send)
              → IsFlushable fuel
                  ((s.hs).timeout_ev)
                  (conn_after ((s.hs).conn) (response_headers status s ∷ []) sends))
          → (after : Ship) × (future_write_cb h t insert_header file accept conn_after socket fuel s
              ≡ ok (returned (after.fw), after))
            × IsShipped status s after ((f ((after.fw).sends)).payloads)
      unfolding future_write_cb
      future_write_cb-IsShipped all fuel status s i some' small enough f =
          let (headers', e) = send_headers-headed status s i small in
          let (fw, done, complete, closed) =
            write_body-Completes file accept all fuel 0 0 [] some' (omega (arith, enough)) in
          let g = f (fw.sends) in
          let hs : Hs = record (with_headers (s.hs) headers') {
            conn = conn_after ((s.hs).conn) (response_headers status s ∷ []) (fw.sends);
          } in
          let (hs', flushed, ends) =
            flush_egress-returns t (h.Table) insert_header socket fuel hs (g.payloads) (g.last)
              (g.conn') (g.timer) (g.queue) (g.enough) (g.timed) in
          let sent : hs'.headers_sent ≡ true = elim ends [
            | inl (_, same) ↦
                ap (λ c. c.headers_sent) same ∙ scheduled-headers_sent hs (g.conn') (g.timer)
            | inr (_, same) ↦ ap (λ c. c.headers_sent) same
          ] in
          (
            record (headed status s headers') {
              hs = hs';
              fw = fw;
              out = s.out ++ (tried socket (datagrams ((s.hs).peer_addr) (g.payloads))).0;
            },
            rw (i.is_open, future_write_cb)
                (rw (IsPrepared-known status s i small)
                  (rw e (rw done (rw (moved-headed status s headers' fw (i.fresh)) (rw flushed))))),
            record {
              sent = sent;
              one_more = refl;
              complete = complete;
              closed = closed;
              flushed_out = refl;
            },
          )
