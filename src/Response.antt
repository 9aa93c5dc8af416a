-- ===== src/Response.antt =====
-- `get_http3_headers` and `future_write_cb` of main/http3/http3.c: the headers of an HTTP/3
-- response, and then its body.
pub mod Decimal
pub mod Shipping
pub mod Second
mod Examples
use gfhttpd.Base.{
  ℕ, zero, suc, ◌+◌, ◌-◌, ◌/◌, ◌%◌, ◌^◌, Bool, true, false, not, ◌&&◌, Option, none, some, List, [],
  ◌∷◌, ◌++◌, drop, Run, ok, fault, ◌>>=◌, Bytes, bytes, length, take, ltb, leb, ◌==◌, if◌then◌else◌,
  ℤ, pos, to_int,
}
use gfhttpd.Routes.Interfaces.{HashTable}
use gfhttpd.Headers.{HttpHeader, length_header}
use gfhttpd.Router.{Stream}
use gfhttpd.Quic.Api.{Transport}
use gfhttpd.Quic.{Datagram, Socket, Connection, flush_egress}
use gfhttpd.Body.{Send, Write, Ending, returned, exited, write_body}

-- `tolower` on ASCII.
abbrev pub to_lower : ℕ → ℕ
to_lower c = if leb b'A' c && leb c b'Z' then c + 32 else c

-- `strncasecmp(s, t, n) == 0`; a string ends with a NUL.
abbrev pub strncasecmp_eq : Bytes → Bytes → ℕ → Bool
strncasecmp_eq s t zero = true
strncasecmp_eq [] [] (suc n) = true
strncasecmp_eq [] (d ∷ t) (suc n) = false
strncasecmp_eq (c ∷ s) [] (suc n) = false
strncasecmp_eq (c ∷ s) (d ∷ t) (suc n) = (to_lower c == to_lower d) && strncasecmp_eq s t n

-- `sprintf` with "%zu": the digits of a `size_t`, which are at most 20.
abbrev pub digits : ℕ → ℕ → Bytes
digits zero n = []
digits (suc fuel) n =
    let rest = digits fuel (n / 10) in
    if ltb n 10 then (b'0' + n) ∷ [] else rest ++ (b'0' + n % 10) ∷ []

unfoldable pub decimal : ℕ → Bytes
decimal n = digits 20 n

-- The values of `:status` and `content-length`. The comparison is over the header's own length.
-- `strlen(NULL)` faults.
unfoldable pub set_value : Option Bytes → ℕ → HttpHeader → Run HttpHeader
set_value http_status len current =
    if strncasecmp_eq (current.name) (bytes ":status") (current.n_name)
    then (elim http_status [
      | none ↦ fault
      | some status ↦ ok record current { value = status; n_value = length status }
    ])
    else if strncasecmp_eq (current.name) (bytes "content-length") (current.n_name)
    then ok record current { value = decimal len; n_value = length (decimal len) }
    else ok current

-- A `quiche_h3_header`: its name and its value.
abbrev pub h3_header : HttpHeader → Bytes × Bytes
h3_header header = (take (header.n_name) (header.name), take (header.n_value) (header.value))

module _ (h : HashTable HttpHeader) where
  -- The loop over the table, which changes the values in it.
  unfoldable pub headers_loop :
      Option Bytes → ℕ → List (Bytes × HttpHeader) → h.Table → Run (List (Bytes × Bytes) × h.Table)
  headers_loop http_status len [] phdrs = ok ([], phdrs)
  headers_loop http_status len ((key, current) ∷ rest) phdrs =
      set_value http_status len current >>= λ current'.
      headers_loop http_status len rest (h.modify (λ _. current') key phdrs) >>= λ r.
      ok (h3_header current' ∷ r.0, r.1)

  -- The headers for quiche, their number, and the table.
  unfoldable pub get_http3_headers :
      h.Table → Option Bytes → ℕ → Run (List (Bytes × Bytes) × (ℕ × h.Table))
  unfolding headers_loop
  get_http3_headers phdrs http_status len =
      headers_loop http_status len (h.items phdrs) phdrs >>= λ r.
      ok (r.0, (length_header h phdrs, r.1))

  -- `content_lenght == -1`, which a `size_t` never is but for 2^64 - 1.
  abbrev pub is_unknown : ℕ → Bool
  is_unknown n = n == 2 ^ 64 - 1

  module _ (t : Transport) (insert_header : Bytes → Bytes → h.Table → h.Table) where
    abbrev Hs : Type 0
    Hs = Connection t (h.Table) insert_header

    -- `hs`, `fw`, the headers that were given to `quiche_h3_send_response`, and the datagrams that
    -- were passed to the socket.
    pub record Shipment : Type 0 where
      pub hs : Hs
      pub fw : Write
      pub shipped : List (List (Bytes × Bytes))
      pub out : List Datagram

    -- The headers; `fw->len` is an `int`.
    unfoldable pub send_headers : Shipment → Run Shipment
    unfolding get_http3_headers
    send_headers s =
        let response = (s.hs).response in
        get_http3_headers ((s.hs).response_headers) (response.http_status) (response.content_length)
        >>= λ r. ok record s {
          hs = record s.hs { headers_sent = true; response_headers = r.1.1 };
          fw = record s.fw { len = to_int (pos (response.content_length)) };
          shipped = s.shipped ++ r.0 ∷ [];
        }

    -- `accept` is what `quiche_h3_send_body` returns, and `conn_after` what becomes of a connection
    -- by the headers and the bodies that one run of the callback gives it.
    module _ (file : Bytes) (accept : List Send → Send → ℤ)
        (conn_after : t.Conn → List (List (Bytes × Bytes)) → List Send → t.Conn)
        (socket : Socket) where
      -- The connection after the run that began with `s`.
      abbrev pub moved : Shipment → Shipment → Hs
      moved s s' = record s'.hs {
        conn =
            conn_after ((s.hs).conn) (drop (length (s.shipped)) (s'.shipped))
              (drop (length ((s.fw).sends)) ((s'.fw).sends));
      }

      -- `flush_egress`, which comes before the file is closed and the event deleted; none of them
      -- depends on the others. `exit` comes before it.
      abbrev pub flushed : ℕ → Shipment → Shipment → Ending → Run (Ending × Shipment)
      flushed fuel s s' (exited fw) = ok (exited fw, record s' { fw = fw })
      flushed fuel s s' (returned fw) =
          flush_egress t (h.Table) insert_header socket fuel (moved s record s' { fw = fw })
          >>= λ r. ok (returned fw, record s' { hs = r.0; fw = fw; out = s'.out ++ r.1 })

      -- What follows the headers, in the run that began with `s`; whether the callback returned or
      -- called `exit`, and the shipment.
      abbrev pub send_rest : ℕ → Shipment → Shipment → Run (Ending × Shipment)
      send_rest fuel s s' = write_body file accept fuel (s'.fw) >>= flushed fuel s s'

      -- The event that fired is no longer scheduled.
      unfoldable pub future_write_cb : ℕ → Shipment → Run (Ending × Shipment)
      unfolding send_headers
      future_write_cb fuel s =
          let fw : Write = record s.fw { scheduled = false } in
          let s' : Shipment = record s { fw = fw } in
          let response = (s.hs).response in
          if t.is_closed ((s.hs).conn)
          then ok (returned fw, s')
          else if not ((s.hs).headers_sent) && not (is_unknown (response.content_length))
          then send_headers s' >>= send_rest fuel s
          else if not ((s.hs).headers_sent) && is_unknown (response.content_length)
          then (let again : Write = record fw { scheduled = true } in
              ok (returned again, record s { fw = again }))
          else send_rest fuel s s'
