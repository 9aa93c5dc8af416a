-- ===== src/Response/Second.antt =====
-- A second response on a connection, by `future_write_cb` of main/http3/http3.c.
use gfhttpd.Base.{
  ℕ, suc, ◌≡◌, refl, ap, Bool, not, ◌&&◌, true, false, List, [], ◌++◌, ok, drop_of_ge, Bytes,
  length, ℤ, arith,
}
use gfhttpd.Routes.Interfaces.{HashTable}
use gfhttpd.Headers.{HttpHeader}
use gfhttpd.Body.{Send, Write, returned, write_body, body_loop, finish, send_response}
use gfhttpd.Quic.Api.{Transport}
use gfhttpd.Quic.{Socket}
use gfhttpd.Quic.Flushed.{tried, datagrams, flush_egress-returns}
use gfhttpd.Response.{Shipment, is_unknown, moved, future_write_cb}
use gfhttpd.Response.Shipping.{IsFlushable}

module _ (h : HashTable HttpHeader) (t : Transport)
    (insert_header : Bytes → Bytes → h.Table → h.Table) (file : Bytes)
    (accept : List Send → Send → ℤ)
    (conn_after : t.Conn → List (List (Bytes × Bytes)) → List Send → t.Conn) (socket : Socket) where
  abbrev Ship : Type 0
  Ship = Shipment h t insert_header

  -- What a response is left with: nothing was sent of it, its event is not scheduled, its file not
  -- closed.
  abbrev pub left_open : Write
  left_open = record send_response { scheduled = false }

  write_body-left_open :
      (fuel : ℕ) → write_body file accept (suc fuel) left_open ≡ ok (returned left_open)
  unfolding send_response write_body body_loop finish
  write_body-left_open fuel = refl

  unscheduled : (s : Ship) → s.fw ≡ send_response → record s.fw { scheduled = false } ≡ left_open
  unscheduled s fresh = ap (λ (fw : Write). record fw { scheduled = false }) fresh

  sent_before :
      (s : Ship) (test : Bool)
      → (s.hs).headers_sent ≡ true
      → (not ((s.hs).headers_sent) && test) ≡ false
  sent_before s test sent = rw sent

  left_open-unsent : left_open.sends ≡ []
  unfolding send_response
  left_open-unsent = refl

  moved-unchanged :
      (s : Ship) (fw : Write)
      → s.fw ≡ send_response
      → fw.sends ≡ []
      → moved h t insert_header file accept conn_after socket s record s { fw = fw }
        ≡ record s.hs { conn = conn_after ((s.hs).conn) [] [] }
  unfolding send_response
  moved-unchanged s fw fresh none' =
      rw (fresh, none', drop_of_ge (length (s.shipped)) (s.shipped) (omega arith))

  -- Once the headers of a response were sent on a connection that is open, the first call for
  -- another response sends nothing of it: no headers and no byte of the file. It only flushes the
  -- connection, which must end within the fuel, and returns with the event not scheduled and the
  -- file not closed, so that the response never comes.
  pub future_write_cb-second :
      (fuel : ℕ) (s : Ship)
      → t.is_closed ((s.hs).conn) ≡ false
      → (s.hs).headers_sent ≡ true
      → s.fw ≡ send_response
      → (f : IsFlushable h t insert_header
          (suc fuel)
          ((s.hs).timeout_ev)
          (conn_after ((s.hs).conn) [] []))
      → (after : Ship) × (future_write_cb h t insert_header file accept conn_after socket
            (suc fuel)
            s
          ≡ ok (returned left_open, after))
        × (after.fw ≡ left_open)
        × (after.shipped ≡ s.shipped)
        × (after.out ≡ s.out ++ (tried socket (datagrams ((s.hs).peer_addr) (f.payloads))).0)
  unfolding future_write_cb
  future_write_cb-second fuel s is_open sent fresh f =
      let unknown = is_unknown h (((s.hs).response).content_length) in
      let (hs', flushed, ends) =
        flush_egress-returns t (h.Table) insert_header socket (suc fuel)
          record s.hs { conn = conn_after ((s.hs).conn) [] [] } (f.payloads) (f.last) (f.conn')
          (f.timer) (f.queue) (f.enough) (f.timed) in
      (
        record s {
          hs = hs';
          fw = left_open;
          out = s.out ++ (tried socket (datagrams ((s.hs).peer_addr) (f.payloads))).0;
        },
        rw (is_open, future_write_cb)
            (rw (sent_before s (not unknown) sent) (
              rw (sent_before s unknown sent) (
                rw (unscheduled s fresh) (
                  rw (write_body-left_open fuel)
                    (rw (moved-unchanged s left_open fresh left_open-unsent) (rw flushed)))))),
        refl,
        refl,
        refl,
      )
