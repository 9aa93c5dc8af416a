-- ===== src/Quic/Counting.antt =====
-- A transport for the examples: its payloads are tokens, and its connections count the packets that
-- they have to send, two at most.
use gfhttpd.Base.{
  ◌≡◌, ◌≤◌, refl, ℕ, zero, suc, true, false, none, some, [], ◌∷◌, ok, Bytes, bytes, length, pos,
  negsuc, arith, ◌==◌,
}
use gfhttpd.Timer.{set_timeout, timeval}
use gfhttpd.Quic.Api.{Transport, PacketHeader, Output, drained, failed, packet, processed}
use gfhttpd.Quic.{Socket}

abbrev pub count_down : ℕ → Output × ℕ
count_down zero = (drained, zero)
count_down (suc zero) = (packet (0 ∷ []), 0)
count_down (suc (suc zero)) = (packet (1 ∷ []), 1)
count_down (suc (suc (suc n))) = (failed, suc (suc (suc n)))

abbrev pub with_token : Bytes → PacketHeader
with_token token = record {
  version = 1;
  scid = [];
  dcid = bytes "0123456789abcdef";
  dcid_rest = [];
  token = token;
}

pub short_dcid :
    (payload : Bytes) (header : PacketHeader)
    → some (with_token payload) ≡ some header
    → length (header.dcid) ≤ 20
short_dcid payload header e = ground (arith, e)

abbrev pub counting : Transport
counting = record {
  Conn = ℕ;
  H3 = ℕ;
  header_info = λ payload. some (with_token payload);
  version_is_supported = λ version. version == 1;
  negotiate_version = λ scid dcid. some [];
  retry = λ scid dcid new token. some token;
  accept = λ cid odcid. some 2;
  recv = λ conn payload. (processed (length payload), conn);
  send = count_down;
  is_established = λ conn. false;
  is_closed = λ conn. false;
  timeout_as_nanos = λ conn. pos 5_000_000;
  on_timeout = λ conn. conn;
  new_with_transport = λ conn. none;
  poll = λ h3 conn. (none, (h3, conn));
  dcid_fits = short_dcid;
}

abbrev pub all_sent : Socket
all_sent = record {
  sendto = λ d. pos (length (d.payload));
  is_connected = false;
  send = λ payload. negsuc 0;
}

pub five_ms : set_timeout true (pos 5_000_000) ≡ ok (some record { tv_sec = pos 0; tv_usec = 5000 })
unfolding set_timeout timeval
five_ms = refl
