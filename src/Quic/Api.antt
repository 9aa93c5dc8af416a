-- ===== src/Quic/Api.antt =====
-- What main/http3 asks of quiche for a connection: QUIC packets and HTTP/3 events.
use gfhttpd.Base.{ℕ, ◌≡◌, ◌≤◌, Bool, Option, some, List, Bytes, length, ℤ}

-- What `quiche_header_info` finds in a packet. `dcid_rest` is what the buffer for the id holds
-- behind the bytes of the id.
pub record PacketHeader : Type 0 where
  pub version : ℕ
  pub scid : Bytes
  pub dcid : Bytes
  pub dcid_rest : Bytes
  pub token : Bytes

-- An event of `quiche_h3_conn_poll`, with the headers that `quiche_h3_event_for_each_header` gives.
pub data H3Event : Type 0 where
  headers_event : List (Bytes × Bytes) → H3Event
  data_event : H3Event
  finished_event : H3Event
  other_event : H3Event

-- `quiche_conn_send`: QUICHE_ERR_DONE, another error, or the bytes of a packet.
pub data Output : Type 0 where
  drained : Output
  failed : Output
  packet : Bytes → Output

-- `quiche_conn_recv`: QUICHE_ERR_DONE, another error, or the number of bytes.
pub data Input : Type 0 where
  done : Input
  refused : Input
  processed : ℕ → Input

-- QUICHE_MAX_CONN_ID_LEN
abbrev pub max_conn_id_len : ℕ
max_conn_id_len = 20

-- `none` stands for NULL or a negative result. A call that changes a connection gives it back.
pub record Transport : Type 1 where
  pub Conn : Type 0
  pub H3 : Type 0
  pub header_info : Bytes → Option PacketHeader
  pub version_is_supported : ℕ → Bool
  pub negotiate_version : Bytes → Bytes → Option Bytes
  pub retry : Bytes → Bytes → Bytes → Bytes → Option Bytes
  pub accept : Bytes → Bytes → Option Conn
  pub recv : Conn → Bytes → Input × Conn
  pub send : Conn → Output × Conn
  pub is_established : Conn → Bool
  pub is_closed : Conn → Bool
  pub timeout_as_nanos : Conn → ℤ
  pub on_timeout : Conn → Conn
  pub new_with_transport : Conn → Option H3
  pub poll : H3 → Conn → Option (ℕ × H3Event) × (H3 × Conn)
  pub dcid_fits :
      (payload : Bytes) (header : PacketHeader)
      → header_info payload ≡ some header
      → length (header.dcid) ≤ max_conn_id_len
