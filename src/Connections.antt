-- ===== src/Connections.antt =====
-- The table of connections of main/http_stream/http_stream.c, with `head` as the table.
pub mod Distinct
pub mod Refines
mod Examples
use gfhttpd.Base.{ℕ, Option, none, some, List, [], ◌∷◌, Run, ok, fault, ◌>>=◌, Bytes, length, take}
use gfhttpd.Routes.Interfaces.{HashTable}

-- LOCAL_CONN_ID_LEN
abbrev pub local_conn_id_len : ℕ
local_conn_id_len = 16

-- `S` stands for `struct http_stream`, of which the table reads the field `cid` only.
module _ (S : Type 0) (cid : S → Bytes) (h : HashTable S) where
  unfoldable pub get_connection : Bytes → h.Table → Option S
  get_connection id head = h.find (take local_conn_id_len id) head

  -- A known id has its structure overwritten, the hash handle of the table included: what is left
  -- is no table, and any further use of it is undefined.
  unfoldable pub add_connection : S → h.Table → Run h.Table
  unfolding get_connection
  add_connection hs head = elim (get_connection (cid hs) head) [
    | none ↦ ok (h.add (take local_conn_id_len (cid hs)) hs head)
    | some _ ↦ fault
  ]

  -- HASH_DEL of a structure that is not in the table is undefined. A structure is known by its id:
  -- the model takes another structure with an id of the table for the one in it, and the callers
  -- delete only structures that they have added.
  unfoldable pub delete_connection : S → h.Table → Run h.Table
  unfolding get_connection
  delete_connection hs head = elim (get_connection (cid hs) head) [
    | none ↦ fault
    | some _ ↦ ok (h.delete (take local_conn_id_len (cid hs)) head)
  ]

  unfoldable pub connections_iter : h.Table → List (Bytes × S)
  connections_iter head = h.items head

  unfoldable pub delete_each : List (Bytes × S) → h.Table → h.Table
  delete_each [] head = head
  delete_each ((id, hs) ∷ rest) head = delete_each rest (h.delete id head)

  unfoldable pub delete_connections_all : h.Table → h.Table
  unfolding delete_each connections_iter
  delete_connections_all head = delete_each (connections_iter head) head

  unfoldable pub length_connection : h.Table → ℕ
  length_connection head = length (h.items head)
