-- ===== src/Headers.antt =====
-- The table of headers of main/http_stream/headers.c.
pub mod Lookup
mod Examples
use gfhttpd.Base.{ℕ, Option, none, some, List, [], ◌∷◌, Run, ok, fault, Bytes, length, take}
use gfhttpd.Routes.Interfaces.{HashTable}

-- `headers`, the structure.
pub record HttpHeader : Type 0 where
  pub name : Bytes
  pub n_name : ℕ
  pub value : Bytes
  pub n_value : ℕ

unfoldable pub create_header : Bytes → ℕ → Bytes → ℕ → HttpHeader
create_header name n_name value n_value = record {
  name = name;
  n_name = n_name;
  value = value;
  n_value = n_value;
}

module _ (h : HashTable HttpHeader) where
  unfoldable pub add_header : HttpHeader → h.Table → h.Table
  add_header header headers = h.add (take (header.n_name) (header.name)) header headers

  unfoldable pub get_header : Bytes → h.Table → Option HttpHeader
  get_header name headers = h.find name headers

  -- The table after the call.
  unfoldable pub insert_header : Bytes → ℕ → Bytes → ℕ → h.Table → h.Table
  insert_header name n_name value n_value headers = elim (h.find name headers) [
    | none ↦
        h.add (take n_name name)
          record { name = name; n_name = n_name; value = value; n_value = n_value } headers
    | some _ ↦ h.modify (λ header. record header { value = value; n_value = n_value }) name headers
  ]

  unfoldable pub length_header : h.Table → ℕ
  length_header headers = length (h.items headers)

  -- HASH_DEL of a header that is not in the table is undefined.
  unfoldable pub delete_header : HttpHeader → h.Table → Run h.Table
  delete_header del_header headers =
      elim (h.find (take (del_header.n_name) (del_header.name)) headers) [
        | none ↦ fault
        | some _ ↦ ok (h.delete (take (del_header.n_name) (del_header.name)) headers)
      ]

  unfoldable pub delete_headers_loop : List (Bytes × HttpHeader) → h.Table → h.Table
  delete_headers_loop [] headers = headers
  delete_headers_loop ((key, current) ∷ rest) headers =
      delete_headers_loop rest (h.delete key headers)

  unfoldable pub delete_header_all : h.Table → h.Table
  unfolding delete_headers_loop
  delete_header_all headers = delete_headers_loop (h.items headers) headers
