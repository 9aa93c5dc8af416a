-- ===== src/Headers/Examples.antt =====
-- A second value for a header.
use gfhttpd.Base.{Bytes, bytes, List, [], ◌∷◌, length}
use gfhttpd.Routes.Listed.{listed}
use gfhttpd.Headers.{HttpHeader, insert_header}
use gfhttpd.Headers.Lookup.{IsInserted, insert_header-IsInserted}

abbrev status : List (Bytes × HttpHeader)
status =
    (
      bytes ":status",
      record { name = bytes ":status"; n_name = 7; value = bytes "200"; n_value = 3 },
    )
    ∷ []

insert_header-IsInserted_example :
    IsInserted listed
      (bytes ":status")
      (bytes "404")
      3
      status
      (insert_header listed (bytes ":status") (length (bytes ":status")) (bytes "404") 3 status)
insert_header-IsInserted_example =
    insert_header-IsInserted listed (bytes ":status") (bytes "404") 3 status
