-- ===== src/Http3/Examples.antt =====
-- A request for "/../secret" over HTTP/3, on a loop over a list of headers.
use gfhttpd.Base.{◌≡◌, ◌-◌, ◌^◌, refl, true, false, List, [], ◌∷◌, ◌++◌, Bytes, bytes, arith, c_str}
use gfhttpd.Path.{check_path}
use gfhttpd.Routes.Listed.{listed, prefixes}
use gfhttpd.Router.{root_router}
use gfhttpd.Router.Sample.{one_file, request}
use gfhttpd.Http3.{on_headers}
use gfhttpd.Http3.Looping.{looping, insert, empty_request}
use gfhttpd.Http3.Requests.{on_headers-root_router}

refused : check_path (c_str (bytes "/../secret")) ≡ false
unfolding check_path
refused = refl

on_headers-root_router_example :
    on_headers
      (List (Bytes × Bytes))
      insert
      looping
      prefixes
      listed
      one_file
      true
      []
      ((bytes ":method", bytes "GET") ∷ [] ++ (bytes ":path", bytes "/../secret") ∷ [])
      empty_request
      (request [])
    ≡ root_router prefixes listed one_file true []
        record (request []) { url = c_str (bytes "/../secret"); content_length = 2 ^ 64 - 1 }
on_headers-root_router_example =
    on_headers-root_router looping (List (Bytes × Bytes)) insert prefixes listed one_file true []
      ((bytes ":method", bytes "GET") ∷ []) (bytes "/../secret") [] empty_request (request [])
      (((λ e. absurd (ground arith)), (λ e. absurd (ground arith))), tt) refused
