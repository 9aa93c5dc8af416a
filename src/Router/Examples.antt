-- ===== src/Router/Examples.antt =====
-- Requests on a system whose only file is "a/b", of 5 bytes.
use gfhttpd.Base.{◌≡◌, ◌↔◌, ◌<◌, ◌^◌, refl, ok, arith, pos, bytes, [], ◌∷◌, true}
use gfhttpd.Routes.Listed.{listed, prefixes}
use gfhttpd.Routes.{Route}
use gfhttpd.Path.{check_path}
use gfhttpd.Router.Calls.{System}
use gfhttpd.Router.{Stream, Reply, root_router, open_file, skip_slashes}
use gfhttpd.Router.Sample.{one_file, one_file-IsWorking, request}
use gfhttpd.Router.Files.{IsSafeReply, root_router-IsSafeReply, open_file-content_length_iff}
use gfhttpd.Router.Serving.{Served, root_router-Served}

abbrev answer : Reply
answer = record {
  fd = pos 5;
  stream = record (request (bytes "/a/b")) { content_length = 5 };
  calls = gfhttpd.Router.Calls.opened (bytes "a/b") ∷ [];
}

answered : root_router prefixes listed one_file true [] (request (bytes "/a/b")) ≡ ok answer
unfolding root_router gfhttpd.Router.find_route gfhttpd.Routes.get_route gfhttpd.Routes.match_route
    gfhttpd.Routes.match_loop gfhttpd.Router.serve gfhttpd.Router.or_not_found open_file
    skip_slashes
answered = refl

checked : check_path (bytes "/a/b") ≡ true
unfolding check_path
checked = refl

root_router-IsSafeReply_example : IsSafeReply (bytes "/a/b") answer
root_router-IsSafeReply_example =
    root_router-IsSafeReply prefixes listed one_file true [] (request (bytes "/a/b")) answer checked
      answered

root_router-Served_example :
    (reply : Reply) × (root_router prefixes listed one_file true [] (request (bytes "//none"))
      ≡ ok reply)
    × Served prefixes listed one_file [] (request (bytes "//none")) reply
root_router-Served_example =
    root_router-Served prefixes listed one_file [] (request (bytes "//none")) one_file-IsWorking
      refl (omega arith) tt

open_file-content_length_iff_example :
    (Stream.content_length (Reply.stream (open_file one_file (request (bytes "/a/b")))) ≡ 5)
    ↔ (5 < 2 ^ 31)
open_file-content_length_iff_example =
    open_file-content_length_iff one_file (request (bytes "/a/b")) 5 refl (omega arith)
