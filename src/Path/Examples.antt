-- ===== src/Path/Examples.antt =====
-- An example for the path check of main/router/router.c.
use gfhttpd.Base.{◌≡◌, ◌↔◌, true, bytes}
use gfhttpd.Path.{check_path}
use gfhttpd.Path.Segments.{IsSafePath, check_path_iff}

check_path_iff_example : (check_path (bytes "/a/../b") ≡ true) ↔ IsSafePath (bytes "/a/../b")
check_path_iff_example = check_path_iff (bytes "/a/../b")
