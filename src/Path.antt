-- ===== src/Path.antt =====
-- The path checks of main/router/router.c: `ends_with` and `check_path`.
pub mod Segments
mod Examples
use gfhttpd.Base.{
  ℕ, ◌-◌, Bool, true, false, not, ◌&&◌, List, [], ◌∷◌, Bytes, bytes, length, drop, ltb, ◌==◌,
  if◌then◌else◌, starts_with, strstr, strchr,
}

unfoldable pub ends_with : Bytes → Bytes → Bool
ends_with s sub =
    if ltb (length s) (length sub) then false else starts_with (drop (length s - length sub) s) sub

-- `path[0] && path[0] == '/'`
abbrev pub is_rooted : Bytes → Bool
is_rooted [] = false
is_rooted (c ∷ s) = c == b'/'

unfoldable pub check_path : Bytes → Bool
unfolding ends_with
check_path path =
    is_rooted path
    && not (strchr path b'\\')
    && not (strstr path (bytes "/../"))
    && not (strstr path (bytes "/./"))
    && not (ends_with path (bytes "/.."))
    && not (ends_with path (bytes "/."))
