-- ===== src/Connections/Examples.antt =====
-- Two connections that come and go, with a structure that is its id.
use gfhttpd.Base.{refl, none, List, [], ◌∷◌, Bytes, bytes}
use gfhttpd.Routes.Listed.{listed}
use gfhttpd.Connections.Refines.{
  Op, added, deleted, Spec, Meets, Refines, run_calls, replay, run_calls-Refines,
}

abbrev cid : Bytes → Bytes
cid id = id

abbrev calls : List (Op Bytes)
calls =
    added (bytes "0123456789abcdef")
    ∷ added (bytes "fedcba9876543210")
    ∷ deleted (bytes "0123456789abcdef")
    ∷ []

abbrev nothing : Spec Bytes
nothing = record { lookup = λ k. none; count = 0 }

nothing-Meets : Meets Bytes cid listed [] nothing
unfolding gfhttpd.Connections.length_connection
nothing-Meets = record { distinct = tt; same_lookup = λ k. refl; same_count = refl }

run_calls-Refines_example :
    Refines Bytes cid listed (run_calls Bytes cid listed calls []) (replay Bytes cid calls nothing)
run_calls-Refines_example = run_calls-Refines Bytes cid listed calls [] nothing nothing-Meets
