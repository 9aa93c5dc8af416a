-- ===== src/Modules/Examples.antt =====
-- A chain of three modules whose second fails.
use gfhttpd.Base.{
  ◌≡◌, ℕ, ◌+◌, if◌then◌else◌, refl, ok, arith, pos, negsuc, Bytes, bytes, bytes_eq, [], ◌∷◌,
}
use gfhttpd.Routes.{Module, golang}
use gfhttpd.Modules.{State, Bridge, event_loop}
use gfhttpd.Modules.Order.{run_all, started, AgreesWith, event_loop-AgreesWith}

-- The world counts the calls; the module "b" fails.
abbrev counting : Bridge ℕ
counting = record {
  go_golang = λ w name. (if bytes_eq name (bytes "b") then negsuc 0 else pos 0, w + 1);
  evtimer_add = pos 0;
}

abbrev named : Bytes → Module
named name = record { name = name; module_type = golang }

event_loop-AgreesWith_example :
    (st : State ℕ) × (event_loop counting 4
        (started counting (named (bytes "a") ∷ named (bytes "b") ∷ named (bytes "c") ∷ []) 0 [])
      ≡ ok st)
    × AgreesWith counting
        (run_all counting (named (bytes "a") ∷ named (bytes "b") ∷ named (bytes "c") ∷ []) 0)
        []
        st
event_loop-AgreesWith_example =
    event_loop-AgreesWith counting 4 (named (bytes "a"))
      (named (bytes "b") ∷ named (bytes "c") ∷ []) 0 [] refl (omega arith)
