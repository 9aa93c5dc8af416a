-- ===== src/Modules.antt =====
-- The modules' callback of main/router/module_cb.c, and the event loop that calls it.
pub mod Order
mod Examples
use gfhttpd.Base.{
  ℕ, zero, suc, Bool, true, false, List, [], ◌∷◌, ◌++◌, Run, ok, fault, out_of_fuel, ◌>>=◌, Bytes,
  if◌then◌else◌, ℤ, pos, negsuc, is_negative,
}
use gfhttpd.Routes.{Module, ModuleType, golang, rust, other}

-- The event `module_cb_ev`: added with its timer, only allocated, or freed.
pub data Event : Type 0 where
  pending : Event
  allocated : Event
  freed : Event

module _ (W : Type 0) where
  -- The state: the chain from the current module on, the event, what else the modules change,
  -- and the names that were handed to the Go bridge.
  pub record State : Type 0 where
    pub modules_chain : List Module
    pub module_cb_ev : Event
    pub world : W
    pub ran : List Bytes

  -- What the modules and the timers answer: `Go_golang` with a module's name, which may change
  -- the world, and `evtimer_add`.
  pub record Bridge : Type 0 where
    pub go_golang : W → Bytes → ℤ × W
    pub evtimer_add : ℤ

module _ {W : Type 0} (bridge : Bridge W) where
  -- The `switch` of `module_cb`: `ret`, and the state after the call.
  unfoldable pub call_module : Module → State W → ℤ × State W
  call_module m st = elim (m.module_type) [
    | golang ↦
        (let (ret, world) = bridge.go_golang (st.world) (m.name) in
          (ret, record st { world = world; ran = st.ran ++ m.name ∷ [] }))
    | rust ↦ (negsuc 0, st)
    | other ↦ (negsuc 0, st)
  ]

  -- The rest of `module_cb` when the module did not fail: `next` is what follows in the chain.
  unfoldable pub advance : List Module → State W → State W
  advance [] st = record st { module_cb_ev = freed }
  advance (m ∷ next) st = record st {
    modules_chain = m ∷ next;
    module_cb_ev = if is_negative (bridge.evtimer_add) then allocated else pending;
  }

  -- `ret < 0` ends the callback.
  abbrev pub after_call : List Module → ℤ × State W → State W
  after_call next (ret, st) = if is_negative ret then st else advance next st

  unfoldable pub module_cb : State W → Run (State W)
  module_cb st = elim (st.modules_chain) [
    | [] ↦ fault
    | m ∷ next ↦ ok (after_call next (call_module m st))
  ]

  -- The event loop: a pending event fires once, is then allocated, and its callback runs.
  unfoldable pub event_loop : ℕ → State W → Run (State W)
  event_loop zero st = out_of_fuel
  event_loop (suc fuel) st = elim (st.module_cb_ev) [
    | pending ↦ module_cb record st { module_cb_ev = allocated } >>= λ st'. event_loop fuel st'
    | allocated ↦ ok st
    | freed ↦ ok st
  ]
