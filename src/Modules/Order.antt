-- ===== src/Modules/Order.antt =====
-- The modules of a request run one after the other, up to the first that fails.
use gfhttpd.Base.{
  ℕ, zero, suc, ◌<◌, ◌≡◌, refl, ap, sym, ◌∙◌, Bool, true, false, not, List, [], ◌∷◌, ◌++◌, ok,
  Bytes, if◌then◌else◌, ℤ, pos, negsuc, is_negative, length, arith, Bool-cases, inl, inr, append-[],
  append_assoc,
}
use gfhttpd.Routes.{Module, ModuleType, golang, rust, other}
use gfhttpd.Modules.{
  pending, allocated, freed, State, Bridge, call_module, advance, module_cb, event_loop,
}

module _ {W : Type 0} (bridge : Bridge W) where
  -- One module: whether it succeeds, and the world and names after it.
  unfoldable pub run_one : Module → W → Bool × W × List Bytes
  run_one m w = elim (m.module_type) [
    | golang ↦
        (let (ret, w') = bridge.go_golang w (m.name) in
          (if is_negative ret then false else true, w', m.name ∷ []))
    | rust ↦ (false, w, [])
    | other ↦ (false, w, [])
  ]

  -- All modules of a list, up to the first that fails.
  unfoldable pub run_all : List Module → W → Bool × W × List Bytes
  unfolding run_one
  run_all [] w = (true, w, [])
  run_all (m ∷ ms) w =
      let (fine, w', names) = run_one m w in
      let (fine', w'', names') = run_all ms w' in
      if fine then (fine', w'', names ++ names') else (false, w', names)

  -- The state after a module: `ended` when the chain stops there.
  abbrev ended : List Module → W → List Bytes → State W
  ended chain w ran = record {
    modules_chain = chain;
    module_cb_ev = allocated;
    world = w;
    ran = ran;
  }

  negative_lem : (n : ℤ) → is_negative n ≡ not (if is_negative n then false else true)
  negative_lem (pos n) = refl
  negative_lem (negsuc n) = refl

  call_lem :
      (m : Module) (chain : List Module) (w : W) (ran : List Bytes) (t : ModuleType)
      → m.module_type ≡ t
      → (is_negative (call_module bridge m (ended chain w ran)).0 ≡ not (run_one m w).0)
        × ((call_module bridge m (ended chain w ran)).1
            ≡ ended chain (run_one m w).1 (ran ++ (run_one m w).2))
  unfolding call_module run_one
  call_lem m chain w ran golang e = (
    rw (e, call_module, run_one) (negative_lem (bridge.go_golang w (m.name)).0),
    rw (e, call_module, run_one),
  )
  call_lem m chain w ran rust e =
      (rw (e, call_module, run_one), rw (e, call_module, run_one, append-[] ran))
  call_lem m chain w ran other e =
      (rw (e, call_module, run_one), rw (e, call_module, run_one, append-[] ran))

  module_cb-ended :
      (m : Module) (ms : List Module) (w : W) (ran : List Bytes)
      → module_cb bridge (ended (m ∷ ms) w ran)
        ≡ ok (
            if (run_one m w).0
            then advance bridge ms (ended (m ∷ ms) (run_one m w).1 (ran ++ (run_one m w).2))
            else ended (m ∷ ms) (run_one m w).1 (ran ++ (run_one m w).2))
  unfolding module_cb
  module_cb-ended m ms w ran =
      let (fails, after) = call_lem m (m ∷ ms) w ran (m.module_type) refl in
      rw (after) (ground (arith, fails))

  -- The state in which `root_router` leaves a chain.
  abbrev pub started : List Module → W → List Bytes → State W
  started chain w ran = record {
    modules_chain = chain;
    module_cb_ev = pending;
    world = w;
    ran = ran;
  }

  loop_fails :
      (fuel : ℕ) (m : Module) (ms : List Module) (w : W) (ran : List Bytes)
      → (run_one m w).0 ≡ false
      → event_loop bridge (suc (suc fuel)) (started (m ∷ ms) w ran)
        ≡ ok (ended (m ∷ ms) (run_one m w).1 (ran ++ (run_one m w).2))
  unfolding event_loop
  loop_fails fuel m ms w ran fails = rw (module_cb-ended m ms w ran, fails)

  loop_ends :
      (fuel : ℕ) (m : Module) (w : W) (ran : List Bytes)
      → (run_one m w).0 ≡ true
      → event_loop bridge (suc (suc fuel)) (started (m ∷ []) w ran)
        ≡ ok record {
          modules_chain = m ∷ [];
          module_cb_ev = freed;
          world = (run_one m w).1;
          ran = ran ++ (run_one m w).2;
        }
  unfolding event_loop advance
  loop_ends fuel m w ran fine = rw (module_cb-ended m [] w ran, fine)

  loop_goes_on :
      (fuel : ℕ) (m m' : Module) (ms : List Module) (w : W) (ran : List Bytes)
      → is_negative (bridge.evtimer_add) ≡ false
      → (run_one m w).0 ≡ true
      → event_loop bridge (suc fuel) (started (m ∷ m' ∷ ms) w ran)
        ≡ event_loop bridge fuel (started (m' ∷ ms) (run_one m w).1 (ran ++ (run_one m w).2))
  unfolding event_loop advance
  loop_goes_on fuel m m' ms w ran adds fine = rw (module_cb-ended m (m' ∷ ms) w ran, fine, adds)

  run_all-fails :
      (m : Module) (ms : List Module) (w : W)
      → (run_one m w).0 ≡ false
      → run_all (m ∷ ms) w ≡ (false, (run_one m w).1, (run_one m w).2)
  unfolding run_all
  run_all-fails m ms w fails = rw fails

  run_all-goes_on :
      (m : Module) (ms : List Module) (w : W)
      → (run_one m w).0 ≡ true
      → run_all (m ∷ ms) w ≡ (
        (run_all ms (run_one m w).1).0,
        (run_all ms (run_one m w).1).1,
        (run_one m w).2 ++ (run_all ms (run_one m w).1).2,
      )
  unfolding run_all
  run_all-goes_on m ms w fine = rw fine

  -- The state agrees with the outcome of a list of modules that runs after `ran`.
  pub record AgreesWith (outcome : Bool × W × List Bytes) (ran : List Bytes) (st : State W)
      : Type 0 where
    pub same_world : st.world ≡ outcome.1
    pub same_names : st.ran ≡ ran ++ outcome.2
    pub event : st.module_cb_ev ≡ (if outcome.0 then freed else allocated)

  -- For a chain that is not empty, with its event pending and timers that can be added, the event
  -- loop ends after one round for each module at most: the modules have run in the chain's order
  -- up to the first that fails. The event is freed if all succeeded, else it stays allocated.
  pub event_loop-AgreesWith :
      (fuel : ℕ) (m : Module) (ms : List Module) (w : W) (ran : List Bytes)
      → is_negative (bridge.evtimer_add) ≡ false
      → length (m ∷ ms) < fuel
      → (st : State W) × (event_loop bridge fuel (started (m ∷ ms) w ran) ≡ ok st)
        × AgreesWith (run_all (m ∷ ms) w) ran st
  event_loop-AgreesWith zero m ms w ran adds enough = absurd (omega arith)
  event_loop-AgreesWith (suc zero) m ms w ran adds enough = absurd (omega arith)
  event_loop-AgreesWith (suc (suc fuel)) m [] w ran adds enough =
      elim (Bool-cases (run_one m w).0) [
        | inl fine ↦ (
          _,
          loop_ends fuel m w ran fine,
          rw (run_all-goes_on m [] w fine) record {
            same_world = unfold run_all in refl;
            same_names = unfold run_all in ap (ran ++◌) (sym (append-[] (run_one m w).2));
            event = unfold run_all in refl;
          },
        )
        | inr fails ↦ (
          _,
          loop_fails fuel m [] w ran fails,
          rw (run_all-fails m [] w fails)
              record { same_world = refl; same_names = refl; event = refl },
        )
      ]
  event_loop-AgreesWith (suc (suc fuel)) m (m' ∷ ms) w ran adds enough =
      elim (Bool-cases (run_one m w).0) [
        | inl fine ↦
            (let (st, done, agrees) =
                event_loop-AgreesWith (suc fuel) m' ms (run_one m w).1 (ran ++ (run_one m w).2) adds
                  (omega (arith, enough)) in
              (
                st,
                loop_goes_on (suc fuel) m m' ms w ran adds fine ∙ done,
                rw (run_all-goes_on m (m' ∷ ms) w fine) record {
                  same_world = agrees.same_world;
                  same_names = agrees.same_names ∙ append_assoc ran (run_one m w).2 _;
                  event = agrees.event;
                },
              ))
        | inr fails ↦ (
          _,
          loop_fails fuel m (m' ∷ ms) w ran fails,
          rw (run_all-fails m (m' ∷ ms) w fails)
              record { same_world = refl; same_names = refl; event = refl },
        )
      ]
