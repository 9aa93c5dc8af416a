-- ===== src/Start/Unlistened.antt =====
-- What becomes of `run` of main/gfhttpd.c when a listener cannot be made.
use gfhttpd.Base.{
  ◌≡◌, refl, ◌⊎◌, inl, inr, true, false, none, some, List, [], ◌∷◌, ◌++◌, ok, fault, ◌∙◌,
  if◌then◌else◌, ℤ, pos, is_negative, arith, Bool-cases,
}
use gfhttpd.Start.{
  ssl_ctx, connections, http3_event, watchdog, Step, taken, released, looped, StartSystem,
  AppContext, Started, initialize_app_context, create_ssl_ctx, http2_start_listen, http3_init_sock,
  http3_init_config, http3_listen_event, http3_listen_with, http3_start_listen, http2_cleanup,
  http3_cleanup_end, run_loop, shut_down, run_logged, run,
}
use gfhttpd.Start.Shutdown.{IsLogging, IsAsserted, plog, run-logged}

module _ (sys : StartSystem) (log : IsLogging sys) (ctx : sys.ssl_ctx_new ≡ true) where
  listen_fails :
      (app_ctx : AppContext) (sock config : ℤ × List Step)
      → (is_negative (sock.0) ≡ true) ⊎ (is_negative (config.0) ≡ true)
      → (steps : List Step) × (http3_listen_with sys app_ctx sock config
          ≡ ok record { ret = pos 1; app_ctx = app_ctx; steps = steps })
  unfolding http3_listen_with
  listen_fails app_ctx (sock, made) (config, configs) bad = elim (Bool-cases (is_negative sock)) [
    | inl no_socket ↦ (made, rw no_socket)
    | inr socket ↦ elim bad [
      | inl no_socket ↦ absurd (ground arith)
      | inr no_config ↦ (made ++ configs, rw (socket, no_config))
    ]
  ]

  listen_works :
      (app_ctx : AppContext) (sock config : ℤ × List Step)
      → IsAsserted sys
      → is_negative (sock.0) ≡ false
      → is_negative (config.0) ≡ false
      → (http3 : Started) × (http3_listen_with sys app_ctx sock config ≡ ok http3)
        × ((http3.app_ctx).evaccept_http2 ≡ app_ctx.evaccept_http2)
  unfolding http3_listen_with http3_listen_event
  listen_works app_ctx (sock, made) (config, configs) a s c = (
    record {
      ret = if is_negative (sys.event_add) then pos 1 else pos 0;
      app_ctx = record app_ctx { conns = some sock; evaccept_http3 = true };
      steps = ((made ++ configs) ++ taken connections ∷ []) ++ taken http3_event ∷ [];
    },
    rw (s, c, a.nonblocking, a.made),
    refl,
  )

  -- The context after the HTTP/2 listener.
  abbrev started : AppContext
  started = record { evaccept_http3 = false; evaccept_http2 = sys.listener; conns = none }

  http2_start_listen-started : (http2_start_listen sys initialize_app_context).app_ctx ≡ started
  unfolding http2_start_listen initialize_app_context
  http2_start_listen-started = elim (Bool-cases (sys.listener)) [
    | inl yes' ↦ rw yes'
    | inr no' ↦ rw no'
  ]

  -- The event loop, with the event for SIGINT.
  abbrev pub waited : List Step
  waited = taken watchdog ∷ looped ∷ released watchdog ∷ []

  -- The run enters the event loop and comes out of it, and the clean-up is undefined.
  pub record IsUndefinedAtEnd : Type 0 where
    pub app_ctx : AppContext
    pub steps : List Step
    pub loops : run_loop sys ≡ ok (app_ctx, steps ++ waited)
    pub clean_up_faults : shut_down app_ctx (plog sys log ctx) ≡ fault
    pub faults : run sys ≡ fault

  run_loop-ends :
      (http3 : Started)
      → http3_listen_with sys started (http3_init_sock sys) (http3_init_config sys) ≡ ok http3
      → (steps : List Step) × (run_loop sys ≡ ok (http3.app_ctx, steps ++ waited))
  unfolding run_loop create_ssl_ctx http3_start_listen
  run_loop-ends http3 e = (
    (taken ssl_ctx ∷ []) ++ (http2_start_listen sys initialize_app_context).steps ++ http3.steps,
    rw (ctx, run_loop) (rw http2_start_listen-started (rw e refl)),
  )

  shut_down-faults :
      (app_ctx : AppContext)
      → (app_ctx.evaccept_http2 ≡ false) ⊎ (app_ctx.conns ≡ none)
      → shut_down app_ctx (plog sys log ctx) ≡ fault
  unfolding shut_down http2_cleanup http3_cleanup_end
  shut_down-faults app_ctx bad = elim (Bool-cases (app_ctx.evaccept_http2)) [
    | inr no_http2 ↦ rw no_http2
    | inl http2 ↦ elim bad [
      | inl no_http2 ↦ absurd (ground arith)
      | inr no_http3 ↦ rw (http2, no_http3)
    ]
  ]

  run-shuts :
      (http3 : Started)
      → http3_listen_with sys started (http3_init_sock sys) (http3_init_config sys) ≡ ok http3
      → ((http3.app_ctx).evaccept_http2 ≡ false) ⊎ ((http3.app_ctx).conns ≡ none)
      → IsUndefinedAtEnd
  unfolding run_logged
  run-shuts http3 e bad =
      let (steps, done) = run_loop-ends http3 e in
      let undefined = shut_down-faults (http3.app_ctx) bad in
      record {
        app_ctx = http3.app_ctx;
        steps = steps;
        loops = done;
        clean_up_faults = undefined;
        faults = run-logged sys log ctx ∙ rw (done, run_logged) (rw undefined);
      }

  http3_faults :
      (is_negative (http3_init_sock sys).0 ≡ true) ⊎ (is_negative (http3_init_config sys).0 ≡ true)
      → IsUndefinedAtEnd
  http3_faults bad =
      let (steps, e) = listen_fails started (http3_init_sock sys) (http3_init_config sys) bad in
      run-shuts record { ret = pos 1; app_ctx = started; steps = steps } e (inr refl)

  -- Where the log and the TLS context can be made and the asserts hold, a listener that cannot be
  -- made, be it the one of HTTP/2, the socket or the configuration of HTTP/3, does not stop `run`:
  -- the event loop is entered and left, and then the clean-up reads through a NULL pointer.
  pub run-faults :
      IsAsserted sys
      → (sys.listener ≡ false)
        ⊎ ((is_negative (http3_init_sock sys).0 ≡ true)
            ⊎ (is_negative (http3_init_config sys).0 ≡ true))
      → IsUndefinedAtEnd
  run-faults a (inr bad) = http3_faults bad
  run-faults a (inl no_http2) = elim (Bool-cases (is_negative (http3_init_sock sys).0)) [
    | inl bad ↦ http3_faults (inl bad)
    | inr socket ↦ elim (Bool-cases (is_negative (http3_init_config sys).0)) [
      | inl bad ↦ http3_faults (inr bad)
      | inr config ↦
          (let (http3, e, same) =
              listen_works started (http3_init_sock sys) (http3_init_config sys) a socket config in
            run-shuts http3 e (inl (same ∙ no_http2)))
    ]
  ]
