-- ===== src/Start/Shutdown.antt =====
-- What `run` of main/gfhttpd.c takes and gives back.
use gfhttpd.Base.{
  ℕ, ◌≡◌, refl, true, false, Option, none, some, List, [], ◌∷◌, ◌++◌, ok, ◌==◌, ◌∙◌, if◌then◌else◌,
  pos, is_negative,
}
use gfhttpd.Log.{Logger, init_log, destroy_log}
use gfhttpd.Start.{
  Resource, event_base, ssl_ctx, http2_listener, http3_socket, quiche_config, h3_config,
  connections, http3_event, watchdog, log_pipe, Step, taken, released, looped, StartSystem,
  AppContext, initialize_app_context, create_ssl_ctx, http2_start_listen, http3_init_sock,
  http3_init_config, http3_listen_event, http3_listen_with, http3_start_listen, http2_cleanup,
  http3_cleanup_end, run_loop, shut_down, new_log, run_logged, run,
}

-- A number for each resource.
abbrev code : Resource → ℕ
code event_base = 0
code ssl_ctx = 1
code http2_listener = 2
code http3_socket = 3
code quiche_config = 4
code h3_config = 5
code connections = 6
code http3_event = 7
code watchdog = 8
code log_pipe = 9

-- A resource that is held is given back once; `none` if it is not held.
abbrev give_back : Resource → List Resource → Option (List Resource)
give_back r [] = none
give_back r (r' ∷ held) =
    let rest = give_back r held in
    if code r == code r'
    then some held
    else elim rest [ none ↦ none | some held' ↦ some (r' ∷ held') ]

-- What is held after the steps; `none` if something is given back that is not held.
abbrev pub held_after : List Step → List Resource → Option (List Resource)
held_after [] held = some held
held_after (taken r ∷ steps) held = held_after steps (r ∷ held)
held_after (released r ∷ steps) held = elim (give_back r held) [
  | none ↦ none
  | some held' ↦ held_after steps held'
]
held_after (looped ∷ steps) held = held_after steps held

-- The log is set up.
pub record IsLogging (sys : StartSystem) : Type 0 where
  pub piped : (sys.log).pipe.0 ≡ pos 0
  pub first : (sys.log).set_nonblocking ((sys.log).pipe.1.0) ≡ pos 0
  pub second : (sys.log).set_nonblocking ((sys.log).pipe.1.1) ≡ pos 0
  pub made : (sys.log).event_new ≡ true
  pub added : (sys.log).event_add ≡ pos 0

-- All calls of the listeners succeed; `sock` is the socket.
pub record IsListening (sys : StartSystem) : Type 0 where
  pub sock : ℕ
  pub listens : sys.listener ≡ true
  pub has_socket : sys.socket ≡ pos sock
  pub nonblocking : sys.set_nonblock ≡ pos 0
  pub bound : is_negative (sys.bind) ≡ false
  pub config : sys.config_new ≡ true
  pub cert : sys.load_cert ≡ pos 0
  pub key : sys.load_key ≡ pos 0
  pub h3 : sys.h3_config_new ≡ true

-- The asserts of the HTTP/3 listener hold.
pub record IsAsserted (sys : StartSystem) : Type 0 where
  pub nonblocking : is_negative (sys.make_nonblocking) ≡ false
  pub made : sys.event_new ≡ true

module _ (sys : StartSystem) (log : IsLogging sys) (ctx : sys.ssl_ctx_new ≡ true) where
  abbrev pub plog : Logger
  plog = record { fds_pipe = (sys.log).pipe.1; level = 0; evpipe = true }

  logged : init_log (sys.log) (some new_log) ≡ ok (pos 0, some plog)
  unfolding init_log
  logged =
      rw (log.piped, init_log) (rw (log.first) (rw (log.second) (rw (log.made) (rw (log.added)))))

  pub run-logged : run sys ≡ run_logged sys (pos 0, some plog)
  unfolding run
  run-logged = rw (logged, run)

  module _ (l : IsListening sys) where
    http3_init_sock-made : http3_init_sock sys ≡ (pos (l.sock), taken http3_socket ∷ [])
    unfolding http3_init_sock
    http3_init_sock-made = rw (l.has_socket, http3_init_sock) (rw (l.nonblocking) (rw (l.bound)))

    http3_init_config-made :
        http3_init_config sys ≡ (pos 0, taken quiche_config ∷ taken h3_config ∷ [])
    unfolding http3_init_config
    http3_init_config-made = rw (l.config, http3_init_config) (rw (l.cert) (rw (l.key) (rw (l.h3))))

    http2_start_listen-made :
        (app_ctx : AppContext)
        → http2_start_listen sys app_ctx ≡ record {
          ret = pos 0;
          app_ctx = record app_ctx { evaccept_http2 = true };
          steps = taken http2_listener ∷ [];
        }
    unfolding http2_start_listen
    http2_start_listen-made app_ctx = rw (l.listens, http2_start_listen)

    module _ (a : IsAsserted sys) where
      -- What `run_loop` leaves.
      abbrev listening : AppContext
      listening = record {
        evaccept_http3 = true;
        evaccept_http2 = true;
        conns = some (pos (l.sock));
      }

      abbrev served : List Step
      served =
          taken ssl_ctx
          ∷ taken http2_listener
          ∷ taken http3_socket
          ∷ taken quiche_config
          ∷ taken h3_config
          ∷ taken connections
          ∷ taken http3_event
          ∷ taken watchdog
          ∷ looped
          ∷ released watchdog
          ∷ []

      run_loop-served : run_loop sys ≡ ok (listening, served)
      unfolding run_loop create_ssl_ctx http3_start_listen http3_listen_with http3_listen_event
          initialize_app_context
      run_loop-served =
          rw (ctx, run_loop)
            (rw (http2_start_listen-made initialize_app_context) (
              rw http3_init_sock-made
                (rw http3_init_config-made (rw (a.nonblocking) (rw (a.made))))))

  abbrev ended : List Step
  ended =
      released http2_listener
      ∷ released http3_socket
      ∷ released connections
      ∷ released http3_event
      ∷ released h3_config
      ∷ released quiche_config
      ∷ released log_pipe
      ∷ released event_base
      ∷ released ssl_ctx
      ∷ []

  -- Where the log, the TLS context and the listeners can be made, `run` ends, and it has given back
  -- each of the things that it took, no thing twice.
  pub run-gives_back :
      IsListening sys
      → IsAsserted sys
      → (steps : List Step) × (run sys ≡ ok steps) × (held_after steps [] ≡ some [])
  unfolding run_logged shut_down http2_cleanup http3_cleanup_end destroy_log
  run-gives_back l a = (
    (taken event_base ∷ taken log_pipe ∷ []) ++ served l a ++ ended,
    run-logged ∙ rw (run_loop-served l a, run_logged),
    refl,
  )
