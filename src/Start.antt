-- ===== src/Start.antt =====
-- The listeners of main/http2/listen.c and main/http3/listen.c, the set-up of main/http3/http3.c
-- and main/ssl.c, and `run` of main/gfhttpd.c.
pub mod Options
pub mod Chosen
pub mod Shutdown
pub mod Unlistened
mod Examples
use gfhttpd.Base.{
  ℕ, Bool, true, false, not, Option, none, some, List, [], ◌∷◌, ◌++◌, Run, ok, fault, abort, ◌>>=◌,
  ◌>>◌, Bytes, bytes, if◌then◌else◌, ℤ, pos, negsuc, is_negative, is_zero, c_str,
}
use gfhttpd.Log.{Logger, LogSystem, init_log, destroy_log}

-- What is taken from the libraries and the system, and given back.
pub data Resource : Type 0 where
  event_base : Resource
  ssl_ctx : Resource
  http2_listener : Resource
  http3_socket : Resource
  quiche_config : Resource
  h3_config : Resource
  connections : Resource
  http3_event : Resource
  watchdog : Resource
  log_pipe : Resource

pub data Step : Type 0 where
  taken : Resource → Step
  released : Resource → Step
  looped : Step

-- What `run` asks for: results of the calls, and whether a pointer is not NULL.
pub record StartSystem : Type 0 where
  pub log : LogSystem
  pub ssl_ctx_new : Bool
  pub listener : Bool
  pub socket : ℤ
  pub set_nonblock : ℤ
  pub bind : ℤ
  pub config_new : Bool
  pub load_cert : ℤ
  pub load_key : ℤ
  pub h3_config_new : Bool
  pub make_nonblocking : ℤ
  pub event_new : Bool
  pub event_add : ℤ

-- `app_context`, without what stays as it is; `conns` is the socket in it.
pub record AppContext : Type 0 where
  pub evaccept_http3 : Bool
  pub evaccept_http2 : Bool
  pub conns : Option ℤ

unfoldable pub initialize_app_context : AppContext
initialize_app_context = record { evaccept_http3 = false; evaccept_http2 = false; conns = none }

-- The first byte is the length; `next_proto_list` holds 256 bytes.
unfoldable pub http2_init_proto_list : Bytes × ℕ
http2_init_proto_list = (2 ∷ bytes "h2", 3)

-- A context that is NULL is only logged, and used. So is a key or a certificate that cannot be
-- read, which changes nothing here.
unfoldable pub create_ssl_ctx : StartSystem → Run (List Step)
create_ssl_ctx sys = if sys.ssl_ctx_new then ok (taken ssl_ctx ∷ []) else fault

-- A result of a function, the context, and the steps.
pub record Started : Type 0 where
  pub ret : ℤ
  pub app_ctx : AppContext
  pub steps : List Step

unfoldable pub http2_start_listen : StartSystem → AppContext → Started
http2_start_listen sys app_ctx =
    if not (sys.listener)
    then record { ret = pos 1; app_ctx = record app_ctx { evaccept_http2 = false }; steps = [] }
    else record {
      ret = pos 0;
      app_ctx = record app_ctx { evaccept_http2 = true };
      steps = taken http2_listener ∷ [];
    }

-- The socket that is made stays open where the call fails later.
unfoldable pub http3_init_sock : StartSystem → ℤ × List Step
http3_init_sock sys =
    if is_negative (sys.socket)
    then (negsuc 0, [])
    else if not (is_zero (sys.set_nonblock))
    then (negsuc 0, taken http3_socket ∷ [])
    else if is_negative (sys.bind)
    then (negsuc 0, taken http3_socket ∷ [])
    else (sys.socket, taken http3_socket ∷ [])

unfoldable pub http3_init_config : StartSystem → ℤ × List Step
http3_init_config sys =
    if not (sys.config_new)
    then (negsuc 0, [])
    else if not (is_zero (sys.load_cert))
    then (negsuc 0, taken quiche_config ∷ [])
    else if not (is_zero (sys.load_key))
    then (negsuc 0, taken quiche_config ∷ [])
    else if not (sys.h3_config_new)
    then (negsuc 0, taken quiche_config ∷ [])
    else (pos 0, taken quiche_config ∷ taken h3_config ∷ [])

-- The part after `http3_init_config`: the steps before it are passed on.
unfoldable pub http3_listen_event : StartSystem → ℤ → AppContext → List Step → Run Started
http3_listen_event sys sock app_ctx steps =
    let app_ctx' : AppContext = record app_ctx { conns = some sock } in
    let steps' : List Step = steps ++ taken connections ∷ [] in
    if is_negative (sys.make_nonblocking)
    then abort
    else if not (sys.event_new)
    then abort
    else ok record {
      ret = if is_negative (sys.event_add) then pos 1 else pos 0;
      app_ctx = record app_ctx' { evaccept_http3 = true };
      steps = steps' ++ taken http3_event ∷ [];
    }

-- With the outcomes of `http3_init_sock` and `http3_init_config`; the second call is made only if
-- the first succeeds.
unfoldable pub http3_listen_with :
    StartSystem → AppContext → ℤ × List Step → ℤ × List Step → Run Started
unfolding http3_listen_event
http3_listen_with sys app_ctx (sock, made) (configured, configs) =
    if is_negative sock
    then ok record { ret = pos 1; app_ctx = app_ctx; steps = made }
    else if is_negative configured
    then ok record { ret = pos 1; app_ctx = app_ctx; steps = made ++ configs }
    else http3_listen_event sys sock app_ctx (made ++ configs)

unfoldable pub http3_start_listen : StartSystem → AppContext → Run Started
unfolding http3_init_sock http3_init_config http3_listen_with
http3_start_listen sys app_ctx =
    http3_listen_with sys app_ctx (http3_init_sock sys) (http3_init_config sys)

-- A listener that is NULL is not checked for.
unfoldable pub http2_cleanup : AppContext → Run (List Step)
http2_cleanup app_ctx = if app_ctx.evaccept_http2 then ok (released http2_listener ∷ []) else fault

-- The end of `http3_cleanup`, after the connections: `conns` is read whether it is there or not.
unfoldable pub http3_cleanup_end : AppContext → Run (List Step)
http3_cleanup_end app_ctx = elim (app_ctx.conns) [
  | none ↦ fault
  | some sock ↦ ok (
      (released http3_socket ∷ released connections ∷ [])
      ++ (if app_ctx.evaccept_http3 then released http3_event ∷ [] else [])
      ++ (released h3_config ∷ released quiche_config ∷ []))
]

-- From the listeners to the end of the event loop: what they return is not looked at.
unfoldable pub run_loop : StartSystem → Run (AppContext × List Step)
unfolding create_ssl_ctx http2_start_listen http3_start_listen initialize_app_context
run_loop sys = create_ssl_ctx sys >>= λ ctx.
    (let http2 = http2_start_listen sys initialize_app_context in
      http3_start_listen sys (http2.app_ctx) >>= λ http3. ok (
        http3.app_ctx,
        ctx ++ http2.steps ++ http3.steps ++ (taken watchdog ∷ looped ∷ released watchdog ∷ []),
      ))

-- From the end of the loop to the return; the descriptors of the log are closed in it.
unfoldable pub shut_down : AppContext → Logger → Run (List Step)
unfolding http2_cleanup http3_cleanup_end
shut_down app_ctx plog = http2_cleanup app_ctx >>= λ http2. http3_cleanup_end app_ctx >>= λ http3.
    destroy_log plog >>= λ fds.
    ok (http2 ++ http3 ++ (released log_pipe ∷ released event_base ∷ released ssl_ctx ∷ []))

-- The log that `run` hands to `init_log`: level 0.
abbrev pub new_log : Logger
new_log = record { fds_pipe = (pos 0, pos 0); level = 0; evpipe = false }

-- What follows `init_log`.
unfoldable pub run_logged : StartSystem → ℤ × Option Logger → Run (List Step)
unfolding run_loop shut_down
run_logged sys (ret, none) = ok (taken event_base ∷ [])
run_logged sys (ret, some plog) =
    if not (is_zero ret)
    then ok (taken event_base ∷ [])
    else (run_loop sys >>= λ served. shut_down served.0 plog >>= λ ended.
        ok ((taken event_base ∷ taken log_pipe ∷ []) ++ served.1 ++ ended))

unfoldable pub run : StartSystem → Run (List Step)
unfolding run_logged
run sys = init_log (sys.log) (some new_log) >>= run_logged sys
