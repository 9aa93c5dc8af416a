-- ===== src/Start/Examples.antt =====
-- A start with a file of its own, one that works to its end, and one without a port.
use gfhttpd.Base.{
  if◌then◌else◌, ◌≡◌, refl, inl, inr, true, false, some, List, [], ◌∷◌, Bytes, bytes, ok, ℤ, pos,
  negsuc, is_negative, bytes_eq, if◌then◌else◌,
}
use gfhttpd.Log.{LogSystem}
use gfhttpd.Start.{Step, looped, StartSystem, http3_init_sock, run}
use gfhttpd.Start.Shutdown.{IsLogging, IsListening, held_after, run-gives_back}
use gfhttpd.Start.Unlistened.{IsUndefinedAtEnd, run-faults}
use gfhttpd.Start.Options.{Option_, version, config_option, Exit, main, default_config}
use gfhttpd.Start.Chosen.{last_file, runs, starts, IsStart, main-starts}

abbrev opens : Bytes → ℤ
opens file = if bytes_eq file (bytes "my.json") then pos 3 else negsuc 0

abbrev loads : ℤ → ℤ
loads fd = pos 0

abbrev options : List Option_
options = config_option (bytes "my.json") ∷ version ∷ []

main-starts_example :
    (exit : Exit) × (main opens loads (ok (looped ∷ [])) options false ≡ ok exit)
    × (exit.success ≡ starts opens loads (looped ∷ []) options false)
    × (runs (exit.actions) ≡ (if starts opens loads (looped ∷ []) options false then 1 else 0))
    × (exit.success ≡ true
        → IsStart
            (last_file default_config options)
            (loads (opens (last_file default_config options)))
            (looped ∷ [])
            (exit.actions))
main-starts_example = main-starts opens loads (looped ∷ []) options false

abbrev log_works : LogSystem
log_works = record {
  pipe = (pos 0, (pos 3, pos 4));
  set_nonblocking = λ fd. pos 0;
  event_new = true;
  event_add = pos 0;
}

abbrev works : StartSystem
works = record {
  log = log_works;
  ssl_ctx_new = true;
  listener = true;
  socket = pos 7;
  set_nonblock = pos 0;
  bind = pos 0;
  config_new = true;
  load_cert = pos 0;
  load_key = pos 0;
  h3_config_new = true;
  make_nonblocking = pos 0;
  event_new = true;
  event_add = pos 0;
}

works-IsLogging : IsLogging works
works-IsLogging = record { piped = refl; first = refl; second = refl; made = refl; added = refl }

works-IsListening : IsListening works
works-IsListening = record {
  sock = 7;
  listens = refl;
  has_socket = refl;
  nonblocking = refl;
  bound = refl;
  config = refl;
  cert = refl;
  key = refl;
  h3 = refl;
}

run-gives_back_example :
    (steps : List Step) × (run works ≡ ok steps) × (held_after steps [] ≡ some [])
run-gives_back_example =
    run-gives_back works works-IsLogging refl works-IsListening
      record { nonblocking = refl; made = refl }

-- The port is taken.
abbrev no_port : StartSystem
no_port = record works { bind = negsuc 0 }

no_socket : is_negative (http3_init_sock no_port).0 ≡ true
unfolding http3_init_sock
no_socket = refl

no_port-IsLogging : IsLogging no_port
no_port-IsLogging = record { piped = refl; first = refl; second = refl; made = refl; added = refl }

run-faults_example : IsUndefinedAtEnd no_port no_port-IsLogging refl
run-faults_example =
    run-faults no_port no_port-IsLogging refl record { nonblocking = refl; made = refl }
      (inr (inl no_socket))
