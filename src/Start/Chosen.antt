-- ===== src/Start/Chosen.antt =====
-- Which command lines of main/gfhttpd.c start the server, and with which file.
use mathlib.Core.Path.{subst}
use gfhttpd.Base.{
  ℕ, suc, ◌≡◌, refl, if◌then◌else◌, Bool, true, false, not, ◌&&◌, List, [], ◌∷◌, ◌++◌, ok, Bytes, ℤ,
  is_negative, Bool-cases, inl, inr, arith,
}
use gfhttpd.Start.{Step}
use gfhttpd.Start.Options.{
  Option_, version, config_option, missing_argument, unknown, Action, printed_version,
  printed_usage, printed_unknown, opened, loaded, ran, freed, Exit, options_loop, default_config,
  load_and_run, main,
}

-- All options are known.
abbrev pub all_known : List Option_ → Bool
all_known [] = true
all_known (version ∷ rest) = all_known rest
all_known (config_option file ∷ rest) = all_known rest
all_known (missing_argument ∷ rest) = all_known rest
all_known (unknown ∷ rest) = false

-- The file of the last -c, or else the one given.
abbrev pub last_file : Bytes → List Option_ → Bytes
last_file file [] = file
last_file file (version ∷ rest) = last_file file rest
last_file file (config_option file' ∷ rest) = last_file file' rest
last_file file (missing_argument ∷ rest) = last_file file rest
last_file file (unknown ∷ rest) = file

options_loop_lem :
    (options : List Option_) (file : Bytes)
    → ((options_loop options file).0 ≡ all_known options)
      × ((options_loop options file).1.0 ≡ last_file file options)
unfolding options_loop
options_loop_lem [] file = (refl, refl)
options_loop_lem (version ∷ rest) file = options_loop_lem rest file
options_loop_lem (config_option file' ∷ rest) file = options_loop_lem rest file'
options_loop_lem (missing_argument ∷ rest) file = options_loop_lem rest file
options_loop_lem (unknown ∷ rest) file = (refl, refl)

-- How often the server is run.
abbrev pub runs : List Action → ℕ
runs [] = 0
runs (ran steps ∷ rest) = suc (runs rest)
runs (printed_version ∷ rest) = runs rest
runs (printed_usage ∷ rest) = runs rest
runs (printed_unknown ∷ rest) = runs rest
runs (opened file ∷ rest) = runs rest
runs (loaded rc ∷ rest) = runs rest
runs (freed ∷ rest) = runs rest

runs-append : (before after : List Action) → runs before ≡ 0 → runs (before ++ after) ≡ runs after
runs-append [] after e = refl
runs-append (ran steps ∷ before) after e = absurd (omega (arith, e))
runs-append (printed_version ∷ before) after e = runs-append before after e
runs-append (printed_usage ∷ before) after e = runs-append before after e
runs-append (printed_unknown ∷ before) after e = runs-append before after e
runs-append (opened file ∷ before) after e = runs-append before after e
runs-append (loaded rc ∷ before) after e = runs-append before after e
runs-append (freed ∷ before) after e = runs-append before after e

runs-options_loop :
    (options : List Option_) (file : Bytes) → runs ((options_loop options file).1.1) ≡ 0
unfolding options_loop
runs-options_loop [] file = refl
runs-options_loop (version ∷ rest) file = runs-options_loop rest file
runs-options_loop (config_option file' ∷ rest) file = runs-options_loop rest file'
runs-options_loop (missing_argument ∷ rest) file = runs-options_loop rest file
runs-options_loop (unknown ∷ rest) file = refl

-- The actions of a start end with the configuration's loading, the run and the clean-up.
pub record IsStart (file : Bytes) (rc : ℤ) (steps : List Step) (actions : List Action)
    : Type 0 where
  pub before : List Action
  pub same : actions ≡ before ++ opened file ∷ loaded rc ∷ ran steps ∷ freed ∷ []

module _ (open_config : Bytes → ℤ) (load : ℤ → ℤ) (steps : List Step) where
  -- Whether a command line starts the server.
  abbrev pub starts : List Option_ → Bool → Bool
  starts options more =
      let file = last_file default_config options in
      all_known options
      && (not more
          && (not (is_negative (open_config file)) && not (is_negative (load (open_config file)))))

  -- The same, after the loop over the options.
  abbrev starts_with_file : Bool → Bytes → Bool → Bool
  starts_with_file goes_on file more =
      goes_on
      && (not more
          && (not (is_negative (open_config file)) && not (is_negative (load (open_config file)))))

  -- An exit that is right for a file.
  record IsRight (chosen : Bool) (file : Bytes) (exit : Exit) : Type 0 where
    same_success : exit.success ≡ chosen
    same_runs : runs (exit.actions) ≡ (if chosen then 1 else 0)
    start : exit.success ≡ true → IsStart file (load (open_config file)) steps (exit.actions)

  load_and_run-IsRight :
      (goes_on : Bool) (file : Bytes) (actions : List Action) (more : Bool)
      → runs actions ≡ 0
      → (exit : Exit) × (load_and_run open_config load (ok steps) (goes_on, (file, actions)) more
          ≡ ok exit)
        × IsRight (starts_with_file goes_on file more) file exit
  unfolding load_and_run
  load_and_run-IsRight false file actions more idle = (
    record { success = false; actions = actions },
    refl,
    record { same_success = refl; same_runs = idle; start = λ e. absurd (ground arith) },
  )
  load_and_run-IsRight true file actions true idle = (
    record { success = false; actions = actions ++ printed_unknown ∷ printed_usage ∷ [] },
    refl,
    record {
      same_success = refl;
      same_runs = runs-append actions _ idle;
      start = λ e. absurd (ground arith);
    },
  )
  load_and_run-IsRight true file actions false idle =
      elim (Bool-cases (is_negative (open_config file))) [
        | inl closed ↦ (
          record { success = false; actions = actions ++ opened file ∷ [] },
          rw closed,
          record {
            same_success = rw closed;
            same_runs = rw closed (runs-append actions _ idle);
            start = λ e. absurd (ground arith);
          },
        )
        | inr open' ↦ elim (Bool-cases (is_negative (load (open_config file)))) [
          | inl bad ↦ (
            record {
              success = false;
              actions = actions ++ opened file ∷ loaded (load (open_config file)) ∷ [];
            },
            rw (open', bad),
            record {
              same_success = rw (open', bad);
              same_runs = rw (open', bad) (runs-append actions _ idle);
              start = λ e. absurd (ground arith);
            },
          )
          | inr good ↦ (
            record {
              success = true;
              actions =
                  actions
                  ++ opened file ∷ loaded (load (open_config file)) ∷ ran steps ∷ freed ∷ [];
            },
            rw (open', good),
            record {
              same_success = rw (open', good);
              same_runs = rw (open', good) (runs-append actions _ idle);
              start = λ _. record { before = actions; same = refl };
            },
          )
        ]
      ]

  -- `main` succeeds, once the run ends, exactly if all options are known, no argument is left, the
  -- file of the last -c, or else "etc/conf.json", can be opened, and its configuration is loaded.
  -- It runs the server once then, after it has opened and loaded that file, and never otherwise. A
  -- -v or a -c without its argument changes neither.
  pub main-starts :
      (options : List Option_) (more : Bool)
      → (exit : Exit) × (main open_config load (ok steps) options more ≡ ok exit)
        × (exit.success ≡ starts options more)
        × (runs (exit.actions) ≡ (if starts options more then 1 else 0))
        × (exit.success ≡ true
            → IsStart
                (last_file default_config options)
                (load (open_config (last_file default_config options)))
                steps
                (exit.actions))
  unfolding main
  main-starts options more =
      let (known, same) = options_loop_lem options default_config in
      let (exit, done, right) =
        load_and_run-IsRight (options_loop options default_config).0
          (options_loop options default_config).1.0 (options_loop options default_config).1.1 more
          (runs-options_loop options default_config) in
      let right' =
        subst (λ file. IsRight (starts_with_file (all_known options) file more) file exit) same
          (subst
            (λ b.
              IsRight (starts_with_file b (options_loop options default_config).1.0 more)
                (options_loop options default_config).1.0 exit)
            known right) in
      (exit, done, right'.same_success, right'.same_runs, right'.start)
