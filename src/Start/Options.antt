-- ===== src/Start/Options.antt =====
-- `main` of main/gfhttpd.c: the options, the configuration, and `run`.
use gfhttpd.Base.{
  Bool, true, false, not, List, [], ◌∷◌, ◌++◌, Run, ok, ◌>>=◌, Bytes, bytes, if◌then◌else◌, ℤ,
  is_negative,
}
use gfhttpd.Start.{Step}

-- What `getopt` gives: -v, -c with its argument, a missing argument, or another option.
pub data Option_ : Type 0 where
  version : Option_
  config_option : Bytes → Option_
  missing_argument : Option_
  unknown : Option_

-- What `main` does, in order.
pub data Action : Type 0 where
  printed_version : Action
  printed_usage : Action
  printed_unknown : Action
  opened : Bytes → Action
  loaded : ℤ → Action
  ran : List Step → Action
  freed : Action

pub record Exit : Type 0 where
  pub success : Bool
  pub actions : List Action

-- The loop over the options: whether it ends without a return, the file, and the actions.
unfoldable pub options_loop : List Option_ → Bytes → Bool × (Bytes × List Action)
options_loop [] config_file = (true, (config_file, []))
options_loop (version ∷ rest) config_file =
    let (goes_on, (file, actions)) = options_loop rest config_file in
    (goes_on, (file, printed_version ∷ actions))
options_loop (config_option file ∷ rest) config_file = options_loop rest file
options_loop (missing_argument ∷ rest) config_file =
    let (goes_on, (file, actions)) = options_loop rest config_file in
    (goes_on, (file, printed_usage ∷ actions))
options_loop (unknown ∷ rest) config_file =
    (false, (config_file, printed_unknown ∷ printed_usage ∷ []))

-- "etc/conf.json"
abbrev pub default_config : Bytes
default_config = bytes "etc/conf.json"

-- `more` says whether an argument is left, `open_config` and `load` are `open` and `conf_load`,
-- and `running` is the run.
-- What follows the loop over the options.
unfoldable pub load_and_run :
    (Bytes → ℤ) → (ℤ → ℤ) → Run (List Step) → Bool × (Bytes × List Action) → Bool → Run Exit
load_and_run open_config load running (goes_on, (file, actions)) more =
    if not goes_on
    then ok record { success = false; actions = actions }
    else if more
    then ok record { success = false; actions = actions ++ printed_unknown ∷ printed_usage ∷ [] }
    else if is_negative (open_config file)
    then ok record { success = false; actions = actions ++ opened file ∷ [] }
    else if is_negative (load (open_config file))
    then ok record {
      success = false;
      actions = actions ++ opened file ∷ loaded (load (open_config file)) ∷ [];
    }
    else (running >>= λ steps. ok record {
      success = true;
      actions = actions ++ opened file ∷ loaded (load (open_config file)) ∷ ran steps ∷ freed ∷ [];
    })

unfoldable pub main : (Bytes → ℤ) → (ℤ → ℤ) → Run (List Step) → List Option_ → Bool → Run Exit
unfolding options_loop load_and_run
main open_config load running options more =
    load_and_run open_config load running (options_loop options default_config) more
