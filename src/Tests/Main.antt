-- ===== src/Tests/Main.antt =====
-- The program with no file to read: its start, and a search that finds a nonce.
use hermit_miner.Base.{
  ℕ, ◌≡◌, ◌≤◌, ◌⊎◌, refl, true, false, none, some, List, [], codes, arith, u32_max,
}
use hermit_miner.Cli.{parse_args}
use hermit_miner.Config.Json
use hermit_miner.Config.{
  Environment, MinerConfig, default_config, pool_username, apply_secret_overrides_from_env,
  validate_config,
}
use hermit_miner.Config.Load.{
  Files, load_config, read_text_file, root_object, object_field, fill, read_string_field,
  read_uint_field, read_bool_field, assign_within,
}
use hermit_miner.Logger.Event.{Event}
use hermit_miner.Main.Exits.{run_code}
use hermit_miner.Main.Startup.{IsRunnable, launch-IsRunnable}
use hermit_miner.Main.{Launch, exit, ready, launch, run, is_local_pool_host}
use hermit_miner.Mine.Result.{IsShare}
use hermit_miner.Mine.{passes, payload}
use hermit_miner.Job.{meets_difficulty}
use hermit_miner.Sha256.{double_sha256}
use hermit_miner.Tests.Mine.{meets_zero}
use hermit_miner.Tests.Pool.{found_result, found-Outcome}
use hermit_miner.Runtime.{Ops}

-- One file, with an empty object.
abbrev one_file : Files
one_file = λ _. some (codes "{}")

abbrev no_variables : Environment
no_variables = λ _. none

abbrev launched_log : Launch → List Event
launched_log (exit rc log) = log
launched_log (ready cfg log) = log

abbrev first_log : List Event
first_log = launched_log (launch one_file no_variables 4 [])

launched : launch one_file no_variables 4 [] ≡ ready (default_config 4) first_log
unfolding launch load_config read_text_file root_object Json.parse Json.at_end Json.parse_value
    Json.parse_object Json.dispatch Json.skip_ws object_field Json.find fill read_string_field
    read_uint_field read_bool_field assign_within parse_args apply_secret_overrides_from_env
    validate_config pool_username is_local_pool_host
launched = refl

launch-IsRunnable_example : IsRunnable (default_config 4)
launch-IsRunnable_example =
    launch-IsRunnable one_file no_variables 4 [] (default_config 4) first_log (omega arith) launched

-- A search of one thread that tries one nonce, which passes.
abbrev mining : Ops ℕ
mining = record {
  new_client = λ w. w;
  connect_to_pool = λ w. (false, w);
  subscribe = λ _ w. (false, w);
  authorize = λ _ _ w. (false, w);
  wait_for_job = λ _ w. (none, w);
  submit_share = λ _ _ _ w. (false, w);
  mine = λ cfg w. (found_result cfg.prefix, w);
  stop_requested = λ w. (false, w);
  sleep_for = λ _ w. w;
  log = λ _ w. w;
  write_health_snapshot = λ _ _ w. w;
}

abbrev easy : MinerConfig
easy = record (default_config 1) { thread_count = 1; prefix = []; difficulty_bits = 0 }

first_passes : passes 1 [] 0 0 ≡ true
unfolding passes
first_passes = meets_zero (double_sha256 (payload [] 0))

run_code_example :
    (((run mining 1 1 easy 0).0 ≡ some 0) × IsShare [] 0 0)
    ⊎ (((run mining 1 1 easy 0).0 ≡ some 2)
        × ((n : ℕ) → n ≤ u32_max → meets_difficulty (double_sha256 (payload [] n)) 0 ≡ false))
unfolding found-Outcome
run_code_example =
    run_code mining easy 1 1 0 refl (omega arith) (omega arith) (found-Outcome [] 0 first_passes)
      refl refl
