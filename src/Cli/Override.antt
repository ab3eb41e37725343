-- ===== src/Cli/Override.antt =====
-- What a later `--config` does to the options before it.
use hermit_miner.Base.{ℕ, ◌≡◌, refl, ◌∙◌, List, [], ◌∷◌, ◌++◌, arith, Bytes, codes}
use hermit_miner.Cli.{ok, parse_args, apply_option, option_requires_value}
use hermit_miner.Config.Load.{Files}
use hermit_miner.Config.{MinerConfig}

module _ (files : Files) (hc : ℕ) where
  -- Arguments that parse without help or error, with more arguments behind them, are parsed first,
  -- and the rest from the state that they leave.
  pub parse_args-append :
      (args more : List Bytes) (path : Bytes) (cfg : MinerConfig)
      → (parse_args files hc args path cfg).result ≡ ok
      → parse_args files hc (args ++ more) path cfg
        ≡ parse_args files hc more
            (parse_args files hc args path cfg).config_path
            (parse_args files hc args path cfg).cfg
  unfolding parse_args
  parse_args-append [] more path cfg h = refl
  parse_args-append (arg ∷ []) more path cfg h = absurd (ground arith)
  parse_args-append (arg ∷ val ∷ args) more path cfg h =
      let p = apply_option files hc arg val path cfg in
      ground (arith, parse_args-append args more p.config_path p.cfg)

  -- A `--config` option sets both variables afresh: what the earlier options did is lost, also if
  -- the file cannot be loaded.
  config_resets :
      (file : Bytes) (more : List Bytes) (path path' : Bytes) (cfg cfg' : MinerConfig)
      → parse_args files hc (codes "--config" ∷ file ∷ more) path cfg
        ≡ parse_args files hc (codes "--config" ∷ file ∷ more) path' cfg'
  unfolding parse_args apply_option option_requires_value
  config_resets file more path path' cfg cfg' = refl

  -- If the options before a `--config` parse without help or error, they have no effect: the whole
  -- line gives the same result, path and configuration as the part from `--config` on.
  pub parse_args-config :
      (args : List Bytes) (file : Bytes) (more : List Bytes) (path : Bytes) (cfg : MinerConfig)
      → (parse_args files hc args path cfg).result ≡ ok
      → parse_args files hc (args ++ codes "--config" ∷ file ∷ more) path cfg
        ≡ parse_args files hc (codes "--config" ∷ file ∷ more) path cfg
  parse_args-config args file more path cfg h =
      parse_args-append args (codes "--config" ∷ file ∷ more) path cfg h
      ∙ config_resets file more (parse_args files hc args path cfg).config_path path
          (parse_args files hc args path cfg).cfg cfg
