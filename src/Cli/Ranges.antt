-- ===== src/Cli/Ranges.antt =====
-- Command-line overrides keep the numbers of the configuration within their bounds.
use hermit_miner.Base.{
  ℕ, ◌≤◌, ◌≡◌, refl, List, [], ◌∷◌, Option, none, some, arith, Bytes, codes, equal, u32_max,
  Bool-cases, inl, inr,
}
use hermit_miner.Base.Digits.{Conversion, value, invalid_argument, out_of_range, stoull}
use hermit_miner.Cli.{
  CliParseResult, ok, help_shown, error, Parsed, parse_uint32, whole_u32, apply_option, parse_args,
  take_bits, take_threads, take_interval, continue,
}
use hermit_miner.Config.Load.Ranges.{IsInRange, load_config-IsInRange}
use hermit_miner.Config.Load.{Files}
use hermit_miner.Config.{MinerConfig}

whole_u32-le : (c : Conversion) (n : ℕ) → whole_u32 c ≡ some n → n ≤ u32_max
whole_u32-le (value v rest) n h = ground arith
whole_u32-le invalid_argument n h = cc
whole_u32-le out_of_range n h = cc

parse_uint32-le : (text : Bytes) (n : ℕ) → parse_uint32 text ≡ some n → n ≤ u32_max
unfolding parse_uint32
parse_uint32-le text n h = whole_u32-le (stoull 10 text) n h

-- If parsing goes on after this state, its numbers are within their bounds.
abbrev Keeps : Parsed → Type 0
Keeps p = p.result ≡ ok → IsInRange p.cfg

module _ (path : Bytes) (cfg : MinerConfig) (r : IsInRange cfg) where
  take_bits-Keeps : (o : Option ℕ) → Keeps (take_bits o path cfg)
  take_bits-Keeps none h = cc
  take_bits-Keeps (some n) h = ground arith

  take_threads-Keeps :
      (o : Option ℕ) → ((n : ℕ) → o ≡ some n → n ≤ u32_max) → Keeps (take_threads o path cfg)
  take_threads-Keeps none b h = cc
  take_threads-Keeps (some n) b h = let le : n ≤ u32_max = b n refl in ground arith

  take_interval-Keeps :
      (o : Option ℕ) → ((n : ℕ) → o ≡ some n → n ≤ u32_max) → Keeps (take_interval o path cfg)
  take_interval-Keeps none b h = cc
  take_interval-Keeps (some n) b h = let le : n ≤ u32_max = b n refl in ground arith

module _ (files : Files) (hc : ℕ) (hc_fits : hc ≤ u32_max) where
  apply_option-Keeps :
      (arg val path : Bytes) (cfg : MinerConfig)
      → IsInRange cfg
      → Keeps (apply_option files hc arg val path cfg)
  unfolding apply_option
  apply_option-Keeps arg val path cfg r = elim (Bool-cases (equal arg (codes "--config"))) [
    | inl e ↦ rw (e, Keeps, apply_option) (λ _. load_config-IsInRange files hc val hc_fits)
    | inr n1 ↦ elim (Bool-cases (equal arg (codes "--prefix"))) [
      | inl e ↦ rw (n1, e, Keeps, apply_option) (λ _. omega arith)
      | inr n2 ↦ elim (Bool-cases (equal arg (codes "--bits"))) [
        | inl e ↦
            rw (n1, n2, e, Keeps, apply_option) (take_bits-Keeps path cfg r (parse_uint32 val))
        | inr n3 ↦ elim (Bool-cases (equal arg (codes "--threads"))) [
          | inl e ↦
              rw (n1, n2, n3, e, Keeps, apply_option)
                (take_threads-Keeps path cfg r (parse_uint32 val) (parse_uint32-le val))
          | inr n4 ↦ elim (Bool-cases (equal arg (codes "--report-ms"))) [
            | inl e ↦
                rw (n1, n2, n3, n4, e, Keeps, apply_option)
                  (take_interval-Keeps path cfg r (parse_uint32 val) (parse_uint32-le val))
            | inr n5 ↦ rw (n1, n2, n3, n4, n5, Keeps, apply_option) (λ _. r)
          ]
        ]
      ]
    ]
  ]

  continue-Keeps :
      (p : Parsed) (rest : Bytes → MinerConfig → Parsed)
      → Keeps p
      → ((path : Bytes) (cfg : MinerConfig) → IsInRange cfg → Keeps (rest path cfg))
      → Keeps (continue p rest)
  continue-Keeps p rest k next = go p.result refl
    where
      go : (r : CliParseResult) → p.result ≡ r → Keeps (continue p rest)
      go ok e = rw (e, Keeps) (next p.config_path p.cfg (k e))
      go help_shown e = rw (e, Keeps) (λ h. cc)
      go error e = rw (e, Keeps) (λ h. cc)

  -- Whatever the arguments are, if parsing succeeds from a configuration that is within its bounds,
  -- the resulting configuration is within its bounds.
  pub parse_args-IsInRange :
      (args : List Bytes) (path : Bytes) (cfg : MinerConfig)
      → IsInRange cfg
      → (parse_args files hc args path cfg).result ≡ ok
      → IsInRange (parse_args files hc args path cfg).cfg
  unfolding parse_args
  parse_args-IsInRange [] path cfg r h = r
  parse_args-IsInRange (arg ∷ []) path cfg r h = ground arith
  parse_args-IsInRange (arg ∷ val ∷ args) path cfg r h = ground (
    arith,
    continue-Keeps (apply_option files hc arg val path cfg) (parse_args files hc args)
        (apply_option-Keeps arg val path cfg r) (parse_args-IsInRange args),
  )
