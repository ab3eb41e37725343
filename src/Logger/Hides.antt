-- ===== src/Logger/Hides.antt =====
-- What the redaction of a text leaves of a sensitive value.
use hermit_miner.Base.{ℕ, ◌⊎◌, ◌≡◌}

abbrev pub IsSign : ℕ → Type 0
IsSign sign = (sign ≡ b'=') ⊎ (sign ≡ b':')
