-- ===== src/Tests.antt =====
-- Runs of the model at fixed inputs, and the theorems at inputs that meet their hypotheses.
mod Sha256
mod Job
mod Mine
mod Config
mod Cli
mod Stratum
mod Runtime
mod Main
mod FakePool
mod Logger
mod Pool
mod Session
