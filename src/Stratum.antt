-- ===== src/Stratum.antt =====
-- src/lib/stratum.h and stratum.cpp: the client of the pool. `Codec` has the texts of the messages,
-- `Transport` the socket calls, `Connect` the connection, and `Client` the operations that the miner
-- uses.
pub mod Patterns
pub mod Codec
pub mod Transport
pub mod Connect
pub mod Client
