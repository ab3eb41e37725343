-- ===== src/Stratum/Connect.antt =====
-- The constructor and `connect_to_pool` of src/lib/stratum.cpp. What `getaddrinfo`, `socket` and
-- `connect` return is a script: one entry for each address, and no entry when the host is not
-- resolved.
use hermit_miner.Base.{
  ℕ, ◌+◌, ◌≡◌, refl, Bool, true, false, List, [], ◌∷◌, ◌++◌, Bytes, codes, arith, if◌then◌else◌,
}
use hermit_miner.Base.Digits.{to_decimal}
use hermit_miner.Logger.Event
use hermit_miner.Logger.Event.{Event}
use hermit_miner.Stratum.Transport.{Client, with_log}

abbrev pub new_client : Bytes → Client
new_client node_id = record {
  node_id = node_id;
  next_id = 1;
  connected = false;
  wire = [];
  log = [];
}

-- An address for which `socket` fails, or to which `connect` fails or succeeds.
pub data Address : Type 0 where
  no_socket refused reached : Address

-- Whether an address was reached, and how many sockets were made and closed.
pub record Tried : Type 0 where
  pub reached_one : Bool
  pub opened : ℕ
  pub closed : ℕ

-- The loop over the addresses.
unfoldable pub try_addresses : List Address → Tried
try_addresses [] = record { reached_one = false; opened = 0; closed = 0 }
try_addresses (no_socket ∷ addrs) = try_addresses addrs
try_addresses (refused ∷ addrs) =
    let rest = try_addresses addrs in
    record rest { opened = rest.opened + 1; closed = rest.closed + 1 }
try_addresses (reached ∷ addrs) = record { reached_one = true; opened = 1; closed = 0 }

abbrev pub pool_address : Bytes → ℕ → Bytes
pool_address host port = host ++ b':' ∷ to_decimal port

unfoldable pub connect_to_pool : Bytes → ℕ → List Address → Client → Client × Bool
connect_to_pool host port [] c = (
  with_log c (
      Event.error (codes "stratum") c.node_id (codes "Pool host resolution failed")
        (pool_address host port)),
  false,
)
connect_to_pool host port (a ∷ addrs) c = elim ((try_addresses (a ∷ addrs)).reached_one) [
  | true ↦ (
    with_log (record c { connected = true })
        (Event.info (codes "stratum") c.node_id (codes "Connected to pool")
          (pool_address host port)),
    true,
  )
  | false ↦ (
    with_log c (
        Event.error (codes "stratum") c.node_id (codes "connect() failed")
          (pool_address host port)),
    false,
  )
]

-- Every socket that the loop over the addresses makes is closed, except the one that it keeps when
-- an address is reached.
pub try_addresses_closed :
    (addrs : List Address)
    → (try_addresses addrs).opened
      ≡ (try_addresses addrs).closed + (if (try_addresses addrs).reached_one then 1 else 0)
unfolding try_addresses
try_addresses_closed [] = refl
try_addresses_closed (no_socket ∷ addrs) = try_addresses_closed addrs
try_addresses_closed (refused ∷ addrs) = let later = try_addresses_closed addrs in omega arith
try_addresses_closed (reached ∷ addrs) = refl
