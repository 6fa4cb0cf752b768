-- ===== src/Queens/Address.antt =====
-- The addresses of example/nqueen: `main` of nqueen_server.cc, and the choice of a server in
-- `distribute_tasks` of nqueen_client.cc.
use native.Mathlib.Nat.{mod-lt, mod-eq_of_lt}
use asio_learn.Base.{
  ℕ, suc, ◌+◌, ◌%◌, ◌^◌, ◌<◌, ◌≡◌, ◌↔◌, refl, ap, List, [], ◌++◌, Option, none, some, arith, drop,
}
use asio_learn.Base.Text.{bytes}
use asio_learn.Beast.{decimal}
use asio_learn.Beast.Decimal.{value, value-decimal}

-- `main` of the server, with its argument if there is one.
unfoldable pub server_address : Option (List ℕ) → List ℕ
server_address none = bytes "0.0.0.0:50051"
server_address (some port) = bytes "0.0.0.0:" ++ port

-- `"localhost:" + std::to_string(50051 + server_id)`
unfoldable pub task_address : ℕ → ℕ → List ℕ
task_address server_count i = bytes "localhost:" ++ decimal (50051 + i % server_count) []

-- What stands behind the host.
abbrev pub server_port : List ℕ → List ℕ
server_port address = drop 8 address

abbrev pub task_port : List ℕ → List ℕ
task_port address = drop 10 address

port-lt : (k i : ℕ) → k < 2 ^ 16 → 50051 + i % suc k < 2 ^ 64
port-lt k i small = let r : i % suc k < suc k = mod-lt i (omega arith) in omega (arith, r)

module _ (k : ℕ) (small : k < 2 ^ 16) where
  task_address-eq :
      (i j : ℕ) → task_address (suc k) i ≡ task_address (suc k) j → i % suc k ≡ j % suc k
  unfolding task_address
  task_address-eq i j e =
      let ports : decimal (50051 + i % suc k) [] ≡ decimal (50051 + j % suc k) [] =
        ap (drop 10) e in
      let one = value-decimal (50051 + i % suc k) (port-lt k i small) in
      let other = value-decimal (50051 + j % suc k) (port-lt k j small) in
      omega (arith, one, other, ap (value 0) ports)

  -- Two tasks are sent to one address exactly if they have one server; the port is that of a server
  -- started with 50051 and the server's number as its argument, or, for server 0, without one.
  task_address_iff :
      (i j : ℕ)
      → ((task_address (suc k) i ≡ task_address (suc k) j) ↔ (i % suc k ≡ j % suc k))
        × (task_port (task_address (suc k) i)
            ≡ server_port (server_address (some (decimal (50051 + i % suc k) []))))
        × (task_port (task_address (suc k) 0) ≡ server_port (server_address none))
  unfolding task_address server_address decimal
  task_address_iff i j =
      let first : 0 % suc k ≡ 0 = mod-eq_of_lt (omega arith) in
      (
        (task_address-eq i j, λ e. ap (λ (r : ℕ). bytes "localhost:" ++ decimal (50051 + r) []) e),
        refl,
        rw first refl,
      )
