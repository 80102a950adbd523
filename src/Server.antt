-- ===== src/Server.antt =====
-- The server as a whole (server/quashserver/quashserver.go): the goroutines of its clients call the
-- key-value store and the broker, each under its own mutex. A call of the broker may be the part of
-- `Snapshot` under `brokersLock`; the other part, the length of `kvMap`, is left out. A panic ends the
-- process; it leaves `none` for the brokers, and what the goroutines may do after it means nothing.
pub mod Answers
pub mod Explained
pub mod GoesOn
pub mod Session
pub mod Specified
mod Tests
use quash.Goroutines.{System}
use quash.GoMap.{GoMap}
use quash.Kv.Session.{KvCall}
use quash.Clock.{Time}
use quash.Structs.{KvValue}
use quash.Handler.{Brokers, State}
use quash.Kv.Concurrent.{Local, kv_code, no_local}
use quash.PubSub.Concurrent.{BrokerCall, BrokerLocal, broker_code, no_broker_local}
use quash.Goroutines.Pair.{PairReach, PairStep, PairSystem, between, left_system, right_system}
use quash.Prelude.{List, Option, false, some, ℕ, ◌⊎◌}

abbrev pub ServerCall : Type 0
ServerCall = (Time × KvCall) ⊎ BrokerCall

abbrev pub ServerSystem : Type 0
ServerSystem =
    PairSystem (GoMap KvValue) (Option Brokers) Local BrokerLocal (Time × KvCall) BrokerCall

abbrev pub ServerStep : ℕ → ServerSystem → ServerSystem → Type 0
ServerStep = PairStep kv_code broker_code

abbrev pub ServerReach : ℕ → ServerSystem → ℕ → ServerSystem → Type 0
ServerReach = PairReach kv_code broker_code

-- `kvLock` and `brokersLock` are free, and every goroutine has its program before it.
abbrev pub server_start : State → (ℕ → List ServerCall) → ServerSystem
server_start s programs = record {
  left = record { locked = false; value = s.kv_map };
  right = record { locked = false; value = some s.brokers };
  pc = λ i. between (programs i) no_local no_broker_local;
}

abbrev pub kv_side : ServerSystem → System (GoMap KvValue) Local (Time × KvCall)
kv_side = left_system kv_code broker_code

abbrev pub broker_side : ServerSystem → System (Option Brokers) BrokerLocal BrokerCall
broker_side = right_system kv_code broker_code
