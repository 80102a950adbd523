-- ===== src/Handler.antt =====
-- The package variables of server/quashserver/quashserver.go and the ways in which a handler can
-- end. A handler runs alone between its `Lock` and its `Unlock`, so it is a function of the state
-- that it finds; a `Lock` that finds the mutex held never comes back, unless somebody unlocks.
use quash.Prelude.{ap, ◌≡◌, [], Bool, true, false, String, if◌then◌else◌}
use quash.GoMap.{GoMap}
use quash.Queue.{Queue}
use quash.Structs.{KvValue}

abbrev pub Brokers : Type 0
Brokers = GoMap (GoMap Queue)

-- `kvLock`, `brokersLock`, `kvMap` and `brokers`.
pub record State : Type 0 where
  pub kv_locked : Bool
  pub brokers_locked : Bool
  pub kv_map : GoMap KvValue
  pub brokers : Brokers

abbrev pub start : State
start = record { kv_locked = false; brokers_locked = false; kv_map = []; brokers = [] }

pub data Outcome (A : Type 0) : Type 0 where
  returned : A → State → Outcome A
  panicked : Outcome A
  blocked : State → Outcome A

-- A response with a nil error, or an error.
pub data Reply (A : Type 0) : Type 0 where
  ok : A → Reply A
  error : String → Reply A

abbrev pub Handler : Type 0 → Type 0
Handler A = State → Outcome A

abbrev pub pure : {A : Type 0} → A → Handler A
pure a s = returned a s

abbrev pub panic : {A : Type 0} → Handler A
panic s = panicked

abbrev pub continue : {A B : Type 0} → Outcome A → (A → Handler B) → Outcome B
continue (returned a s) f = f a s
continue panicked f = panicked
continue (blocked s) f = blocked s

infixl 5 ◌>>=◌ ◌>>◌
abbrev pub ◌>>=◌ : {A B : Type 0} → Handler A → (A → Handler B) → Handler B
◌>>=◌ m f s = continue (m s) f

abbrev pub ◌>>◌ : {B : Type 0} → Handler (Unit {0}) → Handler B → Handler B
m >> k = m >>= λ _. k

-- What other goroutines do while this one holds no mutex.
abbrev pub meanwhile : (State → State) → Handler (Unit {0})
meanwhile others s = returned tt (others s)

-- `kvLock.Lock()` and `kvLock.Unlock()`; unlocking a free mutex is a fatal error.
unfoldable pub lock_kv : Handler (Unit {0})
lock_kv s = if s.kv_locked then blocked s else returned tt (record s { kv_locked = true })

unfoldable pub unlock_kv : Handler (Unit {0})
unlock_kv s = if s.kv_locked then returned tt (record s { kv_locked = false }) else panicked

unfoldable pub lock_brokers : Handler (Unit {0})
lock_brokers s =
    if s.brokers_locked then blocked s else returned tt (record s { brokers_locked = true })

unfoldable pub unlock_brokers : Handler (Unit {0})
unlock_brokers s =
    if s.brokers_locked then returned tt (record s { brokers_locked = false }) else panicked

abbrev pub get_kv_map : Handler (GoMap KvValue)
get_kv_map s = returned s.kv_map s

abbrev pub set_kv_map : GoMap KvValue → Handler (Unit {0})
set_kv_map m s = returned tt (record s { kv_map = m })

abbrev pub get_brokers : Handler Brokers
get_brokers s = returned s.brokers s

abbrev pub set_brokers : Brokers → Handler (Unit {0})
set_brokers b s = returned tt (record s { brokers = b })

-- A step that has returned hands its value and its state to the rest.
module _ {A B : Type 0} (m : Handler A) (f : A → Handler B) (s : State) where
  pub >>=-returned : {a : A} {s' : State} → m s ≡ returned a s' → (m >>= f) s ≡ f a s'
  >>=-returned e = ap (λ o. continue o f) e

  pub >>=-panicked : m s ≡ panicked → (m >>= f) s ≡ panicked
  >>=-panicked e = ap (λ o. continue o f) e

  pub >>=-blocked : {s' : State} → m s ≡ blocked s' → (m >>= f) s ≡ blocked s'
  >>=-blocked e = ap (λ o. continue o f) e
