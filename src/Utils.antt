-- ===== src/Utils.antt =====
-- utils/utils.go: subscription identifiers and the gauges of the process and the machine. What
-- `rand.Read`, `runtime.ReadMemStats`, `mem.VirtualMemory` and `cpu.Percent` return is given.
pub mod Hex
mod Tests
use quash.Structs.{SrvData}
use quash.Prelude.{Option, none, some, List, String, [], suc, zero, ℕ, ◌%◌, ◌/◌, ◌∷◌}
use Prim.Native.Char.{Char}
use Prim.Native.String

-- The table of `encoding/hex`.
abbrev hex_table : List Char
hex_table =
    "0" ∷ "1" ∷ "2" ∷ "3" ∷ "4" ∷ "5" ∷ "6" ∷ "7" ∷ "8" ∷ "9" ∷ "a" ∷ "b" ∷ "c" ∷ "d" ∷ "e" ∷ "f"
    ∷ []

abbrev get_or : {A : Type 0} → List A → ℕ → A → A
get_or [] i d = d
get_or (x ∷ xs) zero d = x
get_or (x ∷ xs) (suc i) d = get_or xs i d

unfoldable pub hex_digit : ℕ → Char
hex_digit n = get_or hex_table n "0"

-- `hex.EncodeToString`: the high half of each byte, then the low half.
unfoldable pub encode_to_string : List ℕ → String
unfolding hex_digit
encode_to_string [] = ""
encode_to_string (b ∷ bs) =
    String.◌∷◌ (hex_digit (b / 16)) (String.◌∷◌ (hex_digit (b % 16)) (encode_to_string bs))

-- `SubscriptionID`, from the 16 bytes that `rand.Read` puts into `b`.
unfoldable pub subscription_id : List ℕ → String
unfolding encode_to_string
subscription_id b = encode_to_string b

-- What the model takes of `runtime.MemStats`.
pub record MemStats : Type 0 where
  pub alloc : ℕ
  pub total_alloc : ℕ
  pub sys : ℕ
  pub num_gc : ℕ

module _ {Float64 : Type 0} (zero_float : Float64) where
  -- `GoProcessMemoryUsage`: the fields that it does not set have their zero values.
  unfoldable pub go_process_memory_usage : MemStats → SrvData Float64
  go_process_memory_usage m = record {
    kv_map_length = 0;
    topics = [];
    system_ram_usage = zero_float;
    heap_alloc_mb = m.alloc / 1024 / 1024;
    total_alloc_mb = m.total_alloc / 1024 / 1024;
    sys_mb = m.sys / 1024 / 1024;
    num_gc = m.num_gc;
    cpu_usage = zero_float;
  }

-- `SystemCPUUsage`: the first of the percentages. `none` is the panic on an empty slice, which
-- `cpu.Percent` returns beside an error.
unfoldable pub system_cpu_usage : {Float64 : Type 0} → List Float64 → Option Float64
system_cpu_usage [] = none
system_cpu_usage (percent ∷ rest) = some percent

-- `SystemRamUsage`: the `UsedPercent` of what `mem.VirtualMemory` returned. `none` is the panic on
-- the nil pointer that it returns beside an error.
unfoldable pub system_ram_usage : {Float64 : Type 0} → Option Float64 → Option Float64
system_ram_usage none = none
system_ram_usage (some used_percent) = some used_percent
