-- ===== src/Kv/Live.antt =====
-- The entries of a map that have not expired at a given time, and what the handlers do to them.
use quash.Messages.{GetKvResponse}
use quash.Prelude.Int.{◌≤ℤ◌}
use quash.Clock.Order.{after_mono}
use quash.GoMap.{GoMap, get}
use quash.GoMap.Range.{contains}
use quash.Clock.{Time, add}
use quash.Structs.{KvValue}
use quash.Handler.{Reply, error, ok}
use quash.GoMap.Laws.{get-delete}
use quash.Kv.{collect, collect_key, expired, look_up}
use quash.Prelude.{
  List, Option, String, [], arith, eq_iff, if◌then◌else◌, none, refl, some, true, ◌==◌, ◌∷◌, ◌≡◌,
}

abbrev pub live : Time → Option KvValue → Option KvValue
live now none = none
live now (some v) = if expired now v then none else some v

-- The answer of `GetKV` to what is live.
abbrev pub found : Option KvValue → Reply GetKvResponse
found none = error "key doesn't exist"
found (some v) = ok (record { value = v.value })

pub expired_mono : (t u : Time) (v : KvValue) → t ≤ℤ u → expired t v ≡ true → expired u v ≡ true
unfolding expired
expired_mono t u v h e = after_mono t u (add v.init_time v.time_out) h e

-- What has expired stays expired.
pub live-live : (t u : Time) (o : Option KvValue) → t ≤ℤ u → live u (live t o) ≡ live u o
live-live t u none h = refl
live-live t u (some v) h = ground (arith, expired_mono t u v h)

pub look_up-eq-found :
    (now : Time) (k : String) (m : GoMap KvValue) → (look_up now k m).0 ≡ found (live now (get m k))
unfolding look_up
look_up-eq-found now k m = ground arith

-- A look-up drops its key if that has expired, and touches no other.
pub get-look_up :
    (now : Time) (k j : String) (m : GoMap KvValue)
    → get (look_up now k m).1 j ≡ (if k == j then live now (get m j) else get m j)
unfolding look_up
get-look_up now k j m = ground (arith, get-delete m k j, eq_iff k j)

pub get-collect_key :
    (now : Time) (k j : String) (m : GoMap KvValue)
    → get (collect_key now m k) j ≡ (if k == j then live now (get m j) else get m j)
unfolding collect_key
get-collect_key now k j m = ground (arith, get-delete m k j, eq_iff k j)

pub get-collect :
    (now : Time) (order : List String) (m : GoMap KvValue) (j : String)
    → get (collect now order m) j ≡ (if contains order j then live now (get m j) else get m j)
unfolding collect
get-collect now [] m j = refl
get-collect now (k ∷ order) m j =
    rw (get-collect now order (collect_key now m k) j, get-collect_key now k j m)
      (ground (arith, live-live now now (get m j) (omega arith)))

pub live-get-look_up :
    (t u : Time) (k j : String) (m : GoMap KvValue)
    → t ≤ℤ u
    → live u (get (look_up t k m).1 j) ≡ live u (get m j)
live-get-look_up t u k j m h = rw (get-look_up t k j m) (ground (arith, live-live t u (get m j) h))

pub live-get-collect :
    (t u : Time) (order : List String) (m : GoMap KvValue) (j : String)
    → t ≤ℤ u
    → live u (get (collect t order m) j) ≡ live u (get m j)
live-get-collect t u order m j h =
    rw (get-collect t order m j) (ground (arith, live-live t u (get m j) h))
