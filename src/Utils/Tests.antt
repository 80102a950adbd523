-- ===== src/Utils/Tests.antt =====
-- Identifiers at concrete inputs.
use quash.Utils.{subscription_id}
use quash.Prelude.{List, [], arith, refl, ℕ, ◌∷◌, ◌≡◌}
use quash.Utils.Hex.{subscription_id_injective}

abbrev sixteen : List ℕ
sixteen = 0 ∷ 1 ∷ 2 ∷ 3 ∷ 4 ∷ 5 ∷ 6 ∷ 7 ∷ 8 ∷ 9 ∷ 10 ∷ 11 ∷ 12 ∷ 13 ∷ 254 ∷ 255 ∷ []

subscription_id_run : subscription_id sixteen ≡ "000102030405060708090a0b0c0dfeff"
unfolding subscription_id
subscription_id_run = refl

subscription_id_injective_example : sixteen ≡ sixteen
subscription_id_injective_example =
    subscription_id_injective sixteen sixteen (omega arith) (omega arith) refl
