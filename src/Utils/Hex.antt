-- ===== src/Utils/Hex.antt =====
-- Subscription identifiers: their length, and that two of them differ where their bytes do.
use quash.Utils.{get_or, hex_table, encode_to_string, subscription_id, hex_digit}
use quash.Prelude.{
  map, ap₂, List, [], ap, arith, length, refl, sym, zero, ◌%◌, ◌*◌, ◌+◌, ◌/◌, ◌∙◌, ◌∷◌, String,
  if◌then◌else◌, ltb, suc, ℕ, ◌-◌, ◌<◌, ◌≡◌,
}
use Prim.Native.Char.{Char, code}

-- The value of a hexadecimal digit.
digit_value : Char → ℕ
digit_value c = if ltb (code c) 58 then code c - 48 else code c - 87

-- The numbers from `low` on, as many as `k`.
from_on : ℕ → ℕ → List ℕ
from_on low zero = []
from_on low (suc k) = low ∷ from_on (low + 1) k

get_or-from_on : (low k i d : ℕ) → i < k → get_or (from_on low k) i d ≡ low + i
unfolding from_on
get_or-from_on low zero i d h = absurd (omega arith)
get_or-from_on low (suc k) zero d h = omega arith
get_or-from_on low (suc k) (suc i) d h = omega (arith, get_or-from_on (low + 1) k i d)

get_or-map :
    (f : Char → ℕ) (cs : List Char) (i : ℕ) (d : Char)
    → f (get_or cs i d) ≡ get_or (map f cs) i (f d)
get_or-map f [] i d = refl
get_or-map f (c ∷ cs) zero d = refl
get_or-map f (c ∷ cs) (suc i) d = get_or-map f cs i d

-- The digits of the table stand for the numbers from 0 to 15, in this order.
table_values : map digit_value hex_table ≡ from_on 0 16
unfolding digit_value from_on
table_values = refl

digit_value-hex_digit : (n : ℕ) → n < 16 → digit_value (hex_digit n) ≡ n
unfolding hex_digit
digit_value-hex_digit n h =
    get_or-map digit_value hex_table n "0"
    ∙ ap (λ (l : List ℕ). get_or l n (digit_value "0")) table_values
    ∙ omega (arith, get_or-from_on 0 16 n (digit_value "0") h)

-- The number of characters.
abbrev chars : String → ℕ
chars String.[] = 0
chars (String.◌∷◌ c s) = suc (chars s)

-- `encoding/hex` undone: the bytes of a text of digits.
bytes_of : String → List ℕ
bytes_of String.[] = []
bytes_of (String.◌∷◌ c String.[]) = []
bytes_of (String.◌∷◌ c (String.◌∷◌ d s)) = (digit_value c * 16 + digit_value d) ∷ bytes_of s

abbrev pub AllBytes : List ℕ → Type 0
AllBytes [] = Unit {0}
AllBytes (b ∷ bs) = (b < 256) × AllBytes bs

bytes_of-encode : (bs : List ℕ) → AllBytes bs → bytes_of (encode_to_string bs) ≡ bs
unfolding bytes_of encode_to_string
bytes_of-encode [] h = refl
bytes_of-encode (b ∷ bs) h = ap₂ ◌∷◌ (whole b h.0) (bytes_of-encode bs h.1)
  where
    whole :
        (b : ℕ)
        → b < 256
        → digit_value (hex_digit (b / 16)) * 16 + digit_value (hex_digit (b % 16)) ≡ b
    whole b h = omega (
      arith,
      digit_value-hex_digit (b / 16) (omega arith),
      digit_value-hex_digit (b % 16) (omega arith),
    )

chars-encode : (bs : List ℕ) → chars (encode_to_string bs) ≡ 2 * length bs
unfolding encode_to_string
chars-encode [] = omega arith
chars-encode (b ∷ bs) = omega (arith, chars-encode bs)

-- An identifier of 16 bytes has 32 characters.
chars-subscription_id : (b : List ℕ) → length b ≡ 16 → chars (subscription_id b) ≡ 32
unfolding subscription_id
chars-subscription_id b n = omega (arith, chars-encode b)

-- Two draws of bytes, each below 256, give one identifier only where they are equal.
pub subscription_id_injective :
    (b c : List ℕ) → AllBytes b → AllBytes c → subscription_id b ≡ subscription_id c → b ≡ c
unfolding subscription_id
subscription_id_injective b c hb hc e =
    sym (bytes_of-encode b hb) ∙ ap bytes_of e ∙ bytes_of-encode c hc
