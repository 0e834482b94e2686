-- ===== src/Prelude/Text.antt =====
-- A `std::string` is the list of its bytes. Literals are written as texts and read by `codes`.
use Prim.Native.Nat.{ℕ, zero, suc, ◌+◌, ◌/◌, ◌%◌, ◌<◌}
use Prim.Native.Char.{code}
use Prim.Native.String.{String}
use mathlib.Core.Path.{◌≡◌, refl}
use mathlib.Core.Bool.{Bool, true, false, ◌&&◌}
use mathlib.Core.List.{List, [], ◌∷◌, ◌++◌}
use native.Mathlib.Omega.{arith}
use p2psc.Prelude.Lists.{All}
use mathlib.Core.Logic.{inl, inr}
use p2psc.Prelude.Tests.{Bool-cases, ltb, ◌==◌, if◌then◌else◌}

abbrev pub Bytes : Type 0
Bytes = List ℕ

abbrev pub codes : String → Bytes
codes String.[] = []
codes (String.◌∷◌ c s) = code c ∷ codes s

-- `operator==` of `std::string`.
unfoldable pub bytes_eq : Bytes → Bytes → Bool
bytes_eq [] [] = true
bytes_eq (a ∷ s) (b ∷ t) = a == b && bytes_eq s t
bytes_eq _ _ = false

pub bytes_eq→eq : (s t : Bytes) → bytes_eq s t ≡ true → s ≡ t
unfolding bytes_eq
bytes_eq→eq [] [] h = refl
bytes_eq→eq (a ∷ s) (b ∷ t) h = ground (arith, bytes_eq→eq s t)
bytes_eq→eq _ _ h = ground arith

pub bytes_eq_refl : (s : Bytes) → bytes_eq s s ≡ true
unfolding bytes_eq
bytes_eq_refl [] = refl
bytes_eq_refl (a ∷ s) = ground (arith, bytes_eq_refl s)

-- `std::to_string` of an unsigned number: its decimal digits. The fuel bounds the digits.
to_string_fuel : ℕ → ℕ → Bytes
to_string_fuel zero n = []
to_string_fuel (suc f) n =
    let front = to_string_fuel f (n / 10) in
    if ltb n 10 then (48 + n) ∷ [] else front ++ ((48 + n % 10) ∷ [])

-- 20 digits are enough for every 64-bit number.
unfoldable pub to_string : ℕ → Bytes
unfolding to_string_fuel
to_string n = to_string_fuel 20 n

append-IsAscii :
    (s t : Bytes) → All (λ b. b < 128) s → All (λ b. b < 128) t → All (λ b. b < 128) (s ++ t)
append-IsAscii [] t h k = k
append-IsAscii (a ∷ s) t h k = (h.0, append-IsAscii s t h.1 k)

to_string_fuel-IsAscii : (f n : ℕ) → All (λ b. b < 128) (to_string_fuel f n)
unfolding to_string_fuel
to_string_fuel-IsAscii zero n = tt
to_string_fuel-IsAscii (suc f) n = elim (Bool-cases (ltb n 10)) [
  | inl h ↦ rw h (ground arith, tt)
  | inr h ↦ rw h (append-IsAscii _ _ (to_string_fuel-IsAscii f (n / 10)) (omega arith, tt))
]

-- The digits of a number are ASCII.
pub to_string-IsAscii : (n : ℕ) → All (λ b. b < 128) (to_string n)
unfolding to_string
to_string-IsAscii n = to_string_fuel-IsAscii 20 n

pub bytes_of_ascii : (s : Bytes) → All (λ b. b < 128) s → All (λ b. b < 256) s
bytes_of_ascii [] h = tt
bytes_of_ascii (a ∷ s) h = (omega (arith, h.0), bytes_of_ascii s h.1)
