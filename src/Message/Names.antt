-- ===== src/Message/Names.antt =====
-- The names of the message types that the log and the error texts show.
use p2psc.Prelude.{
  ℕ, zero, suc, ◌<◌, ◌^◌, ◌≡◌, refl, sym, ap, ◌∙◌, Bool, Bool-cases, true, false, inl, inr, ◌&&◌,
  Bytes, bytes_eq, to_string, ◌==◌, ==_iff, if◌then◌else◌, arith,
}
use p2psc.Message.Types.{message_type_string}

-- The first type below `n` that has the name.
find_type : ℕ → Bytes → ℕ
find_type zero name = 0
find_type (suc n) name =
    let rest = find_type n name in if bytes_eq (message_type_string n) name then n else rest

both : (a b : Bool) → a && b ≡ true → (a ≡ true) × (b ≡ true)
both true b h = (refl, h)
both false b h = cc

earlier : (t n : ℕ) → t < suc n → (t == n) ≡ false → t < n
earlier t n lt other = ground arith

-- A type is found by its name.
is_found : ℕ → Bool
unfolding find_type
is_found type = find_type 256 (message_type_string type) == type

found_up_to : ℕ → Bool
unfolding is_found
found_up_to zero = true
found_up_to (suc type) = found_up_to type && is_found type

found_up_to-is_found : (t n : ℕ) → t < n → found_up_to n ≡ true → is_found t ≡ true
unfolding found_up_to
found_up_to-is_found t (suc n) lt found =
    let (before, last) = both (found_up_to n) (is_found n) found in
    elim (Bool-cases (t == n)) [
      | inl same ↦ rw ((==_iff t n).0 same) last
      | inr other ↦ found_up_to-is_found t n (earlier t n lt other) before
    ]
found_up_to-is_found t zero lt found = absurd (omega arith)

every_type_found : found_up_to 256 ≡ true
unfolding found_up_to find_type message_type_string bytes_eq to_string
every_type_found = refl

find_type-message_type_string : (t : ℕ) → t < 2 ^ 8 → find_type 256 (message_type_string t) ≡ t
unfolding is_found
find_type-message_type_string t h = (==_iff _ t).0 (found_up_to-is_found t 256 h every_type_found)

-- No two of the 256 message types share a name.
pub message_type_string_injective :
    (s t : ℕ) → s < 2 ^ 8 → t < 2 ^ 8 → message_type_string s ≡ message_type_string t → s ≡ t
message_type_string_injective s t hs ht e =
    sym (find_type-message_type_string s hs)
    ∙ ap (find_type 256) e
    ∙ find_type-message_type_string t ht
