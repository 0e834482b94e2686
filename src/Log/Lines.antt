-- ===== src/Log/Lines.antt =====
-- The end of a record of the log.
use p2psc.Prelude.{
  ℕ, suc, zero, ◌++◌, ◌≡◌, ◌≢◌, refl, ap, ◌∙◌, Bool-cases, inl, inr, [], ◌∷◌, Bytes, ◌==◌, arith,
}
use p2psc.Log.{newline, add_char, strip}

-- `n` newlines.
unfoldable pub newlines : ℕ → Bytes
newlines zero = []
newlines (suc n) = newline ∷ newlines n

-- No text, or one whose last character is no newline.
abbrev pub IsStripped : Bytes → Type 0
IsStripped [] = Unit {0}
IsStripped (c ∷ []) = c ≢ newline
IsStripped (c ∷ d ∷ s) = IsStripped (d ∷ s)

add_char-IsStripped : (c : ℕ) (s : Bytes) → IsStripped s → IsStripped (add_char c s)
add_char-IsStripped c [] h = elim (Bool-cases (c == newline)) [
  | inl same ↦ rw same tt
  | inr other ↦ rw other (λ e. ground (arith, other, e))
]
add_char-IsStripped c (d ∷ s) h = h

strip-IsStripped : (s : Bytes) → IsStripped (strip s)
unfolding strip
strip-IsStripped [] = tt
strip-IsStripped (c ∷ s) = add_char-IsStripped c (strip s) (strip-IsStripped s)

add_char-newlines :
    (c : ℕ) (s : Bytes) (n : ℕ) → (k : ℕ) × (c ∷ (s ++ newlines n) ≡ add_char c s ++ newlines k)
unfolding newlines
add_char-newlines c [] n = elim (Bool-cases (c == newline)) [
  | inl same ↦
      let e : c ≡ newline = ground (arith, same) in (suc n, rw same (ap (λ c. c ∷ newlines n) e))
  | inr other ↦ (n, rw other refl)
]
add_char-newlines c (d ∷ s) n = (n, refl)

strip-newlines : (s : Bytes) → (n : ℕ) × (s ≡ strip s ++ newlines n)
unfolding strip newlines
strip-newlines [] = (0, refl)
strip-newlines (c ∷ s) =
    let (n, e) = strip-newlines s in
    let (k, e') = add_char-newlines c (strip s) n in (k, ap (λ s. c ∷ s) e ∙ e')

-- A text is what `strip` leaves of it and some number of newlines, and what `strip` leaves does not end
-- in a newline.
pub strip_lem : (s : Bytes) → IsStripped (strip s) × ((n : ℕ) × (s ≡ strip s ++ newlines n))
strip_lem s = (strip-IsStripped s, strip-newlines s)
