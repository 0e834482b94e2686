-- ===== src/Integration/Handle/Leaves.antt =====
-- `Leaves h Q`: the action `h` leaves the store and the set of the completed disconnects as they are,
-- and `Q` holds of what it returns.
use p2psc.Prelude.{◌≡◌, refl, ◌∙◌}
use p2psc.Errors.{Result, ok, throw}
use p2psc.Integration.Handle.{FakeMediator, Handle, pure, lift, state, modify, and_then, ◌>>=◌}

-- What the handlers share beside the messages that they have logged.
abbrev pub SameShared : FakeMediator → FakeMediator → Type 0
SameShared m m' =
    (m'.completed_disconnects ≡ m.completed_disconnects)
    × (m'.key_to_identifier_store ≡ m.key_to_identifier_store)

module _ {A : Type 0} where
  abbrev pub IsGood : (A → Type 0) → Result A → Type 0
  IsGood Q (ok a) = Q a
  IsGood Q (throw e) = Unit {0}

  pub record Leaves (h : Handle A) (Q : A → Type 0) : Type 0 where
    pub after : (m : FakeMediator) → SameShared m (h m).1 × IsGood Q (h m).0

  abbrev pub Any : A → Type 0
  Any a = Unit {0}

  IsGood-Any : (r : Result A) → IsGood Any r
  IsGood-Any (ok a) = tt
  IsGood-Any (throw e) = tt

  pub Leaves-pure : {Q : A → Type 0} (a : A) → Q a → Leaves (pure a) Q
  unfolding pure
  Leaves-pure a q = record { after = λ m. ((refl, refl), q) }

  pub Leaves-lift : (r : Result A) → Leaves (lift r) Any
  unfolding lift
  Leaves-lift r = record { after = λ m. ((refl, refl), IsGood-Any r) }

pub Leaves-state : Leaves state Any
unfolding state
Leaves-state = record { after = λ m. ((refl, refl), tt) }

pub Leaves-modify :
    (f : FakeMediator → FakeMediator)
    → ((m : FakeMediator) → SameShared m (f m))
    → Leaves (modify f) Any
unfolding modify
Leaves-modify f same = record { after = λ m. (same m, tt) }

module _ {A B : Type 0} {Q : B → Type 0} where
  and_then-after :
      (R : A → Type 0) (r : Result A) (f : A → Handle B) (m : FakeMediator)
      → IsGood R r
      → ((a : A) → R a → Leaves (f a) Q)
      → SameShared m (and_then r f m).1 × IsGood Q (and_then r f m).0
  and_then-after R (ok a) f m good lf = (lf a good).after m
  and_then-after R (throw e) f m good lf = ((refl, refl), tt)

  pub Leaves-bind :
      (R : A → Type 0) (h : Handle A) (f : A → Handle B)
      → Leaves h R
      → ((a : A) → R a → Leaves (f a) Q)
      → Leaves (h >>= f) Q
  unfolding ◌>>=◌
  Leaves-bind R h f lh lf = record {
    after = λ m.
        let (same, good) = lh.after m in
        let (same', good') = and_then-after R (h m).0 f (h m).1 good lf in
        ((same'.0 ∙ same.0, same'.1 ∙ same.1), good');
  }
