-- ===== src/Net/Run/Safe.antt =====
-- `Safe P m Q E`: from a state with `P`, the action `m` ends without a failed assertion, and with no
-- null pointer that is followed unless `accept` has failed. If it returns, `Q` holds of the result
-- and the state; if it throws, `E` holds of the state.
pub mod Compose
use p2psc.Prelude.{
  ℕ, ◌≡◌, refl, Bool, true, false, Option, none, some, List, [], ◌∷◌, ◌++◌, get_elem?, set, length,
  if◌then◌else◌,
}
use p2psc.Errors.{Exception, Result}
use p2psc.Errors
use p2psc.Net.Objects.{Socket, MediatorConnection}
use p2psc.Net.System.{Os, Action, Trace}
use p2psc.Net.Run.{
  World, Outcome, ok, throw, aborted, crashed, blocked, stuck, Run, pure, raise, stop, lift,
  outcome, ask, gets, act, modify_connection, make_shared, put_socket, get_socket, found, not_null,
  assert, and_then, ◌>>=◌, handled, catch, on_exception, scoped,
}

-- There is an object behind the pointer.
abbrev pub IsPointer : ℕ → List Socket → Type 0
IsPointer p s = (v : Socket) × (get_elem? s p ≡ some v)

-- A statement about the socket objects and the `MediatorConnection`.
abbrev pub Assertion : Type 1
Assertion = List Socket → MediatorConnection → Type 0

module _ ⦃o : Os⦄ {A : Type 0} where
  -- What `Safe` says of an outcome and the state after it.
  abbrev pub IsGood : (A → Assertion) → Assertion → Outcome A → World → Type 0
  IsGood Q E (ok a) w = Q a w.sockets w.connection
  IsGood Q E (throw e) w = E w.sockets w.connection
  IsGood Q E crashed w = (fd : ℕ) × (o.accept w.trace (some fd) ≡ none)
  IsGood Q E blocked w = Unit {0}
  IsGood Q E aborted w = ⊥
  IsGood Q E stuck w = ⊥

  pub record Safe (P : Assertion) (m : Run A) (Q : A → Assertion) (E : Assertion) : Type 0 where
    pub after : (w : World) → P w.sockets w.connection → IsGood Q E (m w).0 (m w).1

  -- The action leaves every statement `P` as it was.
  abbrev pub Keeps : Assertion → Run A → Type 0
  Keeps P m = Safe P m (λ a. P) P

  lift-IsGood :
      (P : Assertion) (r : Result A) (w : World)
      → P w.sockets w.connection
      → IsGood (λ a. P) P (outcome r) w
  unfolding outcome
  lift-IsGood P (Errors.ok a) w h = h
  lift-IsGood P (Errors.throw e) w h = h

  module _ {P : Assertion} where
    pub Keeps-pure : (a : A) → Keeps P (pure a)
    unfolding pure
    Keeps-pure a = record { after = λ w h. h }

    pub Keeps-raise : (e : Exception) → Keeps P (raise e)
    unfolding raise
    Keeps-raise e = record { after = λ w h. h }

    pub Keeps-lift : (r : Result A) → Keeps P (lift r)
    unfolding lift
    Keeps-lift r = record { after = lift-IsGood P r }

    pub Keeps-ask : (f : Trace → A) → Keeps P (ask f)
    unfolding ask
    Keeps-ask f = record { after = λ w h. h }

    pub Keeps-gets : (f : World → A) → Keeps P (gets f)
    unfolding gets
    Keeps-gets f = record { after = λ w h. h }

    pub Keeps-block : Keeps P (stop blocked)
    unfolding stop
    Keeps-block = record { after = λ w h. tt }

    pub Keeps-if : (b : Bool) (m n : Run A) → Keeps P m → Keeps P n → Keeps P (if b then m else n)
    Keeps-if true m n km kn = km
    Keeps-if false m n km kn = kn

  module _ {P E : Assertion} {Q : A → Assertion} where
    pub Safe-pure :
        (a : A)
        → ((s : List Socket) (c : MediatorConnection) → P s c → Q a s c)
        → Safe P (pure a) Q E
    unfolding pure
    Safe-pure a h = record { after = λ w p. h w.sockets w.connection p }

    pub Safe-raise :
        (e : Exception)
        → ((s : List Socket) (c : MediatorConnection) → P s c → E s c)
        → Safe P (raise e) Q E
    unfolding raise
    Safe-raise e h = record { after = λ w p. h w.sockets w.connection p }

    pub Safe-not_null :
        (a : A)
        → ((s : List Socket) (c : MediatorConnection) → P s c → Q a s c)
        → Safe P (not_null (some a)) Q E
    unfolding not_null
    Safe-not_null a h = record { after = λ w p. h w.sockets w.connection p }

    -- A value that is read off the object of the connection.
    pub Safe-gets :
        (f : MediatorConnection → A)
        → ((s : List Socket) (c : MediatorConnection) → P s c → Q (f c) s c)
        → Safe P (gets (λ w. f w.connection)) Q E
    unfolding gets
    Safe-gets f h = record { after = λ w p. h w.sockets w.connection p }

    pub Safe-if :
        (b : Bool) (m n : Run A) → Safe P m Q E → Safe P n Q E → Safe P (if b then m else n) Q E
    Safe-if true m n sm sn = sm
    Safe-if false m n sm sn = sn

    -- The state that the action begins in has a name.
    pub Safe-fix :
        (m : Run A)
        → ((s₀ : List Socket) (c₀ : MediatorConnection)
            → P s₀ c₀
            → Safe (λ s c. (s ≡ s₀) × (c ≡ c₀)) m Q E)
        → Safe P m Q E
    Safe-fix m safe = record { after = λ w h. (safe w.sockets w.connection h).after w (refl, refl) }

    -- What is known of every state with `P` may be used for the action.
    pub Safe-assume :
        (m : Run A) {R : Type 0}
        → ((s : List Socket) (c : MediatorConnection) → P s c → R)
        → (R → Safe P m Q E)
        → Safe P m Q E
    Safe-assume m known safe = record {
      after = λ w h. (safe (known w.sockets w.connection h)).after w h;
    }

  weaken-IsGood :
      {Q Q' : A → Assertion} {E E' : Assertion}
      → ((a : A) (s : List Socket) (c : MediatorConnection) → Q a s c → Q' a s c)
      → ((s : List Socket) (c : MediatorConnection) → E s c → E' s c)
      → (r : Outcome A) (w : World) → IsGood Q E r w
      → IsGood Q' E' r w
  weaken-IsGood q e (ok a) w h = q a w.sockets w.connection h
  weaken-IsGood q e (throw x) w h = e w.sockets w.connection h
  weaken-IsGood q e crashed w h = h
  weaken-IsGood q e blocked w h = tt
  weaken-IsGood q e aborted w h = h
  weaken-IsGood q e stuck w h = h

  pub Safe-weaken :
      {P P' : Assertion} {Q Q' : A → Assertion} {E E' : Assertion} (m : Run A)
      → ((s : List Socket) (c : MediatorConnection) → P' s c → P s c)
      → ((a : A) (s : List Socket) (c : MediatorConnection) → Q a s c → Q' a s c)
      → ((s : List Socket) (c : MediatorConnection) → E s c → E' s c)
      → Safe P m Q E
      → Safe P' m Q' E'
  Safe-weaken m p q e safe = record {
    after = λ w h. weaken-IsGood q e (m w).0 (m w).1 (safe.after w (p w.sockets w.connection h));
  }

module _ ⦃o : Os⦄ {P E : Assertion} {Q : Unit {0} → Assertion} where
  pub Safe-put_socket :
      (p : ℕ) (v : Socket)
      → ((s : List Socket) (c : MediatorConnection) → P s c → Q tt (set s p v) c)
      → Safe P (put_socket p v) Q E
  unfolding put_socket
  Safe-put_socket p v h = record { after = λ w pre. h w.sockets w.connection pre }

  pub Safe-modify_connection :
      (f : MediatorConnection → MediatorConnection)
      → ((s : List Socket) (c : MediatorConnection) → P s c → Q tt s (f c))
      → Safe P (modify_connection f) Q E
  unfolding modify_connection
  Safe-modify_connection f h = record { after = λ w pre. h w.sockets w.connection pre }

  pub Safe-assert :
      (b : Bool)
      → b ≡ true
      → ((s : List Socket) (c : MediatorConnection) → P s c → Q tt s c)
      → Safe P (assert b) Q E
  unfolding assert
  Safe-assert true e h = record { after = λ w pre. h w.sockets w.connection pre }
  Safe-assert false e h = cc
