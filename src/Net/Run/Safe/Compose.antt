-- ===== src/Net/Run/Safe/Compose.antt =====
-- `Safe` of actions on objects, of sequences, and of exception handlers.
use p2psc.Prelude.{ℕ, ◌≡◌, refl, Option, none, some, List, [], ◌∷◌, ◌++◌, get_elem?, length}
use p2psc.Errors.{Exception}
use p2psc.Net.Objects.{Socket, MediatorConnection}
use p2psc.Net.System.{Os, Action}
use p2psc.Net.Run.{
  World, Outcome, ok, throw, aborted, crashed, blocked, stuck, Run, act, make_shared, get_socket,
  found, and_then, ◌>>=◌, handled, catch, on_exception, scoped,
}
use p2psc.Net.Run.Safe.{
  Keeps-pure, Keeps-raise, Keeps-lift, Keeps-ask, Keeps-gets, Keeps-block, Keeps-if, Safe-pure,
  Safe-raise, Safe-not_null, Safe-gets, Safe-if, Safe-fix, Safe-assume, Safe-weaken,
  Safe-put_socket, Safe-modify_connection, Safe-assert, IsGood, Safe, Keeps, IsPointer, Assertion,
}

module _ ⦃o : Os⦄ where
  found-IsGood :
      (P : Assertion) (p : ℕ) (x : Option Socket) (w : World)
      → P w.sockets w.connection
      → get_elem? w.sockets p ≡ x
      → IsPointer p w.sockets
      → IsGood (λ v s c. P s c × (get_elem? s p ≡ some v)) P (found x) w
  unfolding found
  found-IsGood P p (some v) w pre e h = (pre, e)
  found-IsGood P p none w pre e (v, at) = cc

module _ ⦃o : Os⦄ {P : Assertion} where
  pub Keeps-act : (a : Action) → Keeps P (act a)
  unfolding act
  Keeps-act a = record { after = λ w h. h }

  pub Safe-make_shared :
      {E : Assertion} {Q : ℕ → Assertion} (v : Socket)
      → ((s : List Socket) (c : MediatorConnection) → P s c → Q (length s) (s ++ (v ∷ [])) c)
      → Safe P (make_shared v) Q E
  unfolding make_shared
  Safe-make_shared v h = record { after = λ w pre. h w.sockets w.connection pre }

  pub Safe-get_socket :
      (p : ℕ)
      → ((s : List Socket) (c : MediatorConnection) → P s c → IsPointer p s)
      → Safe P (get_socket p) (λ v s c. P s c × (get_elem? s p ≡ some v)) P
  unfolding get_socket
  Safe-get_socket p h = record {
    after =
        λ w pre. found-IsGood P p (get_elem? w.sockets p) w pre refl (h w.sockets w.connection pre);
  }

module _ ⦃o : Os⦄ {A B : Type 0} {E : Assertion} {Q : B → Assertion} where
  and_then-IsGood :
      (R : A → Assertion) (r : Outcome A) (f : A → Run B) (w : World)
      → IsGood R E r w
      → ((a : A) → Safe (R a) (f a) Q E)
      → IsGood Q E (and_then r f w).0 (and_then r f w).1
  and_then-IsGood R (ok a) f w h safe = (safe a).after w h
  and_then-IsGood R (throw e) f w h safe = h
  and_then-IsGood R crashed f w h safe = h
  and_then-IsGood R blocked f w h safe = tt
  and_then-IsGood R aborted f w h safe = h
  and_then-IsGood R stuck f w h safe = h

module _ ⦃o : Os⦄ {A B : Type 0} {P E : Assertion} {Q : B → Assertion} where
  pub Safe-bind :
      (R : A → Assertion) (m : Run A) (f : A → Run B)
      → Safe P m R E
      → ((a : A) → Safe (R a) (f a) Q E)
      → Safe P (m >>= f) Q E
  unfolding ◌>>=◌
  Safe-bind R m f sm sf = record {
    after = λ w h. and_then-IsGood R (m w).0 f (m w).1 (sm.after w h) sf;
  }

module _ ⦃o : Os⦄ {A : Type 0} {E : Assertion} {Q : A → Assertion} where
  handled-IsGood :
      (E' : Assertion) (r : Outcome A) (handler : Exception → Run A) (w : World)
      → IsGood Q E' r w
      → ((e : Exception) → Safe E' (handler e) Q E)
      → IsGood Q E (handled r handler w).0 (handled r handler w).1
  handled-IsGood E' (ok a) handler w h safe = h
  handled-IsGood E' (throw e) handler w h safe = (safe e).after w h
  handled-IsGood E' crashed handler w h safe = h
  handled-IsGood E' blocked handler w h safe = tt
  handled-IsGood E' aborted handler w h safe = h
  handled-IsGood E' stuck handler w h safe = h

module _ ⦃o : Os⦄ {A : Type 0} {P E : Assertion} {Q : A → Assertion} where
  pub Safe-catch :
      (E' : Assertion) (m : Run A) (handler : Exception → Run A)
      → Safe P m Q E'
      → ((e : Exception) → Safe E' (handler e) Q E)
      → Safe P (catch m handler) Q E
  unfolding catch
  Safe-catch E' m handler sm sh = record {
    after = λ w h. handled-IsGood E' (m w).0 handler (m w).1 (sm.after w h) sh;
  }

  pub Safe-on_exception :
      (E' : Assertion) (m : Run A) (cleanup : Run (Unit {0}))
      → Safe P m Q E'
      → Safe E' cleanup (λ u. E) E
      → Safe P (on_exception m cleanup) Q E
  unfolding on_exception
  Safe-on_exception E' m cleanup sm sc =
      Safe-catch E' m _ sm λ e. Safe-bind (λ u. E) cleanup _ sc λ u. Safe-raise e (λ s c h. h)

module _ ⦃o : Os⦄ {A : Type 0} {P E : Assertion} {Q : A → Assertion} where
  pub Safe-scoped :
      (E' : Assertion) (R : A → Assertion) (m : Run A) (cleanup : Run (Unit {0}))
      → Safe P m R E'
      → Safe E' cleanup (λ u. E) E
      → ((a : A) → Safe (R a) cleanup (λ u. Q a) E)
      → Safe P (scoped m cleanup) Q E
  unfolding scoped
  Safe-scoped E' R m cleanup sm sc sr =
      Safe-bind R (on_exception m cleanup) _ (Safe-on_exception E' m cleanup sm sc)
        λ a. Safe-bind (λ u. Q a) cleanup _ (sr a) λ u. Safe-pure a (λ s c h. h)

module _ ⦃o : Os⦄ {A B : Type 0} {P : Assertion} where
  pub Keeps-bind :
      (m : Run A) (f : A → Run B) → Keeps P m → ((a : A) → Keeps P (f a)) → Keeps P (m >>= f)
  Keeps-bind m f km kf = Safe-bind (λ a. P) m f km kf

module _ ⦃o : Os⦄ {A : Type 0} {P : Assertion} where
  pub Keeps-catch :
      (m : Run A) (handler : Exception → Run A)
      → Keeps P m
      → ((e : Exception) → Keeps P (handler e))
      → Keeps P (catch m handler)
  Keeps-catch m handler km kh = Safe-catch P m handler km kh

pub ruleset keeps_rules = (
  Keeps-pure, Keeps-raise, Keeps-lift, Keeps-ask, Keeps-gets, Keeps-block, Keeps-if, Keeps-act,
  Keeps-bind, Keeps-catch,
)
