-- ===== src/Net/Run/Throws.antt =====
-- `Throws E m`: every exception that the action `m` throws has `E`.
use p2psc.Prelude.{ℕ, Bool, true, false, Option, none, some, Bytes, get_elem?, if◌then◌else◌}
use p2psc.Errors.{
  Exception, Result, runtime_error, socket_exception, message_exception, crypto_exception,
  connection_exception, runtime_error_pointer,
}
use p2psc.Errors
use p2psc.Net.Objects.{Socket, MediatorConnection}
use p2psc.Net.System.{Action, Trace}
use p2psc.Net.Run.{
  World, Outcome, ok, throw, aborted, crashed, blocked, stuck, Run, pure, raise, stop, lift,
  outcome, ask, gets, act, modify_connection, make_shared, put_socket, get_socket, found, not_null,
  assert, and_then, ◌>>=◌, handled, catch, on_exception, scoped,
}

-- Any exception but a `ConnectionException`.
abbrev pub IsPlain : Exception → Type 0
IsPlain (connection_exception kind reason) = ⊥
IsPlain _ = Unit {0}

-- What pure code throws.
abbrev pub ResultThrows : {A : Type 0} → (Exception → Type 0) → Result A → Type 0
ResultThrows E (Errors.ok a) = Unit {0}
ResultThrows E (Errors.throw e) = E e

abbrev pub OutcomeThrows : {A : Type 0} → (Exception → Type 0) → Outcome A → Type 0
OutcomeThrows E (throw e) = E e
OutcomeThrows E _ = Unit {0}

pub record Throws {A : Type 0} (E : Exception → Type 0) (m : Run A) : Type 0 where
  pub after : (w : World) → OutcomeThrows E (m w).0

outcome-Throws :
    {A : Type 0} (E : Exception → Type 0) (r : Result A)
    → ResultThrows E r
    → OutcomeThrows E (outcome r)
unfolding outcome
outcome-Throws E (Errors.ok a) h = tt
outcome-Throws E (Errors.throw e) h = h

found-Throws : (E : Exception → Type 0) (o : Option Socket) → OutcomeThrows E (found o)
unfolding found
found-Throws E none = tt
found-Throws E (some v) = tt

module _ {E : Exception → Type 0} where
  module _ {A : Type 0} where
    pub Throws-pure : (a : A) → Throws E (pure a)
    unfolding pure
    Throws-pure a = record { after = λ w. tt }

    pub Throws-raise : (e : Exception) → E e → Throws {A = A} E (raise e)
    unfolding raise
    Throws-raise e h = record { after = λ w. h }

    pub Throws-blocked : Throws {A = A} E (stop blocked)
    unfolding stop
    Throws-blocked = record { after = λ w. tt }

    pub Throws-stuck : Throws {A = A} E (stop stuck)
    unfolding stop
    Throws-stuck = record { after = λ w. tt }

    pub Throws-aborted : Throws {A = A} E (stop aborted)
    unfolding stop
    Throws-aborted = record { after = λ w. tt }

    pub Throws-lift : (r : Result A) → ResultThrows E r → Throws E (lift r)
    unfolding lift
    Throws-lift r h = record { after = λ w. outcome-Throws E r h }

    pub Throws-ask : (f : Trace → A) → Throws E (ask f)
    unfolding ask
    Throws-ask f = record { after = λ w. tt }

    pub Throws-gets : (f : World → A) → Throws E (gets f)
    unfolding gets
    Throws-gets f = record { after = λ w. tt }

    pub Throws-not_null : (o : Option A) → Throws E (not_null o)
    unfolding not_null
    Throws-not_null none = record { after = λ w. tt }
    Throws-not_null (some a) = record { after = λ w. tt }

    pub Throws-if :
        (b : Bool) (m n : Run A) → Throws E m → Throws E n → Throws E (if b then m else n)
    Throws-if true m n tm tn = tm
    Throws-if false m n tm tn = tn

    pub handled-Throws :
        {E' : Exception → Type 0} (o : Outcome A) (handler : Exception → Run A) (w : World)
        → OutcomeThrows E' o
        → ((e : Exception) → E' e → Throws E (handler e))
        → OutcomeThrows E (handled o handler w).0
    handled-Throws (throw e) handler w h th = (th e h).after w
    handled-Throws (ok a) handler w h th = tt
    handled-Throws aborted handler w h th = tt
    handled-Throws crashed handler w h th = tt
    handled-Throws blocked handler w h th = tt
    handled-Throws stuck handler w h th = tt

    pub Throws-handle :
        (E' : Exception → Type 0) (m : Run A) (handler : Exception → Run A)
        → Throws E' m
        → ((e : Exception) → E' e → Throws E (handler e))
        → Throws E (catch m handler)
    unfolding catch
    Throws-handle E' m handler tm th = record {
      after = λ w. handled-Throws (m w).0 handler (m w).1 (tm.after w) th;
    }

    pub Throws-catch :
        (m : Run A) (handler : Exception → Run A)
        → Throws E m
        → ((e : Exception) → E e → Throws E (handler e))
        → Throws E (catch m handler)
    Throws-catch m handler tm th = Throws-handle E m handler tm th

  pub Throws-act : (a : Action) → Throws E (act a)
  unfolding act
  Throws-act a = record { after = λ w. tt }

  pub Throws-modify_connection :
      (f : MediatorConnection → MediatorConnection) → Throws E (modify_connection f)
  unfolding modify_connection
  Throws-modify_connection f = record { after = λ w. tt }

  pub Throws-make_shared : (v : Socket) → Throws E (make_shared v)
  unfolding make_shared
  Throws-make_shared v = record { after = λ w. tt }

  pub Throws-put_socket : (p : ℕ) (v : Socket) → Throws E (put_socket p v)
  unfolding put_socket
  Throws-put_socket p v = record { after = λ w. tt }

  pub Throws-get_socket : (p : ℕ) → Throws E (get_socket p)
  unfolding get_socket
  Throws-get_socket p = record { after = λ w. found-Throws E (get_elem? w.sockets p) }

  pub Throws-assert : (b : Bool) → Throws E (assert b)
  unfolding assert
  Throws-assert true = record { after = λ w. tt }
  Throws-assert false = record { after = λ w. tt }

  module _ {A B : Type 0} where
    pub and_then-Throws :
        (o : Outcome A) (f : A → Run B) (w : World)
        → OutcomeThrows E o
        → ((a : A) → Throws E (f a))
        → OutcomeThrows E (and_then o f w).0
    and_then-Throws (ok a) f w h tf = (tf a).after w
    and_then-Throws (throw e) f w h tf = h
    and_then-Throws aborted f w h tf = tt
    and_then-Throws crashed f w h tf = tt
    and_then-Throws blocked f w h tf = tt
    and_then-Throws stuck f w h tf = tt

    pub Throws-bind :
        (m : Run A) (f : A → Run B) → Throws E m → ((a : A) → Throws E (f a)) → Throws E (m >>= f)
    unfolding ◌>>=◌
    Throws-bind m f tm tf = record {
      after = λ w. and_then-Throws (m w).0 f (m w).1 (tm.after w) tf;
    }

  module _ {A : Type 0} where
    pub Throws-on_exception :
        (m : Run A) (cleanup : Run (Unit {0}))
        → Throws E m
        → Throws E cleanup
        → Throws E (on_exception m cleanup)
    unfolding on_exception
    Throws-on_exception m cleanup tm tc =
        Throws-catch m _ tm λ e h. Throws-bind cleanup _ tc λ u. Throws-raise e h

    pub Throws-scoped :
        (m : Run A) (cleanup : Run (Unit {0}))
        → Throws E m
        → Throws E cleanup
        → Throws E (scoped m cleanup)
    unfolding scoped
    Throws-scoped m cleanup tm tc =
        Throws-bind _ _ (Throws-on_exception m cleanup tm tc)
          λ a. Throws-bind cleanup _ tc λ u. Throws-pure a

weaken-Throws :
    {A : Type 0} (E E' : Exception → Type 0) (o : Outcome A)
    → ((e : Exception) → E e → E' e)
    → OutcomeThrows E o
    → OutcomeThrows E' o
weaken-Throws E E' (throw e) f h = f e h
weaken-Throws E E' (ok a) f h = tt
weaken-Throws E E' aborted f h = tt
weaken-Throws E E' crashed f h = tt
weaken-Throws E E' blocked f h = tt
weaken-Throws E E' stuck f h = tt

pub Throws-weaken :
    {A : Type 0} {E E' : Exception → Type 0} (m : Run A)
    → ((e : Exception) → E e → E' e)
    → Throws E m
    → Throws E' m
Throws-weaken {E} {E'} m f tm = record { after = λ w. weaken-Throws E E' (m w).0 f (tm.after w) }

module _ {A : Type 0} (what : Bytes) where
  pub Throws-runtime_error : Throws {A = A} IsPlain (raise (runtime_error what))
  Throws-runtime_error = Throws-raise _ tt

  pub Throws-socket_exception : Throws {A = A} IsPlain (raise (socket_exception what))
  Throws-socket_exception = Throws-raise _ tt

  pub Throws-pointer : Throws {A = A} IsPlain (raise (runtime_error_pointer what))
  Throws-pointer = Throws-raise _ tt

pub ruleset throws_rules = (
  Throws-pure, Throws-blocked, Throws-stuck, Throws-aborted, Throws-ask, Throws-gets,
  Throws-not_null, Throws-if, Throws-catch, Throws-act, Throws-modify_connection,
  Throws-make_shared, Throws-put_socket, Throws-get_socket, Throws-assert, Throws-bind,
  Throws-on_exception, Throws-scoped, Throws-runtime_error, Throws-socket_exception, Throws-pointer,
)
