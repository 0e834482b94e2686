-- ===== src/Net/Run.antt =====
-- Code that changes the state of a thread and may fail, as actions on the state.
pub mod Stable
pub mod Bounded
pub mod Returns
pub mod Safe
pub mod Throws
pub mod Written
pub mod Keeping
use p2psc.Prelude.{
  ℕ, Bool, true, false, Option, none, some, List, [], ◌∷◌, ◌++◌, length, get_elem?, set,
}
use p2psc.Errors.{Exception, Result}
use p2psc.Errors
use p2psc.Net.Objects.{Socket, MediatorConnection}
use p2psc.Net.System.{Action, Trace}

-- `sockets` are the socket objects, in the order of their creation. `connection` is the thread's
-- `MediatorConnection`.
pub record World : Type 0 where
  pub trace : Trace
  pub sockets : List Socket
  pub connection : MediatorConnection

-- `aborted` is a failed `BOOST_ASSERT`, `crashed` a null pointer that is followed, `blocked` a call
-- that never returns. `stuck` is no outcome of the program: a loop ran out of the model's fuel.
pub data Outcome (A : Type 0) : Type 0 where
  ok : A → Outcome A
  throw : Exception → Outcome A
  aborted crashed blocked stuck : Outcome A

abbrev pub Run : Type 0 → Type 0
Run A = World → Outcome A × World

module _ {A : Type 0} where
  pub pure : A → Run A
  pure a w = (ok a, w)

  pub raise : Exception → Run A
  raise e w = (throw e, w)

  -- An outcome that ends the thread.
  pub stop : Outcome A → Run A
  stop o w = (o, w)

  outcome : Result A → Outcome A
  outcome (Errors.ok a) = ok a
  outcome (Errors.throw e) = throw e

  pub lift : Result A → Run A
  unfolding outcome
  lift r w = (outcome r, w)

  -- A question to the system about the present trace.
  pub ask : (Trace → A) → Run A
  ask f w = (ok (f w.trace), w)

  pub gets : (World → A) → Run A
  gets f w = (ok (f w), w)

-- An effect that is seen from outside.
pub act : Action → Run (Unit {0})
act a w = (ok tt, record w { trace = a ∷ w.trace })

pub modify_connection : (MediatorConnection → MediatorConnection) → Run (Unit {0})
modify_connection f w = (ok tt, record w { connection = f w.connection })

-- `std::make_shared`, once the constructor has returned.
pub make_shared : Socket → Run ℕ
make_shared s w = (ok (length w.sockets), record w { sockets = w.sockets ++ (s ∷ []) })

pub put_socket : ℕ → Socket → Run (Unit {0})
put_socket p s w = (ok tt, record w { sockets = set w.sockets p s })

found : Option Socket → Outcome Socket
found none = crashed
found (some s) = ok s

-- The object behind a pointer.
pub get_socket : ℕ → Run Socket
unfolding found
get_socket p w = (found (get_elem? w.sockets p), w)

pub not_null : {A : Type 0} → Option A → Run A
not_null none w = (crashed, w)
not_null (some a) w = (ok a, w)

pub assert : Bool → Run (Unit {0})
assert true w = (ok tt, w)
assert false w = (aborted, w)

module _ {A B : Type 0} where
  abbrev pub and_then : Outcome A → (A → Run B) → World → Outcome B × World
  and_then (ok a) f w = f a w
  and_then (throw e) f w = (throw e, w)
  and_then aborted f w = (aborted, w)
  and_then crashed f w = (crashed, w)
  and_then blocked f w = (blocked, w)
  and_then stuck f w = (stuck, w)

  infixl 5 ◌>>=◌
  -- Opening this opens the actions above too.
  unfoldable pub ◌>>=◌ : Run A → (A → Run B) → Run B
  unfolding pure raise stop lift ask gets act modify_connection make_shared put_socket get_socket
      not_null assert
  ◌>>=◌ m f w = let (o, w') = m w in and_then o f w'

infixl 5 ◌>>◌
abbrev pub ◌>>◌ : {B : Type 0} → Run (Unit {0}) → Run B → Run B
m >> n = m >>= λ _. n

module _ {A : Type 0} where
  abbrev pub handled : Outcome A → (Exception → Run A) → World → Outcome A × World
  handled (throw e) handler w = handler e w
  handled o handler w = (o, w)

  -- `try { m } catch …`; the handler throws again what it does not catch.
  unfoldable pub catch : Run A → (Exception → Run A) → Run A
  catch m handler w = let (o, w') = m w in handled o handler w'

  -- `cleanup` runs where `m` throws.
  unfoldable pub on_exception : Run A → Run (Unit {0}) → Run A
  unfolding catch ◌>>=◌
  on_exception m cleanup = catch m λ e. cleanup >> raise e

  -- `cleanup` runs where the scope of `m` ends, by a return or by an exception.
  unfoldable pub scoped : Run A → Run (Unit {0}) → Run A
  unfolding on_exception ◌>>=◌
  scoped m cleanup = do a ← on_exception m cleanup; cleanup; pure a
