-- ===== src/Net/Run/Keeping.antt =====
-- Actions that leave the thread's `MediatorConnection` as it is.
use p2psc.Prelude.{ℕ, ◌≡◌, refl, sym, ap, ◌∙◌, Bool, true, false, Option, none, some, if◌then◌else◌}
use p2psc.Errors.{Exception}
use p2psc.Net.Objects.{Socket}
use p2psc.Net.System.{Trace, Action}
use p2psc.Net.Run.{
  World, Outcome, ok, throw, aborted, crashed, blocked, stuck, Run, pure, raise, stop, ask, gets,
  act, assert, get_socket, put_socket, make_shared, not_null, and_then, ◌>>=◌,
}

-- However the action ends.
pub record Keeps {A : Type 0} (m : Run A) : Type 0 where
  pub same : (w : World) → (m w).1.connection ≡ w.connection

module _ {A : Type 0} where
  pub Keeps-pure : (a : A) → Keeps (pure a)
  unfolding pure
  Keeps-pure a = record { same = λ w. refl }

  pub Keeps-raise : (e : Exception) → Keeps (raise {A = A} e)
  unfolding raise
  Keeps-raise e = record { same = λ w. refl }

  pub Keeps-stop : (o : Outcome A) → Keeps (stop o)
  unfolding stop
  Keeps-stop o = record { same = λ w. refl }

  pub Keeps-ask : (f : Trace → A) → Keeps (ask f)
  unfolding ask
  Keeps-ask f = record { same = λ w. refl }

  pub Keeps-gets : (f : World → A) → Keeps (gets f)
  unfolding gets
  Keeps-gets f = record { same = λ w. refl }

  pub Keeps-not_null : (o : Option A) → Keeps (not_null o)
  unfolding not_null
  Keeps-not_null none = record { same = λ w. refl }
  Keeps-not_null (some a) = record { same = λ w. refl }

  pub Keeps-if : (b : Bool) (m k : Run A) → Keeps m → Keeps k → Keeps (if b then m else k)
  Keeps-if true m k km kk = km
  Keeps-if false m k km kk = kk

pub Keeps-act : (a : Action) → Keeps (act a)
unfolding act
Keeps-act a = record { same = λ w. refl }

pub Keeps-assert : (b : Bool) → Keeps (assert b)
unfolding assert
Keeps-assert true = record { same = λ w. refl }
Keeps-assert false = record { same = λ w. refl }

pub Keeps-get_socket : (p : ℕ) → Keeps (get_socket p)
unfolding get_socket
Keeps-get_socket p = record { same = λ w. refl }

pub Keeps-put_socket : (p : ℕ) (s : Socket) → Keeps (put_socket p s)
unfolding put_socket
Keeps-put_socket p s = record { same = λ w. refl }

pub Keeps-make_shared : (s : Socket) → Keeps (make_shared s)
unfolding make_shared
Keeps-make_shared s = record { same = λ w. refl }

module _ {A B : Type 0} where
  and_then-same :
      (o : Outcome A) (f : A → Run B) (w : World)
      → ((a : A) → Keeps (f a))
      → (and_then o f w).1.connection ≡ w.connection
  and_then-same (ok a) f w kf = (kf a).same w
  and_then-same (throw e) f w kf = refl
  and_then-same aborted f w kf = refl
  and_then-same crashed f w kf = refl
  and_then-same blocked f w kf = refl
  and_then-same stuck f w kf = refl

  pub Keeps-bind : (m : Run A) (f : A → Run B) → Keeps m → ((a : A) → Keeps (f a)) → Keeps (m >>= f)
  unfolding ◌>>=◌
  Keeps-bind m f km kf = record { same = λ w. and_then-same (m w).0 f (m w).1 kf ∙ km.same w }

pub ruleset keep_rules = (
  Keeps-pure, Keeps-raise, Keeps-stop, Keeps-ask, Keeps-gets, Keeps-not_null, Keeps-if, Keeps-act,
  Keeps-assert, Keeps-get_socket, Keeps-put_socket, Keeps-make_shared, Keeps-bind,
)

-- The connection after an action that returned is the one before it.
pub kept :
    {A : Type 0} (m : Run A) (w w' : World) (a : A)
    → Keeps m
    → m w ≡ (ok a, w')
    → w'.connection ≡ w.connection
kept m w w' a km returned = sym (ap (λ x. x.1.connection) returned) ∙ km.same w
