-- ===== src/Net/Run/Stable.antt =====
-- `Stable P m`: if `P` holds of the trace before `m`, it holds after, however `m` ends.
use p2psc.Prelude.{ℕ, Bool, true, false, Option, none, some, ◌∷◌, if◌then◌else◌}
use p2psc.Errors.{Exception, Result}
use p2psc.Net.Objects.{Socket, MediatorConnection}
use p2psc.Net.System.{Action, Trace}
use p2psc.Net.Run.{
  World, Outcome, ok, throw, aborted, crashed, blocked, stuck, Run, pure, raise, stop, lift, ask,
  gets, act, modify_connection, make_shared, put_socket, get_socket, not_null, assert, and_then,
  ◌>>=◌, handled, catch, on_exception, scoped,
}

pub record Stable {A : Type 0} (P : Trace → Type 0) (m : Run A) : Type 0 where
  pub after : (w : World) → P w.trace → P (m w).1.trace

module _ {A : Type 0} {P : Trace → Type 0} where
  pub Stable-pure : (a : A) → Stable P (pure a)
  unfolding pure
  Stable-pure a = record { after = λ w h. h }

  pub Stable-raise : (e : Exception) → Stable P (raise {A = A} e)
  unfolding raise
  Stable-raise e = record { after = λ w h. h }

  pub Stable-stop : (o : Outcome A) → Stable P (stop o)
  unfolding stop
  Stable-stop o = record { after = λ w h. h }

  pub Stable-lift : (r : Result A) → Stable P (lift r)
  unfolding lift
  Stable-lift r = record { after = λ w h. h }

  pub Stable-ask : (f : Trace → A) → Stable P (ask f)
  unfolding ask
  Stable-ask f = record { after = λ w h. h }

  pub Stable-gets : (f : World → A) → Stable P (gets f)
  unfolding gets
  Stable-gets f = record { after = λ w h. h }

  pub Stable-not_null : (o : Option A) → Stable P (not_null o)
  unfolding not_null
  Stable-not_null none = record { after = λ w h. h }
  Stable-not_null (some a) = record { after = λ w h. h }

  pub Stable-if : (b : Bool) (m n : Run A) → Stable P m → Stable P n → Stable P (if b then m else n)
  Stable-if true m n sm sn = sm
  Stable-if false m n sm sn = sn

module _ {P : Trace → Type 0} where
  pub Stable-act : (a : Action) → ((t : Trace) → P t → P (a ∷ t)) → Stable P (act a)
  unfolding act
  Stable-act a keep = record { after = λ w h. keep w.trace h }

  pub Stable-modify_connection :
      (f : MediatorConnection → MediatorConnection) → Stable P (modify_connection f)
  unfolding modify_connection
  Stable-modify_connection f = record { after = λ w h. h }

  pub Stable-make_shared : (s : Socket) → Stable P (make_shared s)
  unfolding make_shared
  Stable-make_shared s = record { after = λ w h. h }

  pub Stable-put_socket : (p : ℕ) (s : Socket) → Stable P (put_socket p s)
  unfolding put_socket
  Stable-put_socket p s = record { after = λ w h. h }

  pub Stable-get_socket : (p : ℕ) → Stable P (get_socket p)
  unfolding get_socket
  Stable-get_socket p = record { after = λ w h. h }

  pub Stable-assert : (b : Bool) → Stable P (assert b)
  unfolding assert
  Stable-assert true = record { after = λ w h. h }
  Stable-assert false = record { after = λ w h. h }

module _ {A B : Type 0} {P : Trace → Type 0} where
  and_then-Stable :
      (o : Outcome A) (f : A → Run B) (w : World)
      → ((a : A) → Stable P (f a))
      → P w.trace
      → P (and_then o f w).1.trace
  and_then-Stable (ok a) f w sf h = (sf a).after w h
  and_then-Stable (throw e) f w sf h = h
  and_then-Stable aborted f w sf h = h
  and_then-Stable crashed f w sf h = h
  and_then-Stable blocked f w sf h = h
  and_then-Stable stuck f w sf h = h

  pub Stable-bind :
      (m : Run A) (f : A → Run B) → Stable P m → ((a : A) → Stable P (f a)) → Stable P (m >>= f)
  unfolding ◌>>=◌
  Stable-bind m f sm sf = record {
    after = λ w h. let (o, w') = m w in and_then-Stable o f w' sf (sm.after w h);
  }

module _ {A : Type 0} {P : Trace → Type 0} where
  handled-Stable :
      (o : Outcome A) (handler : Exception → Run A) (w : World)
      → ((e : Exception) → Stable P (handler e))
      → P w.trace
      → P (handled o handler w).1.trace
  handled-Stable (throw e) handler w sh h = (sh e).after w h
  handled-Stable (ok a) handler w sh h = h
  handled-Stable aborted handler w sh h = h
  handled-Stable crashed handler w sh h = h
  handled-Stable blocked handler w sh h = h
  handled-Stable stuck handler w sh h = h

  pub Stable-catch :
      (m : Run A) (handler : Exception → Run A)
      → Stable P m
      → ((e : Exception) → Stable P (handler e))
      → Stable P (catch m handler)
  unfolding catch
  Stable-catch m handler sm sh = record {
    after = λ w h. let (o, w') = m w in handled-Stable o handler w' sh (sm.after w h);
  }

  pub Stable-on_exception :
      (m : Run A) (cleanup : Run (Unit {0}))
      → Stable P m
      → Stable P cleanup
      → Stable P (on_exception m cleanup)
  unfolding on_exception
  Stable-on_exception m cleanup sm sc =
      Stable-catch m _ sm (λ e. Stable-bind cleanup _ sc (λ _. Stable-raise e))

  pub Stable-scoped :
      (m : Run A) (cleanup : Run (Unit {0}))
      → Stable P m
      → Stable P cleanup
      → Stable P (scoped m cleanup)
  unfolding scoped
  Stable-scoped m cleanup sm sc =
      Stable-bind _ _ (Stable-on_exception m cleanup sm sc)
        (λ a. Stable-bind cleanup _ sc (λ _. Stable-pure a))

pub ruleset stable_rules = (
  Stable-pure, Stable-raise, Stable-stop, Stable-lift, Stable-ask, Stable-gets, Stable-not_null,
  Stable-if, Stable-modify_connection, Stable-make_shared, Stable-put_socket, Stable-get_socket,
  Stable-assert, Stable-bind, Stable-catch, Stable-on_exception, Stable-scoped,
)
