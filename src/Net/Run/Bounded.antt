-- ===== src/Net/Run/Bounded.antt =====
-- `Bounded n m`: the action `m` hands at most `n` messages to the system, and no loop in it runs out
-- of the model's fuel.
use p2psc.Prelude.{
  ℕ, suc, ◌+◌, ◌≤◌, ◌≡◌, refl, ◌≢◌, Bool, true, false, Option, none, some, [], ◌∷◌, Bytes, arith,
  if◌then◌else◌,
}
use p2psc.Errors.{Exception, Result}
use p2psc.Errors
use p2psc.Net.Objects.{Socket, MediatorConnection, Fd}
use p2psc.Net.System.{Action, Trace, sent}
use p2psc.Net.Run.{
  World, Outcome, ok, throw, aborted, crashed, blocked, stuck, Run, pure, raise, stop, lift,
  outcome, ask, gets, act, modify_connection, make_shared, put_socket, get_socket, found, not_null,
  assert, and_then, ◌>>=◌, handled, catch, on_exception, scoped,
}

abbrev pub sends : Trace → ℕ
sends [] = 0
sends (sent fd message size ∷ t) = suc (sends t)
sends (_ ∷ t) = sends t

pub record Bounded {A : Type 0} (n : ℕ) (m : Run A) : Type 0 where
  pub few : (w : World) → sends (m w).1.trace ≤ sends w.trace + n
  pub fuelled : (w : World) → (m w).0 ≢ stuck

module _ {A : Type 0} where
  pub Bounded-mono : {n k : ℕ} (m : Run A) → n ≤ k → Bounded n m → Bounded k m
  Bounded-mono m h bm = record { few = λ w. omega (arith, bm.few w); fuelled = bm.fuelled }

  pub Bounded-pure : (a : A) → Bounded 0 (pure a)
  unfolding pure
  Bounded-pure a = record { few = λ w. omega arith; fuelled = λ w e. cc }

  pub Bounded-raise : (e : Exception) → Bounded 0 (raise {A = A} e)
  unfolding raise
  Bounded-raise e = record { few = λ w. omega arith; fuelled = λ w e. cc }

  pub Bounded-block : Bounded 0 (stop {A = A} blocked)
  unfolding stop
  Bounded-block = record { few = λ w. omega arith; fuelled = λ w e. cc }

  pub Bounded-abort : Bounded 0 (stop {A = A} aborted)
  unfolding stop
  Bounded-abort = record { few = λ w. omega arith; fuelled = λ w e. cc }

  outcome-ne-stuck : (r : Result A) → outcome r ≢ stuck
  unfolding outcome
  outcome-ne-stuck (Errors.ok a) e = cc
  outcome-ne-stuck (Errors.throw x) e = cc

  pub Bounded-lift : (r : Result A) → Bounded 0 (lift r)
  unfolding lift
  Bounded-lift r = record { few = λ w. omega arith; fuelled = λ w. outcome-ne-stuck r }

  pub Bounded-ask : (f : Trace → A) → Bounded 0 (ask f)
  unfolding ask
  Bounded-ask f = record { few = λ w. omega arith; fuelled = λ w e. cc }

  pub Bounded-gets : (f : World → A) → Bounded 0 (gets f)
  unfolding gets
  Bounded-gets f = record { few = λ w. omega arith; fuelled = λ w e. cc }

  pub Bounded-not_null : (o : Option A) → Bounded 0 (not_null o)
  unfolding not_null
  Bounded-not_null none = record { few = λ w. omega arith; fuelled = λ w e. cc }
  Bounded-not_null (some a) = record { few = λ w. omega arith; fuelled = λ w e. cc }

  pub Bounded-if :
      {n : ℕ} (b : Bool) (m k : Run A) → Bounded n m → Bounded n k → Bounded n (if b then m else k)
  Bounded-if true m k bm bk = bm
  Bounded-if false m k bm bk = bk

pub Bounded-modify_connection :
    (f : MediatorConnection → MediatorConnection) → Bounded 0 (modify_connection f)
unfolding modify_connection
Bounded-modify_connection f = record { few = λ w. omega arith; fuelled = λ w e. cc }

pub Bounded-put_socket : (p : ℕ) (s : Socket) → Bounded 0 (put_socket p s)
unfolding put_socket
Bounded-put_socket p s = record { few = λ w. omega arith; fuelled = λ w e. cc }

pub Bounded-make_shared : (s : Socket) → Bounded 0 (make_shared s)
unfolding make_shared
Bounded-make_shared s = record { few = λ w. omega arith; fuelled = λ w e. cc }

found-ne-stuck : (s : Option Socket) → found s ≢ stuck
unfolding found
found-ne-stuck none e = cc
found-ne-stuck (some s) e = cc

pub Bounded-get_socket : (p : ℕ) → Bounded 0 (get_socket p)
unfolding get_socket
Bounded-get_socket p = record { few = λ w. omega arith; fuelled = λ w. found-ne-stuck _ }

pub Bounded-assert : (b : Bool) → Bounded 0 (assert b)
unfolding assert
Bounded-assert true = record { few = λ w. omega arith; fuelled = λ w e. cc }
Bounded-assert false = record { few = λ w. omega arith; fuelled = λ w e. cc }

-- An effect that is no `sent`.
pub Bounded-act : (a : Action) → ((t : Trace) → sends (a ∷ t) ≡ sends t) → Bounded 0 (act a)
unfolding act
Bounded-act a h = record { few = λ w. omega (arith, h w.trace); fuelled = λ w e. cc }

pub Bounded-act-sent :
    (fd : Fd) (message : Bytes) (size : Option ℕ) → Bounded 1 (act (sent fd message size))
unfolding act
Bounded-act-sent fd message size = record { few = λ w. omega arith; fuelled = λ w e. cc }

module _ {A B : Type 0} where
  and_then-few :
      {n : ℕ} (o : Outcome A) (f : A → Run B) (w : World)
      → ((a : A) → Bounded n (f a))
      → sends (and_then o f w).1.trace ≤ sends w.trace + n
  and_then-few (ok a) f w bf = (bf a).few w
  and_then-few (throw e) f w bf = omega arith
  and_then-few aborted f w bf = omega arith
  and_then-few crashed f w bf = omega arith
  and_then-few blocked f w bf = omega arith
  and_then-few stuck f w bf = omega arith

  and_then-ne-stuck :
      {n : ℕ} (o : Outcome A) (f : A → Run B) (w : World)
      → o ≢ stuck
      → ((a : A) → Bounded n (f a))
      → (and_then o f w).0 ≢ stuck
  and_then-ne-stuck (ok a) f w h bf q = (bf a).fuelled w q
  and_then-ne-stuck (throw e) f w h bf q = cc
  and_then-ne-stuck aborted f w h bf q = cc
  and_then-ne-stuck crashed f w h bf q = cc
  and_then-ne-stuck blocked f w h bf q = cc
  and_then-ne-stuck stuck f w h bf q = h refl

  pub Bounded-bind :
      {n k l : ℕ} (m : Run A) (f : A → Run B)
      → n + k ≤ l
      → Bounded n m
      → ((a : A) → Bounded k (f a))
      → Bounded l (m >>= f)
  unfolding ◌>>=◌
  Bounded-bind m f h bm bf = record {
    few = λ w. let (o, w') = m w in omega (arith, bm.few w, and_then-few o f w' bf);
    fuelled = λ w. let (o, w') = m w in and_then-ne-stuck o f w' (bm.fuelled w) bf;
  }

  -- An action in front of which nothing is sent.
  pub Bounded-first :
      {k : ℕ} (m : Run A) (f : A → Run B)
      → Bounded 0 m
      → ((a : A) → Bounded k (f a))
      → Bounded k (m >>= f)
  Bounded-first m f bm bf = Bounded-bind m f (omega arith) bm bf

module _ {A : Type 0} where
  handled-few :
      {n : ℕ} (o : Outcome A) (handler : Exception → Run A) (w : World)
      → ((e : Exception) → Bounded n (handler e))
      → sends (handled o handler w).1.trace ≤ sends w.trace + n
  handled-few (throw e) handler w bh = (bh e).few w
  handled-few (ok a) handler w bh = omega arith
  handled-few aborted handler w bh = omega arith
  handled-few crashed handler w bh = omega arith
  handled-few blocked handler w bh = omega arith
  handled-few stuck handler w bh = omega arith

  handled-ne-stuck :
      {n : ℕ} (o : Outcome A) (handler : Exception → Run A) (w : World)
      → o ≢ stuck
      → ((e : Exception) → Bounded n (handler e))
      → (handled o handler w).0 ≢ stuck
  handled-ne-stuck (throw e) handler w h bh q = (bh e).fuelled w q
  handled-ne-stuck (ok a) handler w h bh q = cc
  handled-ne-stuck aborted handler w h bh q = cc
  handled-ne-stuck crashed handler w h bh q = cc
  handled-ne-stuck blocked handler w h bh q = cc
  handled-ne-stuck stuck handler w h bh q = h refl

  -- A handler that sends nothing.
  pub Bounded-catch :
      {n : ℕ} (m : Run A) (handler : Exception → Run A)
      → Bounded n m
      → ((e : Exception) → Bounded 0 (handler e))
      → Bounded n (catch m handler)
  unfolding catch
  Bounded-catch m handler bm bh = record {
    few = λ w. let (o, w') = m w in omega (arith, bm.few w, handled-few o handler w' bh);
    fuelled = λ w. let (o, w') = m w in handled-ne-stuck o handler w' (bm.fuelled w) bh;
  }

module _ {A : Type 0} where
  -- A clean-up that sends nothing.
  pub Bounded-on_exception :
      {n : ℕ} (m : Run A) (cleanup : Run (Unit {0}))
      → Bounded n m
      → Bounded 0 cleanup
      → Bounded n (on_exception m cleanup)
  unfolding on_exception
  Bounded-on_exception m cleanup bm bc =
      Bounded-catch m _ bm λ e. Bounded-first _ _ bc λ u. Bounded-raise e

  pub Bounded-scoped :
      {n : ℕ} (m : Run A) (cleanup : Run (Unit {0}))
      → Bounded n m
      → Bounded 0 cleanup
      → Bounded n (scoped m cleanup)
  unfolding scoped
  Bounded-scoped m cleanup bm bc =
      Bounded-bind _ _ (omega arith) (Bounded-on_exception m cleanup bm bc)
        λ a. Bounded-first _ _ bc λ u. Bounded-pure a

pub ruleset bounded_rules = (
  Bounded-pure, Bounded-raise, Bounded-block, Bounded-abort, Bounded-lift, Bounded-ask,
  Bounded-gets, Bounded-not_null, Bounded-if, Bounded-modify_connection, Bounded-put_socket,
  Bounded-make_shared, Bounded-get_socket, Bounded-assert, Bounded-first, Bounded-catch,
)
