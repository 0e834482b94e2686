-- ===== src/Net/Run/Written.antt =====
-- Which messages a thread has handed to the system in full.
use p2psc.Prelude.{
  ℕ, ◌≡◌, refl, sym, ap, ◌∙◌, Bool, true, false, Option, none, some, List, [], ◌∷◌, ◌++◌, Bytes,
  if◌then◌else◌,
}
use mathlib.Core.List.{append_assoc, append-nil}
use p2psc.Errors.{Exception, Result}
use p2psc.Net.Objects.{Fd, Socket, SocketAddress, MediatorConnection}
use p2psc.Net.System.{Trace, sent, received, opened, connected}
use p2psc.Net.Run.{
  World, Outcome, ok, throw, aborted, crashed, blocked, stuck, Run, pure, raise, stop, lift, ask,
  gets, act, assert, get_socket, make_shared, modify_connection, not_null, and_then, ◌>>=◌, handled,
  catch,
}
use p2psc.Net.Run.Returns.{bind-eq, bind-ok, raise-ok}
use p2psc.Net.Socket.{is_length}

-- The messages of which `send` took the whole, oldest first.
abbrev pub whole : Trace → List Bytes
whole [] = []
whole (sent fd message size ∷ t) =
    let before = whole t in if is_length size message then before ++ (message ∷ []) else before
whole (_ ∷ t) = whole t

-- The action hands no message to the system.
pub record Quiet {A : Type 0} (m : Run A) : Type 0 where
  pub same : (w : World) → whole (m w).1.trace ≡ whole w.trace

-- Where the action returns, `P` holds of the messages that it has handed to the system.
pub record Writes {A : Type 0} (m : Run A) (P : List Bytes → Type 0) : Type 0 where
  pub after :
      (w : World) (a : A)
      → (m w).0 ≡ ok a
      → (l : List Bytes) × (whole (m w).1.trace ≡ whole w.trace ++ l) × P l

module _ {A : Type 0} where
  pub Quiet-pure : (a : A) → Quiet (pure a)
  unfolding pure
  Quiet-pure a = record { same = λ w. refl }

  pub Quiet-raise : (e : Exception) → Quiet (raise {A = A} e)
  unfolding raise
  Quiet-raise e = record { same = λ w. refl }

  pub Quiet-stop : (o : Outcome A) → Quiet (stop o)
  unfolding stop
  Quiet-stop o = record { same = λ w. refl }

  pub Quiet-lift : (r : Result A) → Quiet (lift r)
  unfolding lift
  Quiet-lift r = record { same = λ w. refl }

  pub Quiet-ask : (f : Trace → A) → Quiet (ask f)
  unfolding ask
  Quiet-ask f = record { same = λ w. refl }

  pub Quiet-gets : (f : World → A) → Quiet (gets f)
  unfolding gets
  Quiet-gets f = record { same = λ w. refl }

  pub Quiet-not_null : (o : Option A) → Quiet (not_null o)
  unfolding not_null
  Quiet-not_null none = record { same = λ w. refl }
  Quiet-not_null (some a) = record { same = λ w. refl }

  pub Quiet-if : (b : Bool) (m k : Run A) → Quiet m → Quiet k → Quiet (if b then m else k)
  Quiet-if true m k qm qk = qm
  Quiet-if false m k qm qk = qk

pub Quiet-get_socket : (p : ℕ) → Quiet (get_socket p)
unfolding get_socket
Quiet-get_socket p = record { same = λ w. refl }

pub Quiet-opened : (fd : ℕ) → Quiet (act (opened fd))
unfolding act
Quiet-opened fd = record { same = λ w. refl }

pub Quiet-connected : (fd : Fd) (a : SocketAddress) → Quiet (act (connected fd a))
unfolding act
Quiet-connected fd a = record { same = λ w. refl }

pub Quiet-assert : (b : Bool) → Quiet (assert b)
unfolding assert
Quiet-assert true = record { same = λ w. refl }
Quiet-assert false = record { same = λ w. refl }

pub Quiet-make_shared : (s : Socket) → Quiet (make_shared s)
unfolding make_shared
Quiet-make_shared s = record { same = λ w. refl }

pub Quiet-modify_connection :
    (f : MediatorConnection → MediatorConnection) → Quiet (modify_connection f)
unfolding modify_connection
Quiet-modify_connection f = record { same = λ w. refl }

pub Quiet-received : (fd : Fd) (b : Bytes) → Quiet (act (received fd b))
unfolding act
Quiet-received fd b = record { same = λ w. refl }

module _ {A B : Type 0} where
  and_then-same :
      (o : Outcome A) (f : A → Run B) (w : World)
      → ((a : A) → Quiet (f a))
      → whole (and_then o f w).1.trace ≡ whole w.trace
  and_then-same (ok a) f w qf = (qf a).same w
  and_then-same (throw e) f w qf = refl
  and_then-same aborted f w qf = refl
  and_then-same crashed f w qf = refl
  and_then-same blocked f w qf = refl
  and_then-same stuck f w qf = refl

  pub Quiet-bind : (m : Run A) (f : A → Run B) → Quiet m → ((a : A) → Quiet (f a)) → Quiet (m >>= f)
  unfolding ◌>>=◌
  Quiet-bind m f qm qf = record { same = λ w. and_then-same (m w).0 f (m w).1 qf ∙ qm.same w }

module _ {A : Type 0} where
  handled-same :
      (o : Outcome A) (handler : Exception → Run A) (w : World)
      → ((e : Exception) → Quiet (handler e))
      → whole (handled o handler w).1.trace ≡ whole w.trace
  handled-same (ok a) handler w qh = refl
  handled-same (throw e) handler w qh = (qh e).same w
  handled-same aborted handler w qh = refl
  handled-same crashed handler w qh = refl
  handled-same blocked handler w qh = refl
  handled-same stuck handler w qh = refl

  pub Quiet-catch :
      (m : Run A) (handler : Exception → Run A)
      → Quiet m
      → ((e : Exception) → Quiet (handler e))
      → Quiet (catch m handler)
  unfolding catch
  Quiet-catch m handler qm qh = record {
    same = λ w. handled-same (m w).0 handler (m w).1 qh ∙ qm.same w;
  }

pub ruleset quiet_rules = (
  Quiet-pure, Quiet-raise, Quiet-stop, Quiet-lift, Quiet-ask, Quiet-gets, Quiet-not_null, Quiet-if,
  Quiet-get_socket, Quiet-received, Quiet-opened, Quiet-connected, Quiet-assert, Quiet-make_shared,
  Quiet-modify_connection, Quiet-bind, Quiet-catch,
)

pub Quiet-whole :
    {A : Type 0} (m : Run A) (w w' : World) (r : Outcome A)
    → Quiet m
    → m w ≡ (r, w')
    → whole w'.trace ≡ whole w.trace
Quiet-whole m w w' r qm ended = sym (ap (λ x. whole x.1.trace) ended) ∙ qm.same w

module _ {A : Type 0} {P : List Bytes → Type 0} where
  pub Writes-quiet : (m : Run A) → Quiet m → P [] → Writes m P
  Writes-quiet m qm h = record { after = λ w a e. ([], qm.same w ∙ sym (append-nil _), h) }

  pub Writes-raise : (e : Exception) → Writes (raise {A = A} e) P
  Writes-raise e = record { after = λ w a h. absurd (raise-ok e w h) }

  pub Writes-if : (b : Bool) (m k : Run A) → Writes m P → Writes k P → Writes (if b then m else k) P
  Writes-if true m k wm wk = wm
  Writes-if false m k wm wk = wk

-- The state after both parts is the state after the second.
both :
    {A B : Type 0} (m : Run A) (f : A → Run B) (w : World) (a : A)
    → (m w).0 ≡ ok a
    → (m >>= f) w ≡ f a (m w).1
both m f w a e = bind-eq m f w (m w).1 a (ap (λ o. (o, (m w).1)) e)

module _ {A B : Type 0} {P : List Bytes → Type 0} (m : Run A) (f : A → Run B) where
  -- A first part that hands nothing to the system.
  pub Writes-rest : Quiet m → ((a : A) → Writes (f a) P) → Writes (m >>= f) P
  Writes-rest qm wf = record {
    after = λ w b h.
        let (a, e, k) = bind-ok m f w h in
        let (l, added, p) = (wf a).after (m w).1 b k in
        (l, ap (λ x. whole x.1.trace) (both m f w a e) ∙ added ∙ ap (λ x. x ++ l) (qm.same w), p);
  }

  -- A first part that hands `x` to the system.
  pub Writes-first :
      (Q : List Bytes → Type 0) (x : Bytes)
      → Writes m (λ l. l ≡ x ∷ [])
      → ((a : A) → Writes (f a) Q)
      → ((l : List Bytes) → Q l → P (x ∷ l))
      → Writes (m >>= f) P
  Writes-first Q x wm wf more = record {
    after = λ w b h.
        let (a, e, k) = bind-ok m f w h in
        let (l, added, p) = (wf a).after (m w).1 b k in
        let (l', first, one) = wm.after w a e in
        (
          x ∷ l,
          ap (λ x. whole x.1.trace) (both m f w a e)
              ∙ added
              ∙ ap (λ y. y ++ l) (first ∙ ap (λ y. whole w.trace ++ y) one)
              ∙ append_assoc (whole w.trace) (x ∷ []) l,
          more l p,
        );
  }
