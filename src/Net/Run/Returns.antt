-- ===== src/Net/Run/Returns.antt =====
-- What an action that returned did: inversion of a sequence.
use p2psc.Prelude.{◌≡◌, ◌∙◌, refl, ap, arith, Bool, true, false, not, if◌then◌else◌}
use p2psc.Errors.{Exception, Result}
use p2psc.Errors
use p2psc.Net.Run.{
  World, Outcome, ok, throw, aborted, crashed, blocked, stuck, Run, pure, raise, lift, outcome,
  and_then, assert, handled, catch, on_exception, scoped, ◌>>=◌,
}

module _ {A B : Type 0} where
  and_then-ok :
      (o : Outcome A) (f : A → Run B) (w : World) {b : B}
      → (and_then o f w).0 ≡ ok b
      → (a : A) × (o ≡ ok a) × ((f a w).0 ≡ ok b)
  and_then-ok (ok a) f w h = (a, refl, h)
  and_then-ok (throw e) f w h = cc
  and_then-ok aborted f w h = cc
  and_then-ok crashed f w h = cc
  and_then-ok blocked f w h = cc
  and_then-ok stuck f w h = cc

  pub bind-ok :
      (m : Run A) (f : A → Run B) (w : World) {b : B}
      → ((m >>= f) w).0 ≡ ok b
      → (a : A) × ((m w).0 ≡ ok a) × ((f a (m w).1).0 ≡ ok b)
  unfolding ◌>>=◌
  bind-ok m f w h = and_then-ok (m w).0 f (m w).1 h

pub lift-ok :
    {A : Type 0} (r : Result A) (w : World) {a : A} → (lift r w).0 ≡ ok a → r ≡ Errors.ok a
unfolding lift outcome
lift-ok (Errors.ok a) w h = ground arith
lift-ok (Errors.throw e) w h = cc

pub pure-ok : {A : Type 0} (a : A) (w : World) {b : A} → (pure a w).0 ≡ ok b → b ≡ a
unfolding pure
pure-ok a w h = cc

pub raise-ok : {A : Type 0} (e : Exception) (w : World) {b : A} → (raise e w).0 ≡ ok b → ⊥
unfolding raise
raise-ok e w h = cc

pub lift-bind-ok :
    {A B : Type 0} (r : Result A) (f : A → Run B) (w : World) {b : B}
    → ((lift r >>= f) w).0 ≡ ok b
    → (a : A) × (r ≡ Errors.ok a) × ((f a w).0 ≡ ok b)
unfolding lift outcome ◌>>=◌
lift-bind-ok (Errors.ok a) f w h = (a, refl, h)
lift-bind-ok (Errors.throw e) f w h = cc

-- A guard that throws was passed.
pub guard-ok :
    {A : Type 0} (c : Bool) (e : Exception) (m : Run A) (w : World) {b : A}
    → ((if not c then raise e else m) w).0 ≡ ok b
    → c ≡ true
guard-ok true e m w h = refl
guard-ok false e m w h = absurd (raise-ok e w h)

pub lift-bind-eq :
    {A B : Type 0} (r : Result A) (a : A) (f : A → Run B) (w : World)
    → r ≡ Errors.ok a
    → (lift r >>= f) w ≡ f a w
unfolding lift outcome ◌>>=◌
lift-bind-eq (Errors.ok a') a f w e = ground (arith, e)
lift-bind-eq (Errors.throw x) a f w e = cc

pub bind-eq :
    {A B : Type 0} (m : Run A) (f : A → Run B) (w w' : World) (a : A)
    → m w ≡ (ok a, w')
    → (m >>= f) w ≡ f a w'
unfolding ◌>>=◌
bind-eq m f w w' a e = ap (λ x. and_then x.0 f x.1) e

pub bind-throw-eq :
    {A B : Type 0} (m : Run A) (f : A → Run B) (w w' : World) (e : Exception)
    → m w ≡ (throw e, w')
    → (m >>= f) w ≡ (throw e, w')
unfolding ◌>>=◌
bind-throw-eq m f w w' e thrown = ap (λ x. and_then x.0 f x.1) thrown

pub raise-eq : {A : Type 0} (e : Exception) (w : World) → raise {A = A} e w ≡ (throw e, w)
unfolding raise
raise-eq e w = refl

pub pure-eq : {A : Type 0} (a : A) (w : World) → pure a w ≡ (ok a, w)
unfolding pure
pure-eq a w = refl

pub catch-bind-eq :
    {A B : Type 0} (r : Result A) (a : A) (handler : Exception → Run A) (f : A → Run B) (w : World)
    → r ≡ Errors.ok a
    → (catch (lift r) handler >>= f) w ≡ f a w
unfolding lift outcome catch ◌>>=◌
catch-bind-eq (Errors.ok a') a handler f w e = ground (arith, e)
catch-bind-eq (Errors.throw x) a handler f w e = cc

pub guard-eq :
    {A : Type 0} (c : Bool) (e : Exception) (m : Run A) (w : World)
    → c ≡ true
    → (if not c then raise e else m) w ≡ m w
guard-eq true e m w h = refl
guard-eq false e m w h = cc

pub assert-bind-eq :
    {A : Type 0} (c : Bool) (f : Unit {0} → Run A) (w : World)
    → c ≡ true
    → (assert c >>= f) w ≡ f tt w
unfolding assert ◌>>=◌
assert-bind-eq true f w h = refl
assert-bind-eq false f w h = cc

module _ {A : Type 0} (m : Run A) (w w' : World) (a : A) (returns : m w ≡ (ok a, w')) where
  pub catch-eq : (handler : Exception → Run A) → catch m handler w ≡ (ok a, w')
  unfolding catch
  catch-eq handler = ap (λ x. handled x.0 handler x.1) returns

  pub on_exception-eq : (cleanup : Run (Unit {0})) → on_exception m cleanup w ≡ (ok a, w')
  unfolding on_exception
  on_exception-eq cleanup = catch-eq _

  pub scoped-eq :
      (cleanup : Run (Unit {0})) (w'' : World)
      → cleanup w' ≡ (ok tt, w'')
      → scoped m cleanup w ≡ (ok a, w'')
  unfolding scoped
  scoped-eq cleanup w'' cleaned =
      bind-eq (on_exception m cleanup) _ w w' a (on_exception-eq cleanup)
      ∙ bind-eq cleanup _ w' w'' tt cleaned
      ∙ pure-eq a w''
