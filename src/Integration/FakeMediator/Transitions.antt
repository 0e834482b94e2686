-- ===== src/Integration/FakeMediator/Transitions.antt =====
-- What a step of a handler makes of its phase and of what the handlers share.
use p2psc.Prelude.{◌≡◌, sym, ap, ◌∙◌, subst, true, false, Option, none, some, List, Bytes}
use p2psc.Errors.{Exception, Result, ok, throw}
use p2psc.Message.Payloads.Mediation.{Advertise}
use p2psc.Net.Objects.{SocketAddress}
use p2psc.Integration.Store.{PeerIdentifier, Store, get, put}
use p2psc.Integration.Handle.{FakeMediator, Handle, contains, insert, erase}
use p2psc.Integration.Handle.Leaves.{Leaves, IsGood, SameShared}
use p2psc.Integration.FakeMediator.{Phase}
use p2psc.Integration.FakeMediator.Effects.{
  promise, is_disconnected, IsPlain, IsQuiet, registered_as, named,
}
use p2psc.Integration.FakeMediator.Lookups.{identifier}

-- The step of a session of `address` from one phase to another, and from one set to another.
pub data Effect (address : SocketAddress) (from to : Phase) (set set' : List SocketAddress)
    : Type 0 where
  plain : set' ≡ set → IsPlain to → Effect address from to set set'
  told :
      (p : PeerIdentifier)
      → set' ≡ set
      → promise from ≡ some p
      → promise to ≡ some p
      → is_disconnected to ≡ false
      → Effect address from to set set'
  claimed :
      (p : PeerIdentifier)
      → contains p.socket_address set ≡ true
      → set' ≡ erase p.socket_address set
      → promise to ≡ some p
      → is_disconnected to ≡ false
      → Effect address from to set set'
  recorded :
      set' ≡ insert address set
      → promise to ≡ none
      → is_disconnected to ≡ true
      → Effect address from to set set'

-- The step of a session of `address` from one phase to another, and from one store to another.
pub data Entry (address : SocketAddress) (from to : Phase) (store store' : Store) : Type 0 where
  unnamed :
      store' ≡ store
      → registered_as to ≡ registered_as from
      → named to ≡ none
      → Entry address from to store store'
  carried :
      store' ≡ store
      → registered_as to ≡ registered_as from
      → named to ≡ named from
      → Entry address from to store store'
  looked :
      (key : Bytes) (p : PeerIdentifier)
      → store' ≡ store
      → registered_as to ≡ registered_as from
      → get key store ≡ some p
      → named to ≡ some (key, p)
      → Entry address from to store store'
  entered :
      (a : Advertise)
      → store' ≡ put a.our_key (identifier address a) store
      → registered_as from ≡ none
      → registered_as to ≡ some a
      → named to ≡ none
      → Entry address from to store store'

-- Both at once.
abbrev pub Moves : SocketAddress → Phase → Phase → FakeMediator → FakeMediator → Type 0
Moves address from to m m' =
    Effect address from to m.completed_disconnects m'.completed_disconnects
    × Entry address from to m.key_to_identifier_store m'.key_to_identifier_store

-- What `Leaves` says of a step that has returned.
of_leaves :
    {Q : Phase → Type 0} (h : Handle Phase) (m m' : FakeMediator) (to : Phase)
    → Leaves h Q
    → h m ≡ (ok to, m')
    → SameShared m m' × Q to
of_leaves {Q} h m m' to leaves e = subst (λ x. SameShared m x.1 × IsGood Q x.0) e (leaves.after m)

value : Phase → Result Phase → Phase
value default (ok a) = a
value default (throw e) = default

-- Two accounts of a step that has returned agree.
agree :
    (h : Handle Phase) (m n n' : FakeMediator) (p p' : Phase)
    → h m ≡ (ok p, n)
    → h m ≡ (ok p', n')
    → (p' ≡ p) × (n' ≡ n)
unfolding value
agree h m n n' p p' k e = let both = sym e ∙ k in (ap (λ x. value p x.0) both, ap (λ x. x.1) both)

-- The step of `h` is one of those that `Effect` and `Entry` list.
pub record Acts (address : SocketAddress) (from : Phase) (h : Handle Phase) : Type 0 where
  pub acts : (m m' : FakeMediator) (to : Phase) → h m ≡ (ok to, m') → Moves address from to m m'
  pub throws : (m m' : FakeMediator) (e : Exception) → h m ≡ (throw e, m') → SameShared m m'

module _ (address : SocketAddress) (from : Phase) (h : Handle Phase) where
  -- A step that changes nothing that the handlers share.
  pub Acts-leaves :
      {Q : Phase → Type 0}
      → Leaves h Q
      → ((m m' : FakeMediator) (to : Phase) → SameShared m m' → Q to → Moves address from to m m')
      → Acts address from h
  Acts-leaves leaves moves = record {
    acts = λ m m' to e. let (same, q) = of_leaves h m m' to leaves e in moves m m' to same q;
    throws = λ m m' x e. subst (λ r. SameShared m r.1) e (leaves.after m).0;
  }

  pub Acts-quiet :
      {o : Option Advertise} → registered_as from ≡ o → Leaves h (IsQuiet o) → Acts address from h
  Acts-quiet before leaves =
      Acts-leaves leaves λ m m' to same q. (plain same.0 q.0, unnamed same.1 (q.1 ∙ sym before) q.2)

  -- A step that never throws.
  pub Acts-total :
      (to : FakeMediator → Phase) (after : FakeMediator → FakeMediator)
      → ((m : FakeMediator) → h m ≡ (ok (to m), after m))
      → ((m : FakeMediator) → Moves address from (to m) m (after m))
      → Acts address from h
  Acts-total to after returns moves = record {
    acts = λ m m' to' e.
        let (et, em) = agree h m (after m) m' (to m) to' (returns m) e in
        subst (λ x. Moves address from to' m x) (sym em)
          (subst (λ x. Moves address from x m (after m)) (sym et) (moves m));
    throws = λ m m' x e. let no : ok (to m) ≡ throw x = ap (λ r. r.0) (sym (returns m) ∙ e) in cc;
  }
