-- ===== src/Integration/Handle.antt =====
-- The members of `FakeMediator` (integration/src/util/fake_mediator.h), and the code of a handler
-- thread as actions on them.
pub mod Leaves
use p2psc.Prelude.{
  ℕ, Bool, true, false, ◌||◌, none, some, List, [], ◌∷◌, ◌++◌, Bytes, ◌==◌, if◌then◌else◌,
}
use p2psc.Errors.{Result, ok, throw}
use p2psc.Message.Types.{MessageType}
use p2psc.Net.Objects.{SocketAddress, address_eq, Mediator}
use p2psc.Integration.Store.{Store}

-- The threads, the mutex and the condition variables have no part in what the functions compute. The
-- constructors do not set `quit_after`.
pub record FakeMediator : Type 0 where
  pub mediator : Mediator
  pub key_to_identifier_store : Store
  pub is_running : Bool
  pub quit_after : MessageType
  pub received_messages : List Bytes
  pub sent_messages : List Bytes
  pub completed_disconnects : List SocketAddress
  pub protocol_version : ℕ  -- std::uint8_t

-- `std::unordered_set<SocketAddress>`; no operation looks at the order.
unfoldable pub contains : SocketAddress → List SocketAddress → Bool
contains x [] = false
contains x (y ∷ set) = address_eq x y || contains x set

unfoldable pub insert : SocketAddress → List SocketAddress → List SocketAddress
insert x set = if contains x set then set else x ∷ set

unfoldable pub erase : SocketAddress → List SocketAddress → List SocketAddress
erase x [] = []
erase x (y ∷ set) = let rest = erase x set in if address_eq x y then rest else y ∷ rest

-- What a handler does between two of its waits.
abbrev pub Handle : Type 0 → Type 0
Handle A = FakeMediator → Result A × FakeMediator

module _ {A : Type 0} where
  pub pure : A → Handle A
  pure a m = (ok a, m)

  pub lift : Result A → Handle A
  lift r m = (r, m)

pub state : Handle FakeMediator
state m = (ok m, m)

pub modify : (FakeMediator → FakeMediator) → Handle (Unit {0})
modify f m = (ok tt, f m)

module _ {A B : Type 0} where
  abbrev pub and_then : Result A → (A → Handle B) → FakeMediator → Result B × FakeMediator
  and_then (ok a) f m = f a m
  and_then (throw e) f m = (throw e, m)

  infixl 5 ◌>>=◌
  -- Opening this opens the actions above too.
  unfoldable pub ◌>>=◌ : Handle A → (A → Handle B) → Handle B
  unfolding pure lift state modify
  ◌>>=◌ h f m = let (r, m') = h m in and_then r f m'

infixl 5 ◌>>◌
abbrev pub ◌>>◌ : {B : Type 0} → Handle (Unit {0}) → Handle B → Handle B
h >> k = h >>= λ _. k
