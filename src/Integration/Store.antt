-- ===== src/Integration/Store.antt =====
-- integration/src/util/key_to_identifier_store.cpp and integration/include/util/peer_identifier.h.
pub mod Awaiting
pub mod Registration
pub mod Entries
use p2psc.Prelude.{
  ℕ, ◌+◌, ◌-◌, Bool, true, false, Option, none, some, List, [], ◌∷◌, Bytes, bytes_eq, ltb,
  if◌then◌else◌,
}
use p2psc.Net.Objects.{SocketAddress}

pub record PeerIdentifier : Type 0 where
  pub socket_address : SocketAddress
  pub version : ℕ  -- std::uint8_t

-- `std::map<std::string, PeerIdentifier>`; no operation looks at the order.
abbrev pub Store : Type 0
Store = List (Bytes × PeerIdentifier)

-- `_get`: `at`, whose exception for a missing key becomes `boost::none`.
unfoldable pub get : Bytes → Store → Option PeerIdentifier
get id [] = none
get id ((key, p) ∷ store) = let rest = get id store in if bytes_eq id key then some p else rest

-- `put`: `std::map::insert` leaves a key that is there as it is.
abbrev inserted : Option PeerIdentifier → Bytes → PeerIdentifier → Store → Store
inserted none id peer_identifier store = (id, peer_identifier) ∷ store
inserted (some _) id peer_identifier store = store

unfoldable pub put : Bytes → PeerIdentifier → Store → Store
put id peer_identifier store = inserted (get id store) id peer_identifier store

-- What a thread finds when `wait_for` returns: the store, and the time in milliseconds.
pub record Wake : Type 0 where
  pub store : Store
  pub now_ms : ℕ

-- `waiting` is a thread that has not been woken again.
pub data Awaited : Type 0 where
  returned : Option PeerIdentifier → Awaited
  waiting : Awaited

-- The loop's body after the look-up, with the time that is left and the next round.
abbrev pub on_wake : Option PeerIdentifier → ℕ → Awaited → Awaited
on_wake (some identifier) wait_ms more = returned (some identifier)
on_wake none wait_ms more = if ltb 0 wait_ms then more else returned none

-- The `do`-loop of `await` on the wakes to come. `wait_ms - (now - start)` is at most 0 exactly where
-- the difference below is 0.
unfoldable pub await_loop : Bytes → ℕ → ℕ → List Wake → Awaited
await_loop id start_ms wait_ms [] = waiting
await_loop id start_ms wait_ms (w ∷ wakes) =
    let wait_ms' = (wait_ms + start_ms) - w.now_ms in
    let rest = await_loop id start_ms wait_ms' wakes in on_wake (get id w.store) wait_ms' rest

unfoldable pub await : Bytes → ℕ → ℕ → List Wake → Awaited
await id ms start_ms wakes = await_loop id start_ms ms wakes
