-- ===== src/Integration/FakeMediator/Race.antt =====
-- Two handlers that look for each other's peer at the same time.
use p2psc.Prelude.{◌≡◌, refl, ap, ◌∙◌, false, none, some, bytes_eq}
use p2psc.Errors.{ok}
use p2psc.Crypto.OpenSsl.{OpenSsl, Base64}
use p2psc.Message.Codec.{JsonLibrary}
use p2psc.Message.Payloads.Mediation.{
  Advertise, peer_disconnect_payload, peer_identification_payload,
}
use p2psc.Net.Objects.{SocketAddress}
use p2psc.Integration.Store.{get}
use p2psc.Integration.Store.Registration.{put-keeps, put-new, put-other}
use p2psc.Integration.Handle.{FakeMediator, contains, ◌>>=◌}
use p2psc.Integration.FakeMediator.{
  looking_up, registering_client, awaiting_peer, awaiting_disconnect, scheduled, look_up, register,
  register_client, wake, wait_for_disconnect, handle_connection, timeout_ms,
}
use p2psc.Integration.FakeMediator.System.{Reaches, handled, here, next, advanced}
use p2psc.Integration.FakeMediator.Lookups.{
  identifier, registered, two, look_up-none, wake-some, wait-missing,
}

module _ ⦃j : JsonLibrary⦄ ⦃ssl : OpenSsl⦄ ⦃b : Base64⦄ (m : FakeMediator) (x y : SocketAddress)
    (a c : Advertise) where
  abbrev first : FakeMediator
  first = registered x a m

  abbrev second : FakeMediator
  second = registered y c first

  finds_a :
      c.their_key ≡ a.our_key
      → get a.our_key m.key_to_identifier_store ≡ none
      → get c.their_key second.key_to_identifier_store ≡ some (identifier x a)
  finds_a ours no_a =
      ap (λ k. get k second.key_to_identifier_store) ours
      ∙ put-keeps a.our_key c.our_key _ _ _ (put-new a.our_key _ _ no_a)

  finds_c :
      a.their_key ≡ c.our_key
      → bytes_eq c.our_key a.our_key ≡ false
      → get c.our_key m.key_to_identifier_store ≡ none
      → get a.their_key second.key_to_identifier_store ≡ some (identifier y c)
  finds_c theirs other no_c =
      ap (λ k. get k second.key_to_identifier_store) theirs
      ∙ put-new c.our_key _ _ (put-other c.our_key a.our_key _ _ other ∙ no_c)

  -- If two sessions that look for each other both look before either has registered, both become
  -- Clients: each waits for the disconnect of the other, and stays there.
  pub race :
      a.their_key ≡ c.our_key
      → c.their_key ≡ a.our_key
      → bytes_eq c.our_key a.our_key ≡ false
      → get a.our_key m.key_to_identifier_store ≡ none
      → get c.our_key m.key_to_identifier_store ≡ none
      → contains x m.completed_disconnects ≡ false
      → contains y m.completed_disconnects ≡ false
      → Reaches (two m x (looking_up a) y (looking_up c)) (
          two
            (registered y c (registered x a m))
            x
            (awaiting_disconnect a (identifier y c))
            y
            (awaiting_disconnect c (identifier x a)))
        × (wait_for_disconnect x a (identifier y c) (registered y c (registered x a m))
            ≡ (ok (awaiting_disconnect a (identifier y c)), registered y c (registered x a m)))
        × (wait_for_disconnect y c (identifier x a) (registered y c (registered x a m))
            ≡ (ok (awaiting_disconnect c (identifier x a)), registered y c (registered x a m)))
  unfolding handle_connection advanced register_client register ◌>>=◌
  race theirs ours other no_a no_c free_x free_y = (
    next
        (next
          (next
            (next
              (next
                (next here (
                  handled 0 (scheduled 0) _ (look_up x a) (registering_client a) m refl refl refl
                    (look_up-none x a m (ap (λ k. get k m.key_to_identifier_store) theirs ∙ no_c))))
                (handled 1 (scheduled 0) _ (look_up y c) (registering_client c) m refl refl refl
                  (look_up-none y c m (ap (λ k. get k m.key_to_identifier_store) ours ∙ no_a))))
              (handled 0 (scheduled 0) _ (register_client x a 0) (awaiting_peer a 0 timeout_ms)
                first refl refl refl refl))
            (handled 1 (scheduled 0) _ (register_client y c 0) (awaiting_peer c 0 timeout_ms) second
              refl refl refl refl))
          (handled 0 (scheduled 0) _ (wake x a 0 timeout_ms 0)
            (awaiting_disconnect a (identifier y c)) second refl refl refl
            (wake-some x a second 0 timeout_ms 0 (identifier y c) (finds_c theirs other no_c))))
        (handled 1 (scheduled 0) _ (wake y c 0 timeout_ms 0)
          (awaiting_disconnect c (identifier x a)) second refl refl refl
          (wake-some y c second 0 timeout_ms 0 (identifier x a) (finds_a ours no_a))),
    wait-missing x a _ (identifier y c) free_y,
    wait-missing y c _ (identifier x a) free_x,
  )
