-- ===== src/Integration/FakeMediator.antt =====
-- integration/src/util/fake_mediator.cpp: the code of a handler thread, from wait to wait.
pub mod System
pub mod Effects
pub mod Transitions
pub mod Steps
pub mod Sets
pub mod Ordered
pub mod Order
pub mod Provenance
pub mod Asked
pub mod Lookups
pub mod Meeting
pub mod Race
pub mod Challenge
pub mod Introduction
use p2psc.Prelude.{
  ℕ, ◌+◌, ◌-◌, ◌++◌, Bool, true, false, Option, none, some, List, [], ◌∷◌, Bytes, codes, to_string,
  ltb, ◌==◌, if◌then◌else◌,
}
use p2psc.Errors.{Result, Exception}
use p2psc.Crypto.OpenSsl.{OpenSsl, Base64}
use p2psc.Crypto.Rsa.{from_public_key, public_encrypt}
use p2psc.Message.Types.{MessageType}
use p2psc.Message.Codec.{JsonLibrary}
use p2psc.Message.Format.{Payload, Message, message, encode, decode}
use p2psc.Message.Payloads.Mediation.{
  Advertise, AdvertiseChallenge, AdvertiseResponse, AdvertiseAbort, PeerDisconnect,
  PeerIdentification, advertise_payload, advertise_challenge_payload, advertise_response_payload,
  advertise_abort_payload, peer_disconnect_payload, peer_identification_payload,
}
use p2psc.Net.Objects.{SocketAddress, Mediator}
use p2psc.Mediation.{version}
use p2psc.Integration.Store.{PeerIdentifier, Store, get, put}
use p2psc.Integration.Handle.{
  FakeMediator, Handle, contains, insert, erase, pure, lift, state, modify, ◌>>=◌, ◌>>◌,
}

-- The constructors; `quit_after` is what the memory holds.
unfoldable pub new : Mediator → MessageType → FakeMediator
new mediator quit_after = record {
  mediator = mediator;
  key_to_identifier_store = [];
  is_running = false;
  quit_after = quit_after;
  received_messages = [];
  sent_messages = [];
  completed_disconnects = [];
  protocol_version = version;
}

-- Where the handler of a session stands. `gave_up`, `disconnected` and `identified` are returns too,
-- the first where no peer has come, the others with what the session was told.
pub data Phase : Type 0 where
  awaiting_advertise finished : Phase
  aborting challenging awaiting_response looking_up registering_client gave_up : Advertise → Phase
  awaiting_peer : Advertise → ℕ → ℕ → Phase
  awaiting_disconnect identifying identified : Advertise → PeerIdentifier → Phase
  registering_peer : Advertise → PeerIdentifier → Phase
  disconnecting adding_disconnect disconnected : Advertise → Phase

-- What ends a wait: `receive` or `send` has returned or thrown, or the thread goes on. `sent` carries
-- the padding that an encryption before the call draws, and `scheduled` the time in milliseconds.
pub data Input : Type 0 where
  received : Result Bytes → Input
  sent : ℕ → Result (Unit {0}) → Input
  scheduled : ℕ → Input

-- `QUIT_IF_REQUESTED`.
unfoldable pub quit_if_requested : MessageType → Phase → Handle Phase
quit_if_requested message_type next = do
  m ← state
  if message_type == m.quit_after then pure finished else pure next

module _ {T : Type 0} ⦃t : Payload T⦄ ⦃j : JsonLibrary⦄ where
  unfoldable pub send_and_log : Result (Unit {0}) → Message T → Handle (Unit {0})
  send_and_log status message = do
    lift status
    modify (λ m. record m { sent_messages = m.sent_messages ++ (encode message.format ∷ []) })

  unfoldable pub receive_and_log : Result Bytes → Handle (Message T)
  receive_and_log status = do
    raw_message ← lift status
    decoded ← lift (decode raw_message)
    modify (λ m. record m { received_messages = m.received_messages ++ (raw_message ∷ []) })
    pure (message decoded.payload)

-- A look-up that has been awoken, with the time that is left.
unfoldable pub on_wake : Advertise → ℕ → Option PeerIdentifier → ℕ → Phase
on_wake advertise start_ms (some awaited_peer) wait_ms = awaiting_disconnect advertise awaited_peer
on_wake advertise start_ms none wait_ms =
    if ltb 0 wait_ms then awaiting_peer advertise start_ms wait_ms else gave_up advertise

-- The test `!maybe_peer`.
unfoldable pub client_or_peer : Advertise → Option PeerIdentifier → Phase
client_or_peer advertise none = registering_client advertise
client_or_peer advertise (some peer) = registering_peer advertise peer

abbrev pub timeout_ms : ℕ
timeout_ms = 2000

-- `_handle_connection` in its phases.
module _ ⦃j : JsonLibrary⦄ ⦃s : OpenSsl⦄ ⦃b : Base64⦄ (address : SocketAddress) where
  pub on_advertise : Result Bytes → Handle Phase
  on_advertise status = do
    advertise ← receive_and_log {T = Advertise} status
    m ← state
    quit_if_requested advertise.format.type (
        if ltb advertise.format.payload.version m.protocol_version
        then aborting advertise.format.payload
        else challenging advertise.format.payload)

  -- The handler returns after an abort, whether it is to quit or not.
  pub abort : Advertise → Result (Unit {0}) → Handle Phase
  abort advertise status = do
    m ← state
    let advertise_abort : AdvertiseAbort = record {
      reason = codes "Required protocol version: " ++ to_string m.protocol_version;
    }
    send_and_log status (message advertise_abort)
    quit_if_requested (message advertise_abort).format.type finished

  pub challenge : Advertise → ℕ → Result (Unit {0}) → Handle Phase
  challenge advertise pad status = do
    peer_pub_key ← lift (from_public_key advertise.our_key)
    encrypted_nonce ← lift (public_encrypt pad peer_pub_key (to_string 1337))
    let advertise_challenge : AdvertiseChallenge = record { encrypted_nonce = encrypted_nonce }
    send_and_log status (message advertise_challenge)
    quit_if_requested (message advertise_challenge).format.type (awaiting_response advertise)

  -- The nonce of the response is not looked at.
  pub on_response : Advertise → Result Bytes → Handle Phase
  on_response advertise status = do
    advertise_response ← receive_and_log {T = AdvertiseResponse} status
    quit_if_requested advertise_response.format.type (looking_up advertise)

  pub look_up : Advertise → Handle Phase
  look_up advertise = do
    m ← state
    pure (client_or_peer advertise (get advertise.their_key m.key_to_identifier_store))

  register : Advertise → Handle (Unit {0})
  register advertise = modify (λ m. record m {
    key_to_identifier_store =
        put advertise.our_key (record { socket_address = address; version = advertise.version })
          m.key_to_identifier_store;
  })

  -- `put` on the client's side, and the call of `await`.
  pub register_client : Advertise → ℕ → Handle Phase
  unfolding register
  register_client advertise now_ms = do
    register advertise
    pure (awaiting_peer advertise now_ms timeout_ms)

  -- `wait_for` in `await` has returned.
  pub wake : Advertise → ℕ → ℕ → ℕ → Handle Phase
  wake advertise start_ms wait_ms now_ms = do
    m ← state
    pure (
        on_wake advertise start_ms (get advertise.their_key m.key_to_identifier_store)
          ((wait_ms + start_ms) - now_ms))

  -- `_wait_for_disconnect`.
  pub wait_for_disconnect : Advertise → PeerIdentifier → Handle Phase
  wait_for_disconnect advertise peer = do
    m ← state
    if contains peer.socket_address m.completed_disconnects
        then (do
          modify (λ m. record m {
            completed_disconnects = erase peer.socket_address m.completed_disconnects;
          })
          pure (identifying advertise peer))
        else pure (awaiting_disconnect advertise peer)

  -- The handler returns after this, whether it is to quit or not.
  pub identify : Advertise → PeerIdentifier → Result (Unit {0}) → Handle Phase
  identify advertise peer status = do
    let peer_identification : PeerIdentification = record {
      version = peer.version;
      ip = peer.socket_address.ip;
      port = peer.socket_address.port;
    }
    send_and_log status (message peer_identification)
    pure (identified advertise peer)

  pub register_peer : Advertise → Handle Phase
  unfolding register
  register_peer advertise = do register advertise; pure (disconnecting advertise)

  pub disconnect : Advertise → Result (Unit {0}) → Handle Phase
  disconnect advertise status = do
    let peer_disconnect : PeerDisconnect = record { port = address.port }
    send_and_log status (message peer_disconnect)
    pure (adding_disconnect advertise)

  -- `_add_to_disconnects`. The handler returns after it, whether it is to quit or not.
  pub add_to_disconnects : Advertise → Handle Phase
  add_to_disconnects advertise = do
    modify (λ m. record m { completed_disconnects = insert address m.completed_disconnects })
    pure (disconnected advertise)

  -- What the handler does next; `none` where the input is not what it waits for.
  unfoldable pub handle_connection : Phase → Input → Option (Handle Phase)
  unfolding on_advertise abort challenge on_response look_up register_client wake
      wait_for_disconnect identify register_peer disconnect add_to_disconnects
  handle_connection awaiting_advertise (received status) = some (on_advertise status)
  handle_connection (aborting a) (sent pad status) = some (abort a status)
  handle_connection (challenging a) (sent pad status) = some (challenge a pad status)
  handle_connection (awaiting_response a) (received status) = some (on_response a status)
  handle_connection (looking_up a) (scheduled now_ms) = some (look_up a)
  handle_connection (registering_client a) (scheduled now_ms) = some (register_client a now_ms)
  handle_connection (awaiting_peer a start_ms wait_ms) (scheduled now_ms) =
      some (wake a start_ms wait_ms now_ms)
  handle_connection (awaiting_disconnect a peer) (scheduled now_ms) =
      some (wait_for_disconnect a peer)
  handle_connection (identifying a peer) (sent pad status) = some (identify a peer status)
  handle_connection (registering_peer a maybe_peer) (scheduled now_ms) = some (register_peer a)
  handle_connection (disconnecting a) (sent pad status) = some (disconnect a status)
  handle_connection (adding_disconnect a) (scheduled now_ms) = some (add_to_disconnects a)
  handle_connection _ _ = none
