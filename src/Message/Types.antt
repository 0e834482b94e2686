-- ===== src/Message/Types.antt =====
-- include/p2psc/message/types.h: the numbers of the message types and their names.
use p2psc.Prelude.{ℕ, ◌++◌, Bytes, codes, to_string, ◌==◌, if◌then◌else◌}

-- `MessageType` is `std::uint8_t`.
abbrev pub MessageType : Type 0
MessageType = ℕ

abbrev pub type_advertise : MessageType
type_advertise = 0

abbrev pub type_advertise_challenge : MessageType
type_advertise_challenge = 1

abbrev pub type_advertise_response : MessageType
type_advertise_response = 2

abbrev pub type_advertise_abort : MessageType
type_advertise_abort = 3

abbrev pub type_advertise_retry : MessageType
type_advertise_retry = 4

abbrev pub type_peer_disconnect : MessageType
type_peer_disconnect = 5

abbrev pub type_peer_identification : MessageType
type_peer_identification = 6

abbrev pub type_peer_challenge : MessageType
type_peer_challenge = 7

abbrev pub type_peer_challenge_response : MessageType
type_peer_challenge_response = 8

abbrev pub type_peer_response : MessageType
type_peer_response = 9

abbrev pub type_peer_acknowledgement : MessageType
type_peer_acknowledgement = 10

-- The `switch`; the last branch is `default`.
unfoldable pub message_type_string : MessageType → Bytes
message_type_string type =
    if type == type_advertise
    then codes "Advertise"
    else if type == type_advertise_challenge
    then codes "AdvertiseChallenge"
    else if type == type_advertise_response
    then codes "AdvertiseResponse"
    else if type == type_advertise_abort
    then codes "AdvertiseAbort"
    else if type == type_advertise_retry
    then codes "AdvertiseRetry"
    else if type == type_peer_disconnect
    then codes "PeerDisconnect"
    else if type == type_peer_identification
    then codes "PeerIdentification"
    else if type == type_peer_challenge
    then codes "PeerChallenge"
    else if type == type_peer_challenge_response
    then codes "PeerChallengeResponse"
    else if type == type_peer_response
    then codes "PeerResponse"
    else if type == type_peer_acknowledgement
    then codes "PeerAcknowledgement"
    else codes "Unknown (" ++ (to_string type ++ codes ")")
