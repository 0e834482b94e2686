-- ===== src/Message/Payloads/Handshake.antt =====
-- The payloads of the messages between two peers.
use p2psc.Prelude.{refl, Bool, ◌&&◌, Bytes, codes, bytes_eq, arith}
use p2psc.Message.Types.{
  type_peer_challenge, type_peer_challenge_response, type_peer_response, type_peer_acknowledgement,
}
use p2psc.Message.Codec.{Codec, IsObject, IsCodec, text, end, required}
use p2psc.Message.Format.{Payload}

-- include/p2psc/message/peer_challenge.h
pub record PeerChallenge : Type 0 where
  pub encrypted_nonce : Bytes

abbrev pub peer_challenge_codec : Codec
peer_challenge_codec = required (codes "encrypted_nonce") text end

pub peer_challenge_codec-IsCodec : IsObject peer_challenge_codec × IsCodec peer_challenge_codec
unfolding bytes_eq
peer_challenge_codec-IsCodec = (tt, (tt, tt, tt, tt))

instance abbrev pub peer_challenge_payload : Payload PeerChallenge
peer_challenge_payload = record {
  type = type_peer_challenge;
  codec = peer_challenge_codec;
  to_value = λ p. (p.encrypted_nonce, tt);
  of_value = λ v. record { encrypted_nonce = v.0 };
  of_value-to_value = λ p. refl;
  type_fits = omega arith;
  codec_lem = peer_challenge_codec-IsCodec;
}

-- `operator==`
unfoldable pub peer_challenge_eq : PeerChallenge → PeerChallenge → Bool
peer_challenge_eq lhs rhs = bytes_eq lhs.encrypted_nonce rhs.encrypted_nonce

-- include/p2psc/message/peer_challenge_response.h
pub record PeerChallengeResponse : Type 0 where
  pub encrypted_nonce : Bytes
  pub decrypted_nonce : Bytes

abbrev pub peer_challenge_response_codec : Codec
peer_challenge_response_codec =
    required (codes "encrypted_nonce") text (required (codes "decrypted_nonce") text end)

pub peer_challenge_response_codec-IsCodec :
    IsObject peer_challenge_response_codec × IsCodec peer_challenge_response_codec
unfolding bytes_eq
peer_challenge_response_codec-IsCodec = (tt, (tt, tt, (refl, tt), (tt, tt, tt, tt)))

instance abbrev pub peer_challenge_response_payload : Payload PeerChallengeResponse
peer_challenge_response_payload = record {
  type = type_peer_challenge_response;
  codec = peer_challenge_response_codec;
  to_value = λ p. (p.encrypted_nonce, (p.decrypted_nonce, tt));
  of_value = λ v. record { encrypted_nonce = v.0; decrypted_nonce = v.1.0 };
  of_value-to_value = λ p. refl;
  type_fits = omega arith;
  codec_lem = peer_challenge_response_codec-IsCodec;
}

-- `operator==`
unfoldable pub peer_challenge_response_eq : PeerChallengeResponse → PeerChallengeResponse → Bool
peer_challenge_response_eq lhs rhs =
    bytes_eq lhs.encrypted_nonce rhs.encrypted_nonce
    && bytes_eq lhs.decrypted_nonce rhs.decrypted_nonce

-- include/p2psc/message/peer_response.h
pub record PeerResponse : Type 0 where
  pub decrypted_nonce : Bytes

abbrev pub peer_response_codec : Codec
peer_response_codec = required (codes "decrypted_nonce") text end

pub peer_response_codec-IsCodec : IsObject peer_response_codec × IsCodec peer_response_codec
unfolding bytes_eq
peer_response_codec-IsCodec = (tt, (tt, tt, tt, tt))

instance abbrev pub peer_response_payload : Payload PeerResponse
peer_response_payload = record {
  type = type_peer_response;
  codec = peer_response_codec;
  to_value = λ p. (p.decrypted_nonce, tt);
  of_value = λ v. record { decrypted_nonce = v.0 };
  of_value-to_value = λ p. refl;
  type_fits = omega arith;
  codec_lem = peer_response_codec-IsCodec;
}

-- `operator==`
unfoldable pub peer_response_eq : PeerResponse → PeerResponse → Bool
peer_response_eq lhs rhs = bytes_eq lhs.decrypted_nonce rhs.decrypted_nonce

-- include/p2psc/message/peer_acknowledgement.h
pub record PeerAcknowledgement : Type 0 where

abbrev pub peer_acknowledgement_codec : Codec
peer_acknowledgement_codec = end

pub peer_acknowledgement_codec-IsCodec :
    IsObject peer_acknowledgement_codec × IsCodec peer_acknowledgement_codec
unfolding bytes_eq
peer_acknowledgement_codec-IsCodec = (tt, tt)

instance abbrev pub peer_acknowledgement_payload : Payload PeerAcknowledgement
peer_acknowledgement_payload = record {
  type = type_peer_acknowledgement;
  codec = peer_acknowledgement_codec;
  to_value = λ p. tt;
  of_value = λ v. record {};
  of_value-to_value = λ p. refl;
  type_fits = omega arith;
  codec_lem = peer_acknowledgement_codec-IsCodec;
}
