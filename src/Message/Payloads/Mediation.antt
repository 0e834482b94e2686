-- ===== src/Message/Payloads/Mediation.antt =====
-- The payloads of the messages between a peer and the Mediator.
use p2psc.Prelude.{ℕ, refl, Bool, ◌&&◌, Bytes, codes, bytes_eq, ◌==◌, arith}
use p2psc.Message.Types.{
  type_advertise, type_advertise_challenge, type_advertise_response, type_advertise_abort,
  type_advertise_retry, type_peer_disconnect, type_peer_identification,
}
use p2psc.Message.Codec.{Codec, IsObject, IsCodec, uint8, uint16, text, end, required}
use p2psc.Message.Format.{Payload}

-- include/p2psc/message/advertise.h
pub record Advertise : Type 0 where
  pub version : ℕ
  pub our_key : Bytes
  pub their_key : Bytes

abbrev pub advertise_codec : Codec
advertise_codec =
    required (codes "version") uint8
      (required (codes "our_key") text (required (codes "their_key") text end))

pub advertise_codec-IsCodec : IsObject advertise_codec × IsCodec advertise_codec
unfolding bytes_eq
advertise_codec-IsCodec = (tt, (tt, tt, (refl, (refl, tt)), (tt, tt, (refl, tt), (tt, tt, tt, tt))))

instance abbrev pub advertise_payload : Payload Advertise
advertise_payload = record {
  type = type_advertise;
  codec = advertise_codec;
  to_value = λ p. (p.version, (p.our_key, (p.their_key, tt)));
  of_value = λ v. record { version = v.0; our_key = v.1.0; their_key = v.1.1.0 };
  of_value-to_value = λ p. refl;
  type_fits = omega arith;
  codec_lem = advertise_codec-IsCodec;
}

-- `operator==`
unfoldable pub advertise_eq : Advertise → Advertise → Bool
advertise_eq lhs rhs =
    lhs.version == rhs.version
    && bytes_eq lhs.our_key rhs.our_key
    && bytes_eq lhs.their_key rhs.their_key

-- include/p2psc/message/advertise_challenge.h
pub record AdvertiseChallenge : Type 0 where
  pub encrypted_nonce : Bytes

abbrev pub advertise_challenge_codec : Codec
advertise_challenge_codec = required (codes "encrypted_nonce") text end

pub advertise_challenge_codec-IsCodec :
    IsObject advertise_challenge_codec × IsCodec advertise_challenge_codec
unfolding bytes_eq
advertise_challenge_codec-IsCodec = (tt, (tt, tt, tt, tt))

instance abbrev pub advertise_challenge_payload : Payload AdvertiseChallenge
advertise_challenge_payload = record {
  type = type_advertise_challenge;
  codec = advertise_challenge_codec;
  to_value = λ p. (p.encrypted_nonce, tt);
  of_value = λ v. record { encrypted_nonce = v.0 };
  of_value-to_value = λ p. refl;
  type_fits = omega arith;
  codec_lem = advertise_challenge_codec-IsCodec;
}

-- `operator==`
unfoldable pub advertise_challenge_eq : AdvertiseChallenge → AdvertiseChallenge → Bool
advertise_challenge_eq lhs rhs = bytes_eq lhs.encrypted_nonce rhs.encrypted_nonce

-- include/p2psc/message/advertise_response.h
pub record AdvertiseResponse : Type 0 where
  pub nonce : Bytes

abbrev pub advertise_response_codec : Codec
advertise_response_codec = required (codes "nonce") text end

pub advertise_response_codec-IsCodec :
    IsObject advertise_response_codec × IsCodec advertise_response_codec
unfolding bytes_eq
advertise_response_codec-IsCodec = (tt, (tt, tt, tt, tt))

instance abbrev pub advertise_response_payload : Payload AdvertiseResponse
advertise_response_payload = record {
  type = type_advertise_response;
  codec = advertise_response_codec;
  to_value = λ p. (p.nonce, tt);
  of_value = λ v. record { nonce = v.0 };
  of_value-to_value = λ p. refl;
  type_fits = omega arith;
  codec_lem = advertise_response_codec-IsCodec;
}

-- `operator==`
unfoldable pub advertise_response_eq : AdvertiseResponse → AdvertiseResponse → Bool
advertise_response_eq lhs rhs = bytes_eq lhs.nonce rhs.nonce

-- include/p2psc/message/advertise_abort.h
pub record AdvertiseAbort : Type 0 where
  pub reason : Bytes

abbrev pub advertise_abort_codec : Codec
advertise_abort_codec = required (codes "reason") text end

pub advertise_abort_codec-IsCodec : IsObject advertise_abort_codec × IsCodec advertise_abort_codec
unfolding bytes_eq
advertise_abort_codec-IsCodec = (tt, (tt, tt, tt, tt))

instance abbrev pub advertise_abort_payload : Payload AdvertiseAbort
advertise_abort_payload = record {
  type = type_advertise_abort;
  codec = advertise_abort_codec;
  to_value = λ p. (p.reason, tt);
  of_value = λ v. record { reason = v.0 };
  of_value-to_value = λ p. refl;
  type_fits = omega arith;
  codec_lem = advertise_abort_codec-IsCodec;
}

-- `operator==`
unfoldable pub advertise_abort_eq : AdvertiseAbort → AdvertiseAbort → Bool
advertise_abort_eq lhs rhs = bytes_eq lhs.reason rhs.reason

-- include/p2psc/message/advertise_retry.h
pub record AdvertiseRetry : Type 0 where
  pub reason : Bytes

abbrev pub advertise_retry_codec : Codec
advertise_retry_codec = required (codes "reason") text end

pub advertise_retry_codec-IsCodec : IsObject advertise_retry_codec × IsCodec advertise_retry_codec
unfolding bytes_eq
advertise_retry_codec-IsCodec = (tt, (tt, tt, tt, tt))

instance abbrev pub advertise_retry_payload : Payload AdvertiseRetry
advertise_retry_payload = record {
  type = type_advertise_retry;
  codec = advertise_retry_codec;
  to_value = λ p. (p.reason, tt);
  of_value = λ v. record { reason = v.0 };
  of_value-to_value = λ p. refl;
  type_fits = omega arith;
  codec_lem = advertise_retry_codec-IsCodec;
}

-- `operator==`
unfoldable pub advertise_retry_eq : AdvertiseRetry → AdvertiseRetry → Bool
advertise_retry_eq lhs rhs = bytes_eq lhs.reason rhs.reason

-- include/p2psc/message/peer_disconnect.h
pub record PeerDisconnect : Type 0 where
  pub port : ℕ

abbrev pub peer_disconnect_codec : Codec
peer_disconnect_codec = required (codes "port") uint16 end

pub peer_disconnect_codec-IsCodec : IsObject peer_disconnect_codec × IsCodec peer_disconnect_codec
unfolding bytes_eq
peer_disconnect_codec-IsCodec = (tt, (tt, tt, tt, tt))

instance abbrev pub peer_disconnect_payload : Payload PeerDisconnect
peer_disconnect_payload = record {
  type = type_peer_disconnect;
  codec = peer_disconnect_codec;
  to_value = λ p. (p.port, tt);
  of_value = λ v. record { port = v.0 };
  of_value-to_value = λ p. refl;
  type_fits = omega arith;
  codec_lem = peer_disconnect_codec-IsCodec;
}

-- `operator==`
unfoldable pub peer_disconnect_eq : PeerDisconnect → PeerDisconnect → Bool
peer_disconnect_eq lhs rhs = lhs.port == rhs.port

-- include/p2psc/message/peer_identification.h
pub record PeerIdentification : Type 0 where
  pub version : ℕ
  pub ip : Bytes
  pub port : ℕ

abbrev pub peer_identification_codec : Codec
peer_identification_codec =
    required (codes "version") uint8
      (required (codes "ip") text (required (codes "port") uint16 end))

pub peer_identification_codec-IsCodec :
    IsObject peer_identification_codec × IsCodec peer_identification_codec
unfolding bytes_eq
peer_identification_codec-IsCodec =
    (tt, (tt, tt, (refl, (refl, tt)), (tt, tt, (refl, tt), (tt, tt, tt, tt))))

instance abbrev pub peer_identification_payload : Payload PeerIdentification
peer_identification_payload = record {
  type = type_peer_identification;
  codec = peer_identification_codec;
  to_value = λ p. (p.version, (p.ip, (p.port, tt)));
  of_value = λ v. record { version = v.0; ip = v.1.0; port = v.1.1.0 };
  of_value-to_value = λ p. refl;
  type_fits = omega arith;
  codec_lem = peer_identification_codec-IsCodec;
}

-- `operator==`
unfoldable pub peer_identification_eq : PeerIdentification → PeerIdentification → Bool
peer_identification_eq lhs rhs =
    lhs.version == rhs.version && bytes_eq lhs.ip rhs.ip && lhs.port == rhs.port
