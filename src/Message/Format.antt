-- ===== src/Message/Format.antt =====
-- include/p2psc/message/message_format.h, anonymous_message_format.h, message.h and
-- message_decoder.h. The template parameter `T` is an instance of `Payload`.
pub mod Exceptions
use p2psc.Prelude.{◌<◌, ◌^◌, ◌≡◌, ◌++◌, inl, inr, ◌⊎◌, Bytes, codes}
use p2psc.Errors.{Result, ok, throw, message_exception}
use p2psc.Message.Types.{MessageType, message_type_string}
use p2psc.Message.Codec.{Codec, Value, IsObject, IsCodec, JsonLibrary, uint8, end, required}

-- What a payload struct brings: `T::type`, and its `default_codec_t`, whose members are read and
-- written by `of_value` and `to_value`.
pub record Payload (T : Type 0) : Type 0 where
  pub type : MessageType
  pub codec : Codec
  pub to_value : T → Value codec
  pub of_value : Value codec → T
  pub of_value-to_value : (t : T) → of_value (to_value t) ≡ t
  pub type_fits : type < 2 ^ 8
  pub codec_lem : IsObject codec × IsCodec codec

pub record AnonymousMessageFormat : Type 0 where
  pub type : MessageType

abbrev pub anonymous_codec : Codec
anonymous_codec = required (codes "type") uint8 end

-- The own `type` hides the one of the base class, which no codec reads.
pub record MessageFormat (T : Type 0) : Type 0 where
  pub type : MessageType
  pub payload : T

abbrev pub format_codec : Codec → Codec
format_codec c = required (codes "type") uint8 (required (codes "payload") c end)

pub record Message (T : Type 0) : Type 0 where
  pub format : MessageFormat T

module _ {T : Type 0} ⦃m : Payload T⦄ where
  -- The constructor of `Message<T>`.
  unfoldable pub message : T → Message T
  message payload = record { format = record { type = m.type; payload = payload } }

  module _ ⦃j : JsonLibrary⦄ where
    -- `encode(message)` by the codec of `MessageFormat<T>`.
    unfoldable pub encode : MessageFormat T → Bytes
    encode f = j.encode (format_codec m.codec) (f.type, (m.to_value f.payload, tt))

    decoded : Bytes ⊎ Value (format_codec m.codec) → Result (MessageFormat T)
    decoded (inr (type, (payload, _))) = ok (record { type = type; payload = m.of_value payload })
    decoded (inl what) = throw (
        message_exception (
          codes "Could not decode "
          ++ message_type_string m.type
          ++ codes " message. Reason: "
          ++ what))

    unfoldable pub decode : Bytes → Result (MessageFormat T)
    unfolding decoded
    decode message = decoded (j.decode (format_codec m.codec) message)

module _ ⦃j : JsonLibrary⦄ where
  decoded_type : Bytes ⊎ Value anonymous_codec → Result MessageType
  decoded_type (inr (type, _)) = ok type
  decoded_type (inl what) =
      throw (message_exception (codes "Could not decode anonymous message. Reason: " ++ what))

  unfoldable pub decode_message_type : Bytes → Result MessageType
  unfolding decoded_type
  decode_message_type message = decoded_type (j.decode anonymous_codec message)
