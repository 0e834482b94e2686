-- ===== src/Message/RoundTrip.antt =====
-- What `decode` and `decode_message_type` make of a message that was encoded.
use p2psc.Prelude.{◌<◌, ◌^◌, ◌≡◌, refl, arith, codes, bytes_eq}
use p2psc.Errors.{ok}
use p2psc.Message.Codec.{InRange, IsCodec, uint8, required, end, JsonLibrary, JsonLaws}
use p2psc.Message.Format.{Payload, MessageFormat, encode, decode, decode_message_type, format_codec}

-- A format that fits its members.
abbrev pub Fits : {T : Type 0} ⦃m : Payload T⦄ → MessageFormat T → Type 0
Fits ⦃m⦄ f = (f.type < 2 ^ 8) × InRange m.codec (m.to_value f.payload)

module _ {T : Type 0} ⦃m : Payload T⦄ ⦃j : JsonLibrary⦄ (laws : JsonLaws j) (f : MessageFormat T)
    (fits : Fits f) where
  format_codec-IsCodec : IsCodec (format_codec m.codec)
  unfolding bytes_eq
  format_codec-IsCodec = (tt, tt, (refl, tt), (m.codec_lem.1, tt, tt, tt))

  -- Decoding a message that was encoded gives its type and its payload back, for a payload of any
  -- type whose numbers fit their members and whose texts are ASCII.
  pub decode-encode : decode (encode f) ≡ ok f
  unfolding decode encode
  decode-encode = ground (
    arith,
    laws.decode-encode (format_codec m.codec) (f.type, (m.to_value f.payload, tt))
        format_codec-IsCodec (fits.0, (fits.1, tt)),
    m.of_value-to_value f.payload,
  )

  -- The type of an encoded message is read off its text without knowing which type it has, for
  -- a payload whose numbers fit their members and whose texts are ASCII.
  pub decode_message_type-encode : decode_message_type (encode f) ≡ ok f.type
  unfolding decode_message_type encode
  decode_message_type-encode = ground (
    arith,
    laws.decode_first (codes "type") uint8 (required (codes "payload") m.codec end)
        (f.type, (m.to_value f.payload, tt)) format_codec-IsCodec (fits.0, (fits.1, tt)),
  )
