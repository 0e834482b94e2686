-- ===== src/Net/Messages/Delivery.antt =====
-- Messages that are sent whole and arrive whole.
use p2psc.Prelude.{◌≡◌, ◌∙◌}
use p2psc.Message.Codec.{JsonLibrary, JsonLaws}
use p2psc.Message.Format.{Payload, message, encode}
use p2psc.Message.RoundTrip.{Fits, decode-encode}
use p2psc.Net.Objects.{SocketPtr}
use p2psc.Net.System.{Os}
use p2psc.Net.Run.{World, ok}
use p2psc.Net.Run.Returns.{bind-eq, lift-bind-eq, pure-eq}
use p2psc.Net.Messages.{receive_raw, send_and_log, receive_and_log}

module _ {T : Type 0} ⦃m : Payload T⦄ ⦃j : JsonLibrary⦄ ⦃o : Os⦄ (socket : SocketPtr) where
  -- One message is sent, from `w` to `w'`.
  abbrev pub Sends : T → World → World → Type 0
  Sends payload w w' = send_and_log socket (message payload) w ≡ (ok tt, w')

  -- One message arrives, from `w` to `w'`, and it fits its members.
  abbrev pub Arrives : T → World → World → Type 0
  Arrives payload w w' =
      (receive_raw socket w ≡ (ok (encode (message payload).format), w'))
      × Fits (message payload).format

module _ {T : Type 0} ⦃m : Payload T⦄ ⦃j : JsonLibrary⦄ ⦃o : Os⦄ (laws : JsonLaws j)
    (socket : SocketPtr) where
  pub receive_and_log-eq :
      (payload : T) (w w' : World)
      → Arrives socket payload w w'
      → receive_and_log socket w ≡ (ok (message payload), w')
  unfolding receive_and_log message
  receive_and_log-eq payload w w' (arrives, fits) =
      bind-eq (receive_raw socket) _ w w' _ arrives
      ∙ lift-bind-eq _ _ _ w' (decode-encode laws (message payload).format fits)
      ∙ pure-eq _ w'

-- A message that `a` sends on its socket arrives on the socket of `b`.
module _ {T : Type 0} ⦃m : Payload T⦄ ⦃j : JsonLibrary⦄ (a b : Os) (from to : SocketPtr) where
  abbrev pub Delivers : T → World → World → World → World → Type 0
  Delivers payload w w' v v' =
      Sends ⦃o = a⦄ from payload w w'
      × (receive_raw ⦃o = b⦄ to v ≡ (ok (encode (message payload).format), v'))
