-- ===== src/Handshake/Total.antt =====
-- Steps of src/client.rs and src/server.rs that end whatever the stream does, and chains of them.
use axsh.Prelude.{Bytes, refl, Result}
use axsh.Handshake.{HandshakeError, Channel, Handshake, ◌>>=◌, lift, send, receive}
use axsh.Handshake.Steps.{Ends, >>=-Ends, receive-Ends, send-Ends}

-- On every state of the stream.
abbrev pub Total : {A : Type 0} → Handshake A → Type 0
Total m = (channel : Channel) → Ends m channel

pub >>=-Total :
    {A B : Type 0} (m : Handshake A) (next : A → Handshake B)
    → Total m
    → ((a : A) → Total (next a))
    → Total (m >>= next)
>>=-Total m next total more channel =
    >>=-Ends m next channel (total channel) (λ a between e. more a between)

pub lift-Total : {A : Type 0} (r : Result HandshakeError A) → Total (lift r)
lift-Total r channel = ((r, channel), refl)

pub send-Total : (bytes : Bytes) → Total (send bytes)
send-Total bytes channel = let (r, final, e, _) = send-Ends bytes channel in ((r, final), e)

pub receive-Total : Total receive
receive-Total channel = let (r, rest, e, _) = receive-Ends channel in (_, e)
