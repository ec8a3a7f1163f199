-- ===== src/Examples/Channel.antt =====
-- Encrypted messages and connections.
use bcmr.Prelude.{ℕ, ◌≡◌, refl, arith, false}
use bcmr.Prelude.{[], ◌∷◌, ◌++◌, split_at?}
use bcmr.Bytes.Equal.{bytes_eq}
use bcmr.Bytes.Word.{Bytes, to_le_bytes}
use bcmr.Errors.{ok, bind_ok}
use bcmr.Protocol.Message.{done}
use bcmr.Protocol.Writer.{write_u32_le, write_bytes}
use bcmr.Protocol.Codec.{encode_body, encode_payload, encode_message}
use bcmr.Protocol.Stream.{Stream, Sink}
use bcmr.Protocol.Stream.Delivery.{stream}
use bcmr.Aead.{client_to_server, server_to_client}
use bcmr.Aead.{opened, decoded, advance, decrypt_message}
use bcmr.Aead.RoundTrip.{IsSealable}
use bcmr.Aead.Trace.{Distinct, Disjoint, emitted, emitted-never_reused}
use bcmr.Framing.{Framing, AeadState, sealed, aead_from_key, aead_halves, read_message}
use bcmr.Framing.{write_message, send, receive}
use bcmr.Framing.Halves.{halves, send_half, recv_half, halves-agree}
use bcmr.Framing.Peers.{Peers, both_sealed, empty_sink, write_messages, Reads, write_messages-Reads}
use bcmr.Examples.Toy.{toy_aead, toy_aead-IsLawful, tag, untag, zeros}
use bcmr.Examples.Wire.{
  put_a, put_a_frame, encode_put_a, decode_put_a, put_a-IsSendable, abc, abc-IsSendable,
}

abbrev key : Bytes
key = zeros 32

put_a-IsSealable : IsSealable put_a
put_a-IsSealable = record { valid = put_a-IsSendable.valid; small = rw encode_put_a (omega arith) }

abc-IsSealable : IsSealable abc
unfolding encode_message write_u32_le to_le_bytes encode_payload encode_body write_bytes
abc-IsSealable = record { valid = abc-IsSendable.valid; small = omega arith }

abbrev sent_before : ℕ
sent_before = 300

abbrev received : ℕ
received = 6

decrypted :
    decrypt_message toy_aead (tag ++ put_a_frame) key client_to_server 5 ≡ (ok put_a, received)
unfolding decrypt_message opened decoded advance split_at? untag bytes_eq
decrypted = bind_ok _ _ refl (rw decode_put_a refl)

emitted-never_reused_example :
    Distinct (emitted toy_aead key client_to_server (put_a ∷ abc ∷ []) 0)
    × Distinct (emitted toy_aead key server_to_client (done ∷ []) 0)
    × Disjoint
        (emitted toy_aead key client_to_server (put_a ∷ abc ∷ []) 0)
        (emitted toy_aead key server_to_client (done ∷ []) 0)
emitted-never_reused_example = emitted-never_reused toy_aead key (put_a ∷ abc ∷ []) (done ∷ [])

abbrev client : AeadState toy_aead
client = record {
  key = key;
  send_dir = client_to_server;
  recv_dir = server_to_client;
  send_counter = 0;
  recv_counter = 0;
}

abbrev server : AeadState toy_aead
server = record {
  key = key;
  send_dir = server_to_client;
  recv_dir = client_to_server;
  send_counter = 0;
  recv_counter = 0;
}

write_messages-Reads_example :
    (bytes : Bytes) × (f' : Framing toy_aead) × (g' : Framing toy_aead) × (write_messages toy_aead
        (put_a ∷ abc ∷ [])
        (empty_sink toy_aead [], sealed client)
      ≡ (ok tt, (empty_sink toy_aead bytes, f')))
    × Reads toy_aead (stream bytes false, sealed server) (put_a ∷ abc ∷ []) (stream [] false, g')
    × Peers toy_aead f' g'
write_messages-Reads_example =
    write_messages-Reads toy_aead toy_aead-IsLawful (put_a ∷ abc ∷ []) (sealed client)
      (sealed server) (both_sealed client server refl refl refl)
      (put_a-IsSealable, (abc-IsSealable, tt)) (omega arith)

abbrev out : Sink
out = record { sent = []; closed = false }

abbrev inp : Stream
inp = stream (1 ∷ 2 ∷ []) false

halves-agree_example :
    (aead_halves toy_aead key client_to_server server_to_client
      ≡ halves toy_aead (aead_from_key toy_aead key client_to_server server_to_client))
    × (let (r, sf) = write_message toy_aead put_a (out, sealed client) in
        (send toy_aead put_a (out, send_half toy_aead (sealed client))
          ≡ (r, (sf.0, send_half toy_aead sf.1)))
        × (recv_half toy_aead sf.1 ≡ recv_half toy_aead (sealed client)))
    × (let (r, sf) = read_message toy_aead (inp, sealed client) in
        (receive toy_aead (inp, recv_half toy_aead (sealed client))
          ≡ (r, (sf.0, recv_half toy_aead sf.1)))
        × (send_half toy_aead sf.1 ≡ send_half toy_aead (sealed client)))
halves-agree_example =
    halves-agree toy_aead (sealed client) put_a out inp key client_to_server server_to_client
