-- ===== src/Framing/Peers.antt =====
-- Two ends of a connection, plain or encrypted.
use bcmr.Prelude.{ℕ, ◌+◌, ◌%◌, ◌^◌, ◌≤◌, ◌<◌, ◌≡◌, refl, ap, ◌∙◌, arith, Bool, false}
use bcmr.Prelude.{Option, some, List, [], ◌∷◌, ◌++◌, append_assoc, append-nil, length}
use bcmr.Prelude.{length-append, All}
use bcmr.Bytes.Word.{Bytes}
use bcmr.Errors.{Result, ok, Exec, pure, ◌>>◌, bind_ok}
use bcmr.Protocol.Message.{Message}
use bcmr.Protocol.Writer.{write_u32_le}
use bcmr.Protocol.Codec.{encode_payload, encode_message}
use bcmr.Protocol.Stream.{Stream, Sink}
use bcmr.Protocol.Stream.Delivery.{
  stream, IsSendable, read_message-encode_message, write_message-open,
}
use bcmr.Aead.Cipher.{Aead, IsLawful}
use bcmr.Aead.{Direction, max_frame_len, read_encrypted_message}
use bcmr.Aead.RoundTrip.{IsSealable}
use bcmr.Aead.Delivery.{write_encrypted_message-read}
use bcmr.Framing.{Framing, AeadState, plain, sealed, read_message, write_message}

IsSealable-IsSendable : (m : Message) → IsSealable m → IsSendable m
IsSealable-IsSendable m h = record {
  valid = h.valid;
  small =
      unfold encode_message in
      omega (
        arith,
        h.small,
        length-append (write_u32_le (length (encode_payload m) % 2 ^ 32)) (encode_payload m),
      );
}

module _ (aead : Aead) where
  -- What the one end sends, the other can read: both are plain, or both have the same key, the
  -- other's receiving direction and counter being the one's sending direction and counter.
  pub data Peers : Framing aead → Framing aead → Type 0 where
    both_plain : Peers plain plain
    both_sealed :
        (f g : AeadState aead)
        → f.key ≡ g.key
        → f.send_dir ≡ g.recv_dir
        → f.send_counter ≡ g.recv_counter
        → Peers (sealed f) (sealed g)

  abbrev pub sent_counter : Framing aead → ℕ
  sent_counter plain = 0
  sent_counter (sealed st) = st.send_counter

  abbrev pub empty_sink : Bytes → Sink
  empty_sink out = record { sent = out; closed = false }

  pub write_messages : List Message → Exec (Sink × Framing aead) (Unit {0})
  write_messages [] = pure tt
  write_messages (m ∷ ms) = do write_message aead m; write_messages ms

  -- The messages are read from the first state, one after the other, and the second is left.
  pub data Reads : Stream × Framing aead → List Message → Stream × Framing aead → Type 0 where
    nothing : {s : Stream × Framing aead} → Reads s [] s
    message :
        {m : Message} {ms : List Message} {s t u : Stream × Framing aead}
        → read_message aead s ≡ (ok (some m), t)
        → Reads t ms u
        → Reads s (m ∷ ms) u

  module _ (f g : Framing aead) (m : Message) where
    -- One message that is written by `f` and read by `g`.
    record Passes : Type 0 where
      bytes : Bytes
      f' : Framing aead
      g' : Framing aead
      written :
          (out : Bytes)
          → write_message aead m (empty_sink out, f) ≡ (ok tt, (empty_sink (out ++ bytes), f'))
      read :
          (rest : Bytes) (broken : Bool)
          → read_message aead (stream (bytes ++ rest) broken, g)
            ≡ (ok (some m), (stream rest broken, g'))
      peers : Peers f' g'
      counted : sent_counter f' ≤ sent_counter f + 1

  module _ (lawful : IsLawful aead max_frame_len) where
    same_reader :
        {k k' : aead.Key} {d d' : Direction} {c c' : ℕ} {r : Result (Option Message) × (Stream × ℕ)}
        (s : Stream)
        → k ≡ k'
        → d ≡ d'
        → c ≡ c'
        → read_encrypted_message aead k d (s, c) ≡ r
        → read_encrypted_message aead k' d' (s, c') ≡ r
    same_reader s key dir counter e = rw (← key, ← dir, ← counter) e

    passes :
        (f g : Framing aead) (m : Message)
        → Peers f g
        → IsSealable m
        → sent_counter f + 1 < 2 ^ 64
        → Passes f g m
    unfolding read_message write_message
    passes f g m both_plain h room = record {
      bytes = encode_message m;
      f' = plain;
      g' = plain;
      written = λ out.
          ap (λ (p : Result (Unit {0}) × Sink). (p.0, (p.1, plain))) (write_message-open m out);
      read = λ rest broken.
          ap (λ (p : Result (Option Message) × Stream). (p.0, (p.1, plain)))
            (read_message-encode_message m rest broken (IsSealable-IsSendable m h));
      peers = both_plain;
      counted = omega arith;
    }
    passes _ _ m (both_sealed f g key dir counter) h room =
        let (bytes, written, read) =
          write_encrypted_message-read aead lawful m f.key f.send_dir f.send_counter h room in
        record {
          bytes = bytes;
          f' = sealed (record f { send_counter = f.send_counter + 1 });
          g' = sealed (record g { recv_counter = f.send_counter + 1 });
          written = λ out.
              ap
                (λ (p : Result (Unit {0}) × (Sink × ℕ)).
                  (p.0, (p.1.0, sealed (record f { send_counter = p.1.1 }))))
                (written out);
          read = λ rest broken.
              ap
                (λ (p : Result (Option Message) × (Stream × ℕ)).
                  (p.0, (p.1.0, sealed (record g { recv_counter = p.1.1 }))))
                (same_reader _ key dir counter (read rest broken));
          peers = both_sealed _ _ key dir refl;
          counted = omega arith;
        }

    passes-All :
        (ms : List Message) (f g : Framing aead)
        → Peers f g
        → All IsSealable ms
        → sent_counter f + length ms < 2 ^ 64
        → (bytes : Bytes) × (f' : Framing aead) × (g' : Framing aead) × ((out : Bytes)
            → write_messages ms (empty_sink out, f) ≡ (ok tt, (empty_sink (out ++ bytes), f')))
          × ((rest : Bytes) (broken : Bool)
              → Reads (stream (bytes ++ rest) broken, g) ms (stream rest broken, g'))
          × Peers f' g'
    unfolding write_messages
    passes-All [] f g p h room = ([], f, g, λ out. rw append-nil, λ rest broken. nothing, p)
    passes-All (m ∷ ms) f g p (hm, h) room =
        let one = passes f g m p hm (omega arith) in
        let (bytes, f', g', written, read, peers) =
          passes-All ms one.f' one.g' one.peers h (omega (arith, one.counted)) in
        (
          one.bytes ++ bytes,
          f',
          g',
          λ out. bind_ok _ _ (one.written out) (written (out ++ one.bytes) ∙ rw append_assoc),
          λ rest broken.
              rw append_assoc (message (one.read (bytes ++ rest) broken) (read rest broken)),
          peers,
        )

    -- Messages that fit, and that the counter has room for, are all sent by one end of a connection,
    -- and the other end reads exactly these messages in this order, whether the connection is
    -- plain or encrypted. Afterwards the two ends still fit together.
    pub write_messages-Reads :
        (ms : List Message) (f g : Framing aead)
        → Peers f g
        → All IsSealable ms
        → sent_counter f + length ms < 2 ^ 64
        → (bytes : Bytes) × (f' : Framing aead) × (g' : Framing aead) × (write_messages ms
              (empty_sink [], f)
            ≡ (ok tt, (empty_sink bytes, f')))
          × Reads (stream bytes false, g) ms (stream [] false, g')
          × Peers f' g'
    write_messages-Reads ms f g p h room =
        let (bytes, f', g', written, read, peers) = passes-All ms f g p h room in
        (bytes, f', g', written [], rw append-nil at (read [] false), peers)
