-- ===== src/Framing/Halves.antt =====
-- The halves of a connection that is split do what the whole connection does.
use bcmr.Prelude.{◌≡◌, refl, arith}
use bcmr.Bytes.Word.{Bytes}
use bcmr.Errors.{Result, ok, err}
use bcmr.Protocol.Message.{Message}
use bcmr.Protocol.Stream.{Stream, Sink}
use bcmr.Aead.Cipher.{Aead}
use bcmr.Aead.{Direction}
use bcmr.Framing.{Framing, SendHalf, RecvHalf, plain, sealed, plain_send, sealed_send, plain_recv}
use bcmr.Framing.{sealed_recv, aead_from_key, aead_halves, read_message, write_message, send}
use bcmr.Framing.{receive}

module _ (aead : Aead) where
  abbrev pub send_half : Framing aead → SendHalf aead
  send_half plain = plain_send
  send_half (sealed st) = sealed_send st.key st.send_dir st.send_counter

  abbrev pub recv_half : Framing aead → RecvHalf aead
  recv_half plain = plain_recv
  recv_half (sealed st) = sealed_recv st.key st.recv_dir st.recv_counter

  abbrev pub halves : Result (Framing aead) → Result (SendHalf aead × RecvHalf aead)
  halves (ok f) = ok (send_half f, recv_half f)
  halves (err e) = err e

  -- Two halves made from a key are the halves of the connection made from it. Sending on the one
  -- half has the result and the effect of writing on the connection, and does not touch the other
  -- half; and so with receiving.
  pub halves-agree :
      (f : Framing aead) (msg : Message) (out : Sink) (inp : Stream) (key : Bytes) (d e : Direction)
      → (aead_halves aead key d e ≡ halves (aead_from_key aead key d e))
        × (let (r, sf) = write_message aead msg (out, f) in
            (send aead msg (out, send_half f) ≡ (r, (sf.0, send_half sf.1)))
            × (recv_half sf.1 ≡ recv_half f))
        × (let (r, sf) = read_message aead (inp, f) in
            (receive aead (inp, recv_half f) ≡ (r, (sf.0, recv_half sf.1)))
            × (send_half sf.1 ≡ send_half f))
  unfolding aead_halves aead_from_key write_message read_message send receive
  halves-agree plain msg out inp key d e = (ground arith, (refl, refl), (refl, refl))
  halves-agree (sealed st) msg out inp key d e = (ground arith, (refl, refl), (refl, refl))
