-- ===== src/Framing.antt =====
-- src/core/framing.rs: a connection reads and writes messages plain or encrypted.
pub mod Halves
pub mod Peers
use bcmr.Prelude.{ℕ, Option}
use bcmr.Bytes.Word.{Bytes}
use bcmr.Errors.{Result, ok, err, Exec}
use bcmr.Protocol.Message.{Message}
use bcmr.Protocol.Stream
use bcmr.Protocol.Stream.{Stream, Sink}
use bcmr.Aead.Cipher.{Aead}
use bcmr.Aead.{Direction, key_from_bytes, read_encrypted_message, write_encrypted_message}

module _ (aead : Aead) where
  pub record AeadState : Type 0 where
    pub key : aead.Key
    pub send_dir : Direction
    pub recv_dir : Direction
    pub send_counter : ℕ
    pub recv_counter : ℕ

  pub data Framing : Type 0 where
    plain : Framing
    sealed : AeadState → Framing

  pub data SendHalf : Type 0 where
    plain_send : SendHalf
    sealed_send : (key : aead.Key) (dir : Direction) (counter : ℕ) → SendHalf

  pub data RecvHalf : Type 0 where
    plain_recv : RecvHalf
    sealed_recv : (key : aead.Key) (dir : Direction) (counter : ℕ) → RecvHalf

  unfoldable pub aead_from_key : Bytes → Direction → Direction → Result Framing
  aead_from_key key_bytes send_dir recv_dir = elim (key_from_bytes aead key_bytes) [
    | ok key ↦ ok (
        sealed (record {
          key = key;
          send_dir = send_dir;
          recv_dir = recv_dir;
          send_counter = 0;
          recv_counter = 0;
        }))
    | err e ↦ err e
  ]

  unfoldable pub read_message : Exec (Stream × Framing) (Option Message)
  read_message (s, plain) = let (r, s') = Stream.read_message s in (r, (s', plain))
  read_message (s, sealed st) =
      let (r, sc) = read_encrypted_message aead st.key st.recv_dir (s, st.recv_counter) in
      (r, (sc.0, sealed (record st { recv_counter = sc.1 })))

  unfoldable pub write_message : Message → Exec (Sink × Framing) (Unit {0})
  write_message msg (s, plain) = let (r, s') = Stream.write_message msg s in (r, (s', plain))
  write_message msg (s, sealed st) =
      let (r, sc) = write_encrypted_message aead msg st.key st.send_dir (s, st.send_counter) in
      (r, (sc.0, sealed (record st { send_counter = sc.1 })))

  unfoldable pub aead_halves : Bytes → Direction → Direction → Result (SendHalf × RecvHalf)
  aead_halves key_bytes send_dir recv_dir = elim (key_from_bytes aead key_bytes) [
    | ok key ↦ ok (sealed_send key send_dir 0, sealed_recv key recv_dir 0)
    | err e ↦ err e
  ]

  unfoldable pub send : Message → Exec (Sink × SendHalf) (Unit {0})
  send msg (s, plain_send) = let (r, s') = Stream.write_message msg s in (r, (s', plain_send))
  send msg (s, sealed_send key dir counter) =
      let (r, sc) = write_encrypted_message aead msg key dir (s, counter) in
      (r, (sc.0, sealed_send key dir sc.1))

  unfoldable pub receive : Exec (Stream × RecvHalf) (Option Message)
  receive (s, plain_recv) = let (r, s') = Stream.read_message s in (r, (s', plain_recv))
  receive (s, sealed_recv key dir counter) =
      let (r, sc) = read_encrypted_message aead key dir (s, counter) in
      (r, (sc.0, sealed_recv key dir sc.1))
