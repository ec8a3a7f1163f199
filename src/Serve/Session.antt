-- ===== src/Serve/Session.antt =====
-- `run_session` of src/commands/serve/session.rs: the handshake and the loop that answers a
-- client's requests. The handlers are an interface here, which Served fills, and
-- the connection a list of messages, each with whether it was sealed; a write succeeds. The text of
-- an error is a parameter.
pub mod Keeps
pub mod Sealed
pub mod Drained
pub mod Limited
pub mod Served
use bcmr.Prelude.{ℕ, zero, suc, ◌+◌, ◌-◌, ◌==◌, leb, if◌then◌else◌, not, Bool, true, false, ◌&&◌}
use bcmr.Prelude.{Option, none, some, List, [], ◌∷◌, ◌++◌, drop}
use bcmr.Bytes.Word.{Bytes}
use bcmr.Errors.{
  BcmrError, Result, ok, err, invalid_input, crypto_failure, Exec, pure, raise, ◌>>=◌, ◌>>◌,
}
use bcmr.Paths.{Component}
use bcmr.Protocol.Message
use bcmr.Protocol.Message.{Message, protocol_version, hello, welcome, error}
use bcmr.Compress.{CompressionAlgo, negotiate, has_cap}
use bcmr.Serve.Put.{lift}
use bcmr.Serve.Caps.{
  bit_and, without_cap, server_caps, cap_fast, cap_sync, cap_direct_tcp, cap_aead,
}
use bcmr.Serve.Splice.{splices}
use bcmr.Serve.Jail.{Disk, validate_path}

-- `incoming` are the messages that were not read yet, with what comes behind them; `tasks` counts
-- the rendezvous tasks.
pub record Conn (W : Type 0) : Type 0 where
  pub world : W
  pub incoming : List Message
  pub ended : Option BcmrError
  pub sealed : Bool
  pub sent : List (Bool × Message)
  pub tasks : ℕ

abbrev pub max_rendezvous_per_session : ℕ
max_rendezvous_per_session = 16

-- What a handler has done when it returns: how many of the incoming messages it has taken, and
-- what it has sent.
pub record Outcome (W : Type 0) : Type 0 where
  pub world : W
  pub taken : ℕ
  pub replies : List Message

-- A handler, with the incoming messages and what comes behind them.
abbrev pub Handler : Type 0 → Type 0 → Type 0
Handler W A = List Message → Option BcmrError → W → Result A × Outcome W

-- The handlers, for a path that was validated. Those of `get` send their messages themselves;
-- `get_spliced` is `handle_get_splice_linux`, which sends past the framing, and `get` the rest of
-- `handle_get`.
pub record Handlers (W : Type 0) : Type 0 where
  pub stat : List Component → Handler W Message
  pub list : List Component → Handler W Message
  pub hash : List Component → (offset : ℕ) (limit : Option ℕ) → Handler W Message
  pub put : List Component → (size offset : ℕ) (sync : Bool) → Handler W Message
  pub put_chunked : List Component → (offset size : ℕ) (sync : Bool) → Handler W Message
  pub mkdir : List Component → Handler W Message
  pub truncate : List Component → (size : ℕ) → Handler W Message
  pub resume : List Component → Handler W Message
  pub get : List Component → (offset : ℕ) → CompressionAlgo → (fast : Bool) → Handler W (Unit {0})
  pub get_spliced : List Component → (offset : ℕ) → Handler W (Unit {0})
  pub get_chunked : List Component → (offset size : ℕ) → CompressionAlgo → Handler W (Unit {0})
  pub open_direct_channel : Handler W Message

-- The messages of a handler, sealed or not.
unfoldable pub stamped : Bool → List Message → List (Bool × Message)
stamped sealed [] = []
stamped sealed (msg ∷ msgs) = (sealed, msg) ∷ stamped sealed msgs

unfoldable pub is_some_key : Option Bytes → Bool
is_some_key none = false
is_some_key (some key) = true

unfoldable pub offered : (allow_direct_tcp : Bool) (key : Option Bytes) → ℕ
offered allow_direct_tcp key =
    let direct = if allow_direct_tcp then server_caps else without_cap server_caps cap_direct_tcp in
    if is_some_key key then direct else without_cap direct cap_aead

module _ {W : Type 0} (disk : Disk) (root : List Component) (explain : BcmrError → Bytes)
    (handlers : Handlers W) where
  unfoldable pub write_message : Message → Exec (Conn W) (Unit {0})
  write_message msg c = (ok tt, record c { sent = c.sent ++ ((c.sealed, msg) ∷ []) })

  unfoldable pub next_message : Option BcmrError → List Message → Exec (Conn W) (Option Message)
  next_message none [] c = (ok none, c)
  next_message (some e) [] c = (err e, c)
  next_message ended (msg ∷ msgs) c = (ok (some msg), record c { incoming = msgs })

  unfoldable pub read_message : Exec (Conn W) (Option Message)
  read_message c = next_message c.ended c.incoming c

  -- The result as a value.
  unfoldable pub attempt : {A : Type 0} → Exec (Conn W) A → Exec (Conn W) (Result A)
  attempt m c = let (r, c') = m c in (ok r, c')

  unfoldable pub with_path :
      {A : Type 0} → Bytes → (List Component → Exec (Conn W) A) → Exec (Conn W) A
  with_path raw handler = do p ← lift (validate_path disk raw root); handler p

  -- A handler is run, and what it sends is sealed or not.
  unfoldable pub written : {A : Type 0} → (sealed : Bool) → Handler W A → Exec (Conn W) A
  written sealed handler c =
      let (r, done) = handler c.incoming c.ended c.world in
      (
        r,
        record c {
          world = done.world;
          incoming = drop done.taken c.incoming;
          sent = c.sent ++ stamped sealed done.replies;
        },
      )

  -- What a handler sends through the framing is sealed as the connection is.
  unfoldable pub handled : {A : Type 0} → Handler W A → Exec (Conn W) A
  handled handler c = written c.sealed handler c

  unfoldable pub handle_get :
      List Component
      → (offset : ℕ) → CompressionAlgo
      → (fast allow_splice : Bool) → Exec (Conn W) (Unit {0})
  handle_get p offset algo fast allow_splice c =
      if splices fast algo allow_splice c.sealed
      then written false (handlers.get_spliced p offset) c
      else handled (handlers.get p offset algo fast) c

  unfoldable pub push_task : Exec (Conn W) (Unit {0})
  push_task c = (ok tt, record c { tasks = c.tasks + 1 })

  unfoldable pub opened_channel : Exec (Conn W) Message
  opened_channel = do msg ← handled handlers.open_direct_channel; push_task; pure msg

  unfoldable pub open_channel : (direct_tcp : Bool) → Exec (Conn W) Message
  open_channel direct_tcp c =
      (if not direct_tcp
          then raise invalid_input
          else if leb max_rendezvous_per_session c.tasks
          then raise invalid_input
          else opened_channel)
        c

  -- The match of the loop, but for the two requests that are answered by many messages.
  unfoldable pub respond : (sync direct_tcp : Bool) → Message → Exec (Conn W) Message
  respond sync direct_tcp (Message.stat path) = with_path path (λ p. handled (handlers.stat p))
  respond sync direct_tcp (Message.list path) = with_path path (λ p. handled (handlers.list p))
  respond sync direct_tcp (Message.hash path offset limit) =
      with_path path (λ p. handled (handlers.hash p offset limit))
  respond sync direct_tcp (Message.put path size offset) =
      with_path path (λ p. handled (handlers.put p size offset sync))
  respond sync direct_tcp (Message.put_chunked path offset size) =
      with_path path (λ p. handled (handlers.put_chunked p offset size sync))
  respond sync direct_tcp (Message.mkdir path) = with_path path (λ p. handled (handlers.mkdir p))
  respond sync direct_tcp (Message.truncate path size) =
      with_path path (λ p. handled (handlers.truncate p size))
  respond sync direct_tcp (Message.resume path) = with_path path (λ p. handled (handlers.resume p))
  respond sync direct_tcp Message.open_direct_channel = open_channel direct_tcp
  respond sync direct_tcp _ = raise invalid_input

  unfoldable pub reply_of : Result Message → Message
  reply_of (ok msg) = msg
  reply_of (err e) = error (explain e)

  unfoldable pub report : Result (Unit {0}) → Exec (Conn W) (Unit {0})
  report (ok done) = pure tt
  report (err e) = write_message (error (explain e))

  unfoldable pub streamed : Exec (Conn W) (Unit {0}) → Exec (Conn W) (Unit {0})
  streamed m = do r ← attempt m; report r

  unfoldable pub dispatch : (caps : ℕ) (allow_splice : Bool) → Message → Exec (Conn W) (Unit {0})
  dispatch caps allow_splice (Message.get path offset) = streamed (
      with_path path
        (λ p. handle_get p offset (negotiate caps caps) (has_cap caps cap_fast) allow_splice))
  dispatch caps allow_splice (Message.get_chunked path offset size) =
      streamed
        (with_path path (λ p. handled (handlers.get_chunked p offset size (negotiate caps caps))))
  dispatch caps allow_splice msg = do
    r ← attempt (respond (has_cap caps cap_sync) (has_cap caps cap_direct_tcp) msg)
    write_message (reply_of r)

  unfoldable pub after_read :
      (later : Exec (Conn W) (Unit {0}))
      → (caps : ℕ) (allow_splice : Bool) → Option Message
      → Exec (Conn W) (Unit {0})
  after_read later caps allow_splice none = pure tt
  after_read later caps allow_splice (some msg) = do dispatch caps allow_splice msg; later

  -- Each round reads a message.
  unfoldable pub session_loop :
      (fuel : ℕ) (caps : ℕ) (allow_splice : Bool) → Exec (Conn W) (Unit {0})
  session_loop zero caps allow_splice = pure tt
  session_loop (suc fuel) caps allow_splice = do
    msg ← read_message
    after_read (session_loop fuel caps allow_splice) caps allow_splice msg

  -- `Framing::aead_from_key`; without a key the source panics.
  unfoldable pub seal : (aead : Bool) (key : Option Bytes) → Exec (Conn W) (Unit {0})
  seal false key = pure tt
  seal true none = raise crypto_failure
  seal true (some key) = λ c. (ok tt, record c { sealed = true })

  unfoldable pub negotiated :
      (fuel : ℕ) (allow_splice : Bool) (key : Option Bytes) (caps : ℕ) → Exec (Conn W) (Unit {0})
  negotiated fuel allow_splice key caps =
      if is_some_key key && not (has_cap caps cap_aead)
      then write_message (error (explain crypto_failure))
      else (do
        write_message (welcome protocol_version caps)
        seal (has_cap caps cap_aead) key
        session_loop fuel caps allow_splice)

  unfoldable pub greet :
      (fuel : ℕ) (allow_splice allow_direct_tcp : Bool) (key : Option Bytes)
      → Option Message
      → Exec (Conn W) (Unit {0})
  greet fuel allow_splice allow_direct_tcp key none = pure tt
  greet fuel allow_splice allow_direct_tcp key (some (hello version caps)) =
      if not (version == protocol_version)
      then write_message (error (explain invalid_input))
      else negotiated fuel allow_splice key (bit_and 8 (offered allow_direct_tcp key) caps)
  greet fuel allow_splice allow_direct_tcp key (some _) =
      write_message (error (explain invalid_input))

  unfoldable pub run_session :
      (fuel : ℕ) (allow_splice allow_direct_tcp : Bool) (key : Option Bytes)
      → Exec (Conn W) (Unit {0})
  run_session fuel allow_splice allow_direct_tcp key = do
    first ← read_message
    greet fuel allow_splice allow_direct_tcp key first
