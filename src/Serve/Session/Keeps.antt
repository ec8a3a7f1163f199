-- ===== src/Serve/Session/Keeps.antt =====
-- Properties of the connection that the loop keeps, whatever it returns.
use bcmr.Prelude.{ℕ, zero, suc, refl, Bool, Option, none, some, List}
use bcmr.Bytes.Word.{Bytes}
use bcmr.Errors.{BcmrError, Result, ok, err, Exec, ◌>>=◌}
use bcmr.Errors.Preserves.{Preserves, Preserves-same, Preserves-bind}
use bcmr.Paths.{Component}
use bcmr.Protocol.Message.{Message}
use bcmr.Compress.{CompressionAlgo, has_cap}
use bcmr.Serve.Put.{lift}
use bcmr.Serve.Caps.{cap_sync, cap_direct_tcp}
use bcmr.Serve.Jail.{Disk}
use bcmr.Serve.Session.{
  Conn, Handler, Handlers, handled, handle_get, write_message, read_message, attempt, with_path,
  open_channel,
}
use bcmr.Serve.Session.{respond, reply_of, report, streamed, dispatch, after_read, session_loop}

module _ {W : Type 0} (disk : Disk) (root : List Component) (explain : BcmrError → Bytes)
    (handlers : Handlers W) (P : Conn W → Type 0)
    (passes : (A : Type 0) (h : Handler W A) → Preserves P (handled disk root explain handlers h))
    (gets : (p : List Component) (offset : ℕ) (algo : CompressionAlgo) (fast allow_splice : Bool)
      → Preserves P (handle_get disk root explain handlers p offset algo fast allow_splice))
    (writes : (msg : Message) → Preserves P (write_message disk root explain handlers msg))
    (reads : Preserves P (read_message disk root explain handlers))
    (opens : (b : Bool) → Preserves P (open_channel disk root explain handlers b)) where
  attempt-Preserves :
      {A : Type 0} (m : Exec (Conn W) A)
      → Preserves P m
      → Preserves P (attempt disk root explain handlers m)
  unfolding attempt
  attempt-Preserves m k = record { at = λ c h. k.at c h }

  with_path-Preserves :
      {A : Type 0} (raw : Bytes) (handler : List Component → Exec (Conn W) A)
      → ((p : List Component) → Preserves P (handler p))
      → Preserves P (with_path disk root explain handlers raw handler)
  unfolding with_path lift
  with_path-Preserves raw handler k = Preserves-bind P _ _ (Preserves-same P _ (λ c. refl)) k

  respond-Preserves :
      (sync direct_tcp : Bool) (msg : Message)
      → Preserves P (respond disk root explain handlers sync direct_tcp msg)
  unfolding respond
  respond-Preserves sync direct_tcp (Message.hello version caps) = Preserves-same P _ (λ c. refl)
  respond-Preserves sync direct_tcp (Message.list path) =
      with_path-Preserves path _ (λ p. passes _ (handlers.list p))
  respond-Preserves sync direct_tcp (Message.stat path) =
      with_path-Preserves path _ (λ p. passes _ (handlers.stat p))
  respond-Preserves sync direct_tcp (Message.hash path offset limit) =
      with_path-Preserves path _ (λ p. passes _ (handlers.hash p offset limit))
  respond-Preserves sync direct_tcp (Message.get path offset) = Preserves-same P _ (λ c. refl)
  respond-Preserves sync direct_tcp (Message.put path size offset) =
      with_path-Preserves path _ (λ p. passes _ (handlers.put p size offset sync))
  respond-Preserves sync direct_tcp (Message.mkdir path) =
      with_path-Preserves path _ (λ p. passes _ (handlers.mkdir p))
  respond-Preserves sync direct_tcp (Message.resume path) =
      with_path-Preserves path _ (λ p. passes _ (handlers.resume p))
  respond-Preserves sync direct_tcp Message.done = Preserves-same P _ (λ c. refl)
  respond-Preserves sync direct_tcp Message.open_direct_channel = opens direct_tcp
  respond-Preserves sync direct_tcp (Message.auth_hello mac) = Preserves-same P _ (λ c. refl)
  respond-Preserves sync direct_tcp (Message.put_chunked path offset size) =
      with_path-Preserves path _ (λ p. passes _ (handlers.put_chunked p offset size sync))
  respond-Preserves sync direct_tcp (Message.get_chunked path offset size) =
      Preserves-same P _ (λ c. refl)
  respond-Preserves sync direct_tcp (Message.truncate path size) =
      with_path-Preserves path _ (λ p. passes _ (handlers.truncate p size))
  respond-Preserves sync direct_tcp (Message.welcome version caps) = Preserves-same P _ (λ c. refl)
  respond-Preserves sync direct_tcp (Message.ok hash) = Preserves-same P _ (λ c. refl)
  respond-Preserves sync direct_tcp (Message.error text) = Preserves-same P _ (λ c. refl)
  respond-Preserves sync direct_tcp (Message.data_plain payload) = Preserves-same P _ (λ c. refl)
  respond-Preserves sync direct_tcp (Message.data_compressed algo size payload) =
      Preserves-same P _ (λ c. refl)
  respond-Preserves sync direct_tcp (Message.have_blocks size hashes) =
      Preserves-same P _ (λ c. refl)
  respond-Preserves sync direct_tcp (Message.missing_blocks bits) = Preserves-same P _ (λ c. refl)
  respond-Preserves sync direct_tcp (Message.stat_response size mtime is_dir) =
      Preserves-same P _ (λ c. refl)
  respond-Preserves sync direct_tcp (Message.hash_response hash) = Preserves-same P _ (λ c. refl)
  respond-Preserves sync direct_tcp (Message.list_response entries) = Preserves-same P _ (λ c. refl)
  respond-Preserves sync direct_tcp (Message.resume_response size hash) =
      Preserves-same P _ (λ c. refl)
  respond-Preserves sync direct_tcp (Message.direct_channel_ready addr key) =
      Preserves-same P _ (λ c. refl)
  respond-Preserves sync direct_tcp (Message.auth_challenge nonce) = Preserves-same P _ (λ c. refl)

  report-Preserves : (r : Result (Unit {0})) → Preserves P (report disk root explain handlers r)
  unfolding report
  report-Preserves (ok done) = Preserves-same P _ (λ c. refl)
  report-Preserves (err e) = writes _

  streamed-Preserves :
      (m : Exec (Conn W) (Unit {0}))
      → Preserves P m
      → Preserves P (streamed disk root explain handlers m)
  unfolding streamed
  streamed-Preserves m k = Preserves-bind P _ _ (attempt-Preserves m k) report-Preserves

  answered :
      (caps : ℕ) (msg : Message)
      → Preserves P (do
        r ← attempt disk root explain handlers (
            respond disk root explain handlers
              (has_cap caps cap_sync)
              (has_cap caps cap_direct_tcp)
              msg)
        write_message disk root explain handlers (reply_of disk root explain handlers r))
  answered caps msg =
      Preserves-bind P _ _ (attempt-Preserves _ (respond-Preserves _ _ msg)) (λ r. writes _)

  pub dispatch-Preserves :
      (caps : ℕ) (allow_splice : Bool) (msg : Message)
      → Preserves P (dispatch disk root explain handlers caps allow_splice msg)
  unfolding dispatch
  dispatch-Preserves caps allow_splice (Message.get path offset) =
      streamed-Preserves _ (with_path-Preserves path _ (λ p. gets p offset _ _ allow_splice))
  dispatch-Preserves caps allow_splice (Message.get_chunked path offset size) =
      streamed-Preserves _
        (with_path-Preserves path _ (λ p. passes _ (handlers.get_chunked p offset size _)))
  dispatch-Preserves caps allow_splice (Message.hello version theirs) =
      answered caps (Message.hello version theirs)
  dispatch-Preserves caps allow_splice (Message.list path) = answered caps (Message.list path)
  dispatch-Preserves caps allow_splice (Message.stat path) = answered caps (Message.stat path)
  dispatch-Preserves caps allow_splice (Message.hash path offset limit) =
      answered caps (Message.hash path offset limit)
  dispatch-Preserves caps allow_splice (Message.put path size offset) =
      answered caps (Message.put path size offset)
  dispatch-Preserves caps allow_splice (Message.mkdir path) = answered caps (Message.mkdir path)
  dispatch-Preserves caps allow_splice (Message.resume path) = answered caps (Message.resume path)
  dispatch-Preserves caps allow_splice Message.done = answered caps Message.done
  dispatch-Preserves caps allow_splice Message.open_direct_channel =
      answered caps Message.open_direct_channel
  dispatch-Preserves caps allow_splice (Message.auth_hello mac) =
      answered caps (Message.auth_hello mac)
  dispatch-Preserves caps allow_splice (Message.put_chunked path offset size) =
      answered caps (Message.put_chunked path offset size)
  dispatch-Preserves caps allow_splice (Message.truncate path size) =
      answered caps (Message.truncate path size)
  dispatch-Preserves caps allow_splice (Message.welcome version theirs) =
      answered caps (Message.welcome version theirs)
  dispatch-Preserves caps allow_splice (Message.ok hash) = answered caps (Message.ok hash)
  dispatch-Preserves caps allow_splice (Message.error text) = answered caps (Message.error text)
  dispatch-Preserves caps allow_splice (Message.data_plain payload) =
      answered caps (Message.data_plain payload)
  dispatch-Preserves caps allow_splice (Message.data_compressed algo size payload) =
      answered caps (Message.data_compressed algo size payload)
  dispatch-Preserves caps allow_splice (Message.have_blocks size hashes) =
      answered caps (Message.have_blocks size hashes)
  dispatch-Preserves caps allow_splice (Message.missing_blocks bits) =
      answered caps (Message.missing_blocks bits)
  dispatch-Preserves caps allow_splice (Message.stat_response size mtime is_dir) =
      answered caps (Message.stat_response size mtime is_dir)
  dispatch-Preserves caps allow_splice (Message.hash_response hash) =
      answered caps (Message.hash_response hash)
  dispatch-Preserves caps allow_splice (Message.list_response entries) =
      answered caps (Message.list_response entries)
  dispatch-Preserves caps allow_splice (Message.resume_response size hash) =
      answered caps (Message.resume_response size hash)
  dispatch-Preserves caps allow_splice (Message.direct_channel_ready addr key) =
      answered caps (Message.direct_channel_ready addr key)
  dispatch-Preserves caps allow_splice (Message.auth_challenge nonce) =
      answered caps (Message.auth_challenge nonce)

  after_read-Preserves :
      (later : Exec (Conn W) (Unit {0})) (caps : ℕ) (allow_splice : Bool) (msg : Option Message)
      → Preserves P later
      → Preserves P (after_read disk root explain handlers later caps allow_splice msg)
  unfolding after_read
  after_read-Preserves later caps allow_splice none k = Preserves-same P _ (λ c. refl)
  after_read-Preserves later caps allow_splice (some msg) k =
      Preserves-bind P _ _ (dispatch-Preserves caps allow_splice msg) (λ _. k)

  pub session_loop-Preserves :
      (fuel caps : ℕ) (allow_splice : Bool)
      → Preserves P (session_loop disk root explain handlers fuel caps allow_splice)
  unfolding session_loop
  session_loop-Preserves zero caps allow_splice = Preserves-same P _ (λ c. refl)
  session_loop-Preserves (suc fuel) caps allow_splice = Preserves-bind P _ _ reads (λ msg.
      after_read-Preserves _ caps allow_splice msg (session_loop-Preserves fuel caps allow_splice))
