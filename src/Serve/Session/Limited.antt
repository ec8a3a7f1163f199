-- ===== src/Serve/Session/Limited.antt =====
-- A session never has more rendezvous tasks than the limit.
use bcmr.Prelude.{ℕ, ◌≡◌, ◌≤◌, ◌<◌, refl, arith, Bool, true, false, leb, leb→lt, not}
use bcmr.Prelude.{Option, none, some, List, [], ◌∷◌, if◌then◌else◌}
use bcmr.Bytes.Word.{Bytes}
use bcmr.Errors.{BcmrError, Result, ok, err, invalid_input, continue, pure, raise, ◌>>=◌, ◌>>◌}
use bcmr.Errors.Preserves.{Preserves}
use bcmr.Paths.{Component}
use bcmr.Protocol.Message.{Message}
use bcmr.Serve.Jail.{Disk}
use bcmr.Serve.Session.{Conn, Handlers, write_message, next_message, read_message, push_task}
use bcmr.Serve.Session.{opened_channel, open_channel, session_loop, max_rendezvous_per_session}
use bcmr.Serve.Session.{Handler, handled, written, handle_get}
use bcmr.Serve.Splice.{splices}
use bcmr.Compress.{CompressionAlgo}
use bcmr.Serve.Session.Keeps.{session_loop-Preserves}

-- There are at most `n` tasks.
abbrev pub AtMost : {W : Type 0} → ℕ → Conn W → Type 0
AtMost n c = c.tasks ≤ n

module _ {W : Type 0} (disk : Disk) (root : List Component) (explain : BcmrError → Bytes)
    (handlers : Handlers W) where
  abbrev limit : ℕ
  limit = max_rendezvous_per_session

  handled-AtMost :
      (n : ℕ) (A : Type 0) (h : Handler W A)
      → Preserves (AtMost n) (handled disk root explain handlers h)
  unfolding handled written
  handled-AtMost n A h = record { at = λ c k. k }

  handle_get-AtMost :
      (n : ℕ) (p : List Component) (offset : ℕ) (algo : CompressionAlgo) (fast allow_splice : Bool)
      → Preserves (AtMost n) (handle_get disk root explain handlers p offset algo fast allow_splice)
  unfolding handle_get written handled
  handle_get-AtMost n p offset algo fast allow_splice = record {
    at = λ c k. either (splices fast algo allow_splice c.sealed) _ _ k k;
  }
    where
      either :
          (b : Bool) (r q : Result (Unit {0}) × Conn W)
          → AtMost n r.1
          → AtMost n q.1
          → AtMost n (if b then r else q).1
      either true r q h h' = h
      either false r q h h' = h'

  read_message-AtMost : Preserves (AtMost limit) (read_message disk root explain handlers)
  unfolding read_message next_message
  read_message-AtMost = record { at = λ c h. next c.ended c.incoming c h }
    where
      next :
          (ended : Option BcmrError) (msgs : List Message) (c : Conn W)
          → AtMost limit c
          → AtMost limit (next_message disk root explain handlers ended msgs c).1
      next none [] c h = h
      next (some e) [] c h = h
      next none (msg ∷ msgs) c h = h
      next (some e) (msg ∷ msgs) c h = h

  -- With fewer tasks than the limit, one more is within it.
  opened_channel-AtMost :
      (c : Conn W) → c.tasks < limit → AtMost limit (opened_channel disk root explain handlers c).1
  unfolding opened_channel push_task ◌>>=◌
  opened_channel-AtMost c below =
      go (handled disk root explain handlers handlers.open_direct_channel c)
        ((handled-AtMost c.tasks _ handlers.open_direct_channel).at c (omega arith))
    where
      go :
          (r : Result Message × Conn W)
          → AtMost c.tasks r.1
          → AtMost limit
              (continue r.0 (λ msg. push_task disk root explain handlers >> pure msg) r.1).1
      go (ok msg, d) h = omega (arith, h, below)
      go (err e, d) h = omega (arith, h, below)

  open_channel-AtMost :
      (b : Bool) → Preserves (AtMost limit) (open_channel disk root explain handlers b)
  unfolding open_channel
  open_channel-AtMost b = record { at = λ c h. go c h b (leb limit c.tasks) refl }
    where
      go :
          (c : Conn W)
          → AtMost limit c
          → (b full : Bool) → leb limit c.tasks ≡ full
          → AtMost limit
              ((if not b
                  then raise invalid_input
                  else if full
                  then raise invalid_input
                  else opened_channel disk root explain handlers)
                c).1
      go c h false full e = h
      go c h true true e = h
      go c h true false e = opened_channel-AtMost c (leb→lt _ _ e)

  -- The loop keeps the number of rendezvous tasks within the limit, however many channels the client
  -- asks for and whatever the handlers do.
  pub session_loop-AtMost :
      (fuel caps : ℕ) (allow_splice : Bool) (c : Conn W)
      → c.tasks ≤ max_rendezvous_per_session
      → (session_loop disk root explain handlers fuel caps allow_splice c).1.tasks
        ≤ max_rendezvous_per_session
  unfolding write_message
  session_loop-AtMost fuel caps allow_splice c h =
      (session_loop-Preserves disk root explain handlers (AtMost limit) (handled-AtMost limit)
          (handle_get-AtMost limit) (λ msg. record { at = λ d k. k }) read_message-AtMost
          open_channel-AtMost fuel caps allow_splice).at
        c h
