-- ===== src/Serve/Session/Drained.antt =====
-- The loop of a session ends: the fuel that is one more than the messages is enough.
use bcmr.Prelude.{ℕ, zero, suc, ◌+◌, ◌-◌, ◌≡◌, ◌≤◌, ◌<◌, refl, sym, ap, ◌∙◌, arith, Bool, leb, not}
use bcmr.Prelude.{Option, none, some, List, [], ◌∷◌, length}
use bcmr.Bytes.Word.{Bytes}
use bcmr.Errors.{BcmrError, Result, ok, err, Exec, continue, ◌>>=◌}
use bcmr.Errors.Preserves.{Preserves, Preserves-same, Preserves-bind, Preserves-if}
use bcmr.Paths.{Component}
use bcmr.Protocol.Message.{Message}
use bcmr.Serve.Jail.{Disk}
use bcmr.Serve.Session.{Conn, Handlers, write_message, next_message, read_message, push_task}
use bcmr.Serve.Session.{opened_channel, open_channel, dispatch, after_read, session_loop}
use bcmr.Serve.Session.{max_rendezvous_per_session}
use bcmr.Serve.Session.{Handler, handled, written, handle_get}
use bcmr.Serve.Splice.{splices}
use bcmr.Compress.{CompressionAlgo}
use bcmr.Prelude.{length-drop, true, false, if◌then◌else◌}
use bcmr.Serve.Session.Keeps.{dispatch-Preserves}

-- At most `n` messages are left.
abbrev pub Left : {W : Type 0} → ℕ → Conn W → Type 0
Left n c = length c.incoming ≤ n

module _ {W : Type 0} (disk : Disk) (root : List Component) (explain : BcmrError → Bytes)
    (handlers : Handlers W) where
  handled-Left :
      (n : ℕ) (A : Type 0) (h : Handler W A)
      → Preserves (Left n) (handled disk root explain handlers h)
  unfolding handled written
  handled-Left n A h = record {
    at = λ c k. omega (arith, k, length-drop (h c.incoming c.ended c.world).1.taken c.incoming);
  }

  handle_get-Left :
      (n : ℕ) (p : List Component) (offset : ℕ) (algo : CompressionAlgo) (fast allow_splice : Bool)
      → Preserves (Left n) (handle_get disk root explain handlers p offset algo fast allow_splice)
  unfolding handle_get written handled
  handle_get-Left n p offset algo fast allow_splice = record {
    at = λ c k.
        either (splices fast algo allow_splice c.sealed) _ _
          (omega (
            arith,
            k,
            length-drop (handlers.get_spliced p offset c.incoming c.ended c.world).1.taken
                c.incoming,
          ))
          (omega (
            arith,
            k,
            length-drop (handlers.get p offset algo fast c.incoming c.ended c.world).1.taken
                c.incoming,
          ));
  }
    where
      either :
          (b : Bool) (r q : Result (Unit {0}) × Conn W)
          → Left n r.1
          → Left n q.1
          → Left n (if b then r else q).1
      either true r q h h' = h
      either false r q h h' = h'

  write_message-Left :
      (n : ℕ) (msg : Message) → Preserves (Left n) (write_message disk root explain handlers msg)
  unfolding write_message
  write_message-Left n msg = record { at = λ c h. h }

  read_message-Left : (n : ℕ) → Preserves (Left n) (read_message disk root explain handlers)
  unfolding read_message next_message
  read_message-Left n = record { at = λ c h. next c.ended c.incoming c h h }
    where
      next :
          (ended : Option BcmrError) (msgs : List Message) (c : Conn W)
          → length msgs ≤ n
          → Left n c
          → Left n (next_message disk root explain handlers ended msgs c).1
      next none [] c h k = k
      next (some e) [] c h k = k
      next none (msg ∷ msgs) c h k = omega (arith, h)
      next (some e) (msg ∷ msgs) c h k = omega (arith, h)

  open_channel-Left :
      (n : ℕ) (b : Bool) → Preserves (Left n) (open_channel disk root explain handlers b)
  unfolding open_channel opened_channel push_task
  open_channel-Left n b = record {
    at = λ c h.
        (Preserves-if (Left n) (not b) _ _ (Preserves-same (Left n) _ (λ d. refl)) (
            Preserves-if (Left n) (leb max_rendezvous_per_session c.tasks) _ _
              (Preserves-same (Left n) _ (λ d. refl))
              (Preserves-bind (Left n) _ _ (handled-Left n _ handlers.open_direct_channel) (λ msg.
                Preserves-bind (Left n) _ _ (record { at = λ d k. k })
                  (λ _. Preserves-same (Left n) _ (λ d. refl)))))).at
          c h;
  }

  dispatch-Left :
      (n caps : ℕ) (allow_splice : Bool) (msg : Message)
      → Preserves (Left n) (dispatch disk root explain handlers caps allow_splice msg)
  dispatch-Left n =
      dispatch-Preserves disk root explain handlers (Left n) (handled-Left n) (handle_get-Left n)
        (write_message-Left n) (read_message-Left n) (open_channel-Left n)

  abbrev loop : ℕ → ℕ → Bool → Exec (Conn W) (Unit {0})
  loop fuel caps allow_splice = session_loop disk root explain handlers fuel caps allow_splice

  -- The loops go on alike behind an answer.
  then_alike :
      (caps : ℕ) (allow_splice : Bool) (n more : ℕ) (r : Result (Unit {0}) × Conn W)
      → ((d : Conn W)
          → Left n d
          → loop (suc n) caps allow_splice d ≡ loop (suc n + more) caps allow_splice d)
      → Left n r.1
      → continue r.0 (λ _. loop (suc n) caps allow_splice) r.1
        ≡ continue r.0 (λ _. loop (suc n + more) caps allow_splice) r.1
  then_alike caps allow_splice n more (ok done, d) alike h = alike d h
  then_alike caps allow_splice n more (err e, d) alike h = refl

  -- Behind a message.
  answer_alike :
      (caps : ℕ) (allow_splice : Bool) (n more : ℕ) (msg : Message) (d : Conn W)
      → ((d : Conn W)
          → Left n d
          → loop (suc n) caps allow_splice d ≡ loop (suc n + more) caps allow_splice d)
      → Left n d
      → after_read disk root explain handlers
          (loop (suc n) caps allow_splice)
          caps
          allow_splice
          (some msg)
          d
        ≡ after_read disk root explain handlers
            (loop (suc n + more) caps allow_splice)
            caps
            allow_splice
            (some msg)
            d
  unfolding after_read ◌>>=◌
  answer_alike caps allow_splice n more msg d alike h =
      then_alike caps allow_splice n more
        (dispatch disk root explain handlers caps allow_splice msg d) alike
        ((dispatch-Left n caps allow_splice msg).at d h)

  round_alike :
      (caps : ℕ) (allow_splice : Bool) (n more : ℕ) (ended : Option BcmrError) (msgs : List Message)
      (c : Conn W)
      → length msgs ≤ n
      → ((k : ℕ)
          → n ≡ suc k
          → (d : Conn W) → Left k d
          → loop (suc k) caps allow_splice d ≡ loop (suc k + more) caps allow_splice d)
      → (let (r, d) = next_message disk root explain handlers ended msgs c in
          continue r
            (after_read disk root explain handlers (loop n caps allow_splice) caps allow_splice)
            d
          ≡ continue r
              (after_read disk root explain handlers
                (loop (n + more) caps allow_splice)
                caps
                allow_splice)
              d)
  unfolding next_message after_read
  round_alike caps allow_splice n more none [] c h alike = refl
  round_alike caps allow_splice n more (some e) [] c h alike = refl
  round_alike caps allow_splice zero more ended (msg ∷ msgs) c h alike = absurd (omega arith)
  round_alike caps allow_splice (suc n) more none (msg ∷ msgs) c h alike =
      answer_alike caps allow_splice n more msg (record c { incoming = msgs }) (alike n refl)
        (omega (arith, h))
  round_alike caps allow_splice (suc n) more (some e) (msg ∷ msgs) c h alike =
      answer_alike caps allow_splice n more msg (record c { incoming = msgs }) (alike n refl)
        (omega (arith, h))

  alike_at :
      (caps : ℕ) (allow_splice : Bool) (n k more : ℕ)
      → k ≡ n
      → ((d : Conn W)
          → Left n d
          → loop (suc n) caps allow_splice d ≡ loop (suc n + more) caps allow_splice d)
      → (d : Conn W) → Left k d
      → loop (suc k) caps allow_splice d ≡ loop (suc k + more) caps allow_splice d
  alike_at caps allow_splice n k more e alike d h = rw e (alike d (omega (arith, e, h)))

  loop_alike :
      (caps : ℕ) (allow_splice : Bool) (n more : ℕ) (c : Conn W)
      → Left n c
      → loop (suc n) caps allow_splice c ≡ loop (suc n + more) caps allow_splice c
  unfolding session_loop read_message ◌>>=◌
  loop_alike caps allow_splice zero more c h =
      let e : 1 + more ≡ suc (0 + more) = omega arith in
      rw e
        (round_alike caps allow_splice 0 more c.ended c.incoming c h (λ k e'. absurd (omega arith)))
  loop_alike caps allow_splice (suc n) more c h =
      let e : suc (suc n) + more ≡ suc (suc n + more) = omega arith in
      rw e (
        round_alike caps allow_splice (suc n) more c.ended c.incoming c h (λ k e'.
          alike_at caps allow_splice n k more (omega arith)
            (λ d hd. loop_alike caps allow_splice n more d hd)))

  -- The loop makes at most one
  -- round more than there are messages: fuel beyond that changes nothing, neither the result nor the
  -- connection.
  pub session_loop-fuel :
      (caps : ℕ) (allow_splice : Bool) (fuel : ℕ) (c : Conn W)
      → length c.incoming < fuel
      → session_loop disk root explain handlers fuel caps allow_splice c
        ≡ session_loop disk root explain handlers (suc (length c.incoming)) caps allow_splice c
  session_loop-fuel caps allow_splice fuel c enough =
      let n = length c.incoming in
      let e : suc n + (fuel - suc n) ≡ fuel = omega (arith, enough) in
      sym (
        loop_alike caps allow_splice n (fuel - suc n) c (omega arith)
        ∙ ap (λ (k : ℕ). session_loop disk root explain handlers k caps allow_splice c) e)
