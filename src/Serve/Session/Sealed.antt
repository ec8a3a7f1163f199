-- ===== src/Serve/Session/Sealed.antt =====
-- Which messages of a session are sealed.
use bcmr.Prelude.{arith, ◌&&◌, ap, ◌∙◌, ℕ, ◌≡◌, ◌≤◌, ◌⊎◌, inl, inr, refl, sym, Bool, true, false}
use bcmr.Prelude.{Option, none, some, List, [], ◌∷◌, ◌++◌, append_assoc, All, All-append}
use bcmr.Prelude.{leb, not, ◌==◌, if◌then◌else◌, Bool-cases}
use mathlib.Core.Path.{subst}
use bcmr.Bytes.Word.{Bytes}
use bcmr.Errors.{BcmrError, Result, crypto_failure, invalid_input, Exec, continue, ◌>>=◌}
use bcmr.Errors.Preserves.{Preserves, Preserves-same, Preserves-bind, Preserves-if}
use bcmr.Paths.{Component}
use bcmr.Protocol.Message.{Message, protocol_version, hello, welcome, error}
use bcmr.Compress.{has_cap}
use bcmr.Serve.Caps.{cap_aead}
use bcmr.Serve.Jail.{Disk}
use bcmr.Serve.Session.{Conn, Handlers, write_message, next_message, read_message, push_task}
use bcmr.Serve.Session.{opened_channel, open_channel, session_loop, max_rendezvous_per_session}
use bcmr.Serve.Session.{is_some_key, seal, negotiated, greet, run_session}
use bcmr.Serve.Session.Keeps.{session_loop-Preserves}
use bcmr.Serve.Session.{Handler, handled, written, stamped, handle_get}
use bcmr.Serve.Splice.{splices, is_uncompressed}
use bcmr.Compress.{CompressionAlgo}

-- All that was sent behind `first` was sealed.
pub record IsSealed {W : Type 0} (first : List (Bool × Message)) (c : Conn W) : Type 0 where
  pub on : c.sealed ≡ true
  pub rest : List (Bool × Message)
  pub all : c.sent ≡ first ++ rest
  pub each : All (λ x. x.0 ≡ true) rest

-- On a sealed connection nothing is spliced.
splices-sealed :
    (fast : Bool) (algo : CompressionAlgo) (allow_splice : Bool)
    → splices fast algo allow_splice true ≡ false
unfolding splices is_uncompressed
splices-sealed fast algo allow_splice = none_of fast (is_uncompressed algo) allow_splice
  where
    none_of : (a b c : Bool) → (a && b && c && not true) ≡ false
    none_of a b c = ground arith

stamped-sealed : (msgs : List Message) → All (λ x. x.0 ≡ true) (stamped true msgs)
unfolding stamped
stamped-sealed [] = tt
stamped-sealed (msg ∷ msgs) = (refl, stamped-sealed msgs)

not_first :
    {W : Type 0} (Q : Conn W → Type 0) (b : Bool) (r q : Result (Unit {0}) × Conn W)
    → b ≡ false
    → Q q.1
    → Q (if b then r else q).1
not_first Q true r q e h = cc
not_first Q false r q e h = h

in_both :
    {W : Type 0} (Q : Conn W → Type 0) (b : Bool) (m n : Exec (Conn W) (Unit {0})) (c : Conn W)
    → Q (m c).1
    → Q (n c).1
    → Q ((if b then m else n) c).1
in_both Q true m n c x y = x
in_both Q false m n c x y = y

-- The tasks are within the limit.
abbrev pub Limited : {W : Type 0} → Conn W → Type 0
Limited c = c.tasks ≤ max_rendezvous_per_session

module _ {W : Type 0} (disk : Disk) (root : List Component) (explain : BcmrError → Bytes)
    (handlers : Handlers W) where
  module _ (first : List (Bool × Message)) where
    handled-IsSealed :
        (A : Type 0) (h : Handler W A)
        → Preserves (IsSealed first) (handled disk root explain handlers h)
    unfolding handled written
    handled-IsSealed A h = record {
      at = λ c k.
          let replies = (h c.incoming c.ended c.world).1.replies in
          record {
            on = k.on;
            rest = k.rest ++ stamped true replies;
            all =
                ap (λ (b : Bool). c.sent ++ stamped b replies) k.on
                ∙ rw k.all (append_assoc first k.rest (stamped true replies));
            each =
                All-append (λ x. x.0 ≡ true) k.rest (stamped true replies) k.each
                  (stamped-sealed replies);
          };
    }

    handle_get-IsSealed :
        (p : List Component) (offset : ℕ) (algo : CompressionAlgo) (fast allow_splice : Bool)
        → Preserves
            (IsSealed first)
            (handle_get disk root explain handlers p offset algo fast allow_splice)
    unfolding handle_get
    handle_get-IsSealed p offset algo fast allow_splice = record {
      at = λ c k.
          let never : splices fast algo allow_splice c.sealed ≡ false =
            ap (λ (b : Bool). splices fast algo allow_splice b) k.on
            ∙ splices-sealed fast algo allow_splice in
          let h = (handled-IsSealed _ (handlers.get p offset algo fast)).at c k in
          not_first (IsSealed first) _ _ _ never h;
    }

    write_message-IsSealed :
        (msg : Message) → Preserves (IsSealed first) (write_message disk root explain handlers msg)
    unfolding write_message
    write_message-IsSealed msg = record {
      at = λ c h. record {
        on = h.on;
        rest = h.rest ++ ((c.sealed, msg) ∷ []);
        all = rw h.all (append_assoc first h.rest ((c.sealed, msg) ∷ []));
        each = All-append (λ x. x.0 ≡ true) h.rest ((c.sealed, msg) ∷ []) h.each (h.on, tt);
      };
    }

    read_message-IsSealed : Preserves (IsSealed first) (read_message disk root explain handlers)
    unfolding read_message next_message
    read_message-IsSealed = record { at = λ c h. next c.ended c.incoming c h }
      where
        next :
            (ended : Option BcmrError) (msgs : List Message) (c : Conn W)
            → IsSealed first c
            → IsSealed first (next_message disk root explain handlers ended msgs c).1
        next none [] c h = h
        next (some e) [] c h = h
        next none (msg ∷ msgs) c h = record { on = h.on; rest = h.rest; all = h.all; each = h.each }
        next (some e) (msg ∷ msgs) c h = record {
          on = h.on;
          rest = h.rest;
          all = h.all;
          each = h.each;
        }

    open_channel-IsSealed :
        (b : Bool) → Preserves (IsSealed first) (open_channel disk root explain handlers b)
    unfolding open_channel opened_channel push_task
    open_channel-IsSealed b = record {
      at = λ c h.
          (Preserves-if (IsSealed first) (not b) _ _ (Preserves-same (IsSealed first) _ (λ d. refl))
              (Preserves-if (IsSealed first) (leb max_rendezvous_per_session c.tasks) _ _
                (Preserves-same (IsSealed first) _ (λ d. refl))
                (Preserves-bind (IsSealed first) _ _
                  (handled-IsSealed _ handlers.open_direct_channel)
                  (λ msg.
                    Preserves-bind (IsSealed first) _ _
                      (record {
                        at = λ d k. record { on = k.on; rest = k.rest; all = k.all; each = k.each };
                      })
                      (λ _. Preserves-same (IsSealed first) _ (λ d. refl)))))).at
            c h;
    }

    loop-IsSealed :
        (fuel caps : ℕ) (allow_splice : Bool)
        → Preserves
            (IsSealed first)
            (session_loop disk root explain handlers fuel caps allow_splice)
    loop-IsSealed =
        session_loop-Preserves disk root explain handlers (IsSealed first) handled-IsSealed
          handle_get-IsSealed write_message-IsSealed read_message-IsSealed open_channel-IsSealed

  -- The first message is a Hello, or it is answered by an error.
  greet_cases :
      (fuel : ℕ) (allow_splice allow_direct_tcp : Bool) (key : Option Bytes) (msg : Message)
      → ((version caps : ℕ) × (msg ≡ hello version caps))
        ⊎ (greet disk root explain handlers fuel allow_splice allow_direct_tcp key (some msg)
            ≡ write_message disk root explain handlers (error (explain invalid_input)))
  unfolding greet
  greet_cases fuel allow_splice allow_direct_tcp key (Message.hello version caps) =
      inl (version, caps, refl)
  greet_cases fuel allow_splice allow_direct_tcp key (Message.list path) = inr refl
  greet_cases fuel allow_splice allow_direct_tcp key (Message.stat path) = inr refl
  greet_cases fuel allow_splice allow_direct_tcp key (Message.hash path offset limit) = inr refl
  greet_cases fuel allow_splice allow_direct_tcp key (Message.get path offset) = inr refl
  greet_cases fuel allow_splice allow_direct_tcp key (Message.put path size offset) = inr refl
  greet_cases fuel allow_splice allow_direct_tcp key (Message.mkdir path) = inr refl
  greet_cases fuel allow_splice allow_direct_tcp key (Message.resume path) = inr refl
  greet_cases fuel allow_splice allow_direct_tcp key Message.done = inr refl
  greet_cases fuel allow_splice allow_direct_tcp key Message.open_direct_channel = inr refl
  greet_cases fuel allow_splice allow_direct_tcp key (Message.auth_hello mac) = inr refl
  greet_cases fuel allow_splice allow_direct_tcp key (Message.put_chunked path offset size) =
      inr refl
  greet_cases fuel allow_splice allow_direct_tcp key (Message.get_chunked path offset size) =
      inr refl
  greet_cases fuel allow_splice allow_direct_tcp key (Message.truncate path size) = inr refl
  greet_cases fuel allow_splice allow_direct_tcp key (Message.welcome version caps) = inr refl
  greet_cases fuel allow_splice allow_direct_tcp key (Message.ok hash) = inr refl
  greet_cases fuel allow_splice allow_direct_tcp key (Message.error text) = inr refl
  greet_cases fuel allow_splice allow_direct_tcp key (Message.data_plain payload) = inr refl
  greet_cases fuel allow_splice allow_direct_tcp key (Message.data_compressed algo size payload) =
      inr refl
  greet_cases fuel allow_splice allow_direct_tcp key (Message.have_blocks size hashes) = inr refl
  greet_cases fuel allow_splice allow_direct_tcp key (Message.missing_blocks bits) = inr refl
  greet_cases fuel allow_splice allow_direct_tcp key (Message.stat_response size mtime is_dir) =
      inr refl
  greet_cases fuel allow_splice allow_direct_tcp key (Message.hash_response hash) = inr refl
  greet_cases fuel allow_splice allow_direct_tcp key (Message.list_response entries) = inr refl
  greet_cases fuel allow_splice allow_direct_tcp key (Message.resume_response size hash) = inr refl
  greet_cases fuel allow_splice allow_direct_tcp key
        (Message.direct_channel_ready addr session_key) =
      inr refl
  greet_cases fuel allow_splice allow_direct_tcp key (Message.auth_challenge nonce) = inr refl

  -- How a session that has a key may have gone.
  abbrev pub Refused : Conn W → Conn W → Type 0
  Refused before after =
      (after.world ≡ before.world)
      × ((after.sent ≡ []) ⊎ ((text : Bytes) × (after.sent ≡ (false, error text) ∷ [])))

  abbrev pub Secured : Conn W → Type 0
  Secured after =
      (caps : ℕ) × (rest : List (Bool × Message)) × (has_cap caps cap_aead ≡ true)
      × (after.sent ≡ (false, welcome protocol_version caps) ∷ rest)
      × All (λ x. x.0 ≡ true) rest

  module _ (fuel : ℕ) (allow_splice allow_direct_tcp : Bool) (key : Bytes) where
    -- The connection behind the Welcome.
    abbrev started : ℕ → Conn W → Conn W
    started caps c = record c {
      sealed = true;
      sent = c.sent ++ ((c.sealed, welcome protocol_version caps) ∷ []);
    }

    negotiated-aead :
        (caps : ℕ) (c : Conn W)
        → has_cap caps cap_aead ≡ true
        → negotiated disk root explain handlers fuel allow_splice (some key) caps c
          ≡ session_loop disk root explain handlers fuel caps allow_splice (started caps c)
    unfolding negotiated write_message seal ◌>>=◌ is_some_key
    negotiated-aead caps c aead = rw aead refl

    negotiated-plain :
        (caps : ℕ) (c : Conn W)
        → has_cap caps cap_aead ≡ false
        → negotiated disk root explain handlers fuel allow_splice (some key) caps c
          ≡ write_message disk root explain handlers (error (explain crypto_failure)) c
    unfolding negotiated is_some_key
    negotiated-plain caps c plain = rw plain refl

    refused :
        (text : Bytes) (c : Conn W)
        → c.sealed ≡ false
        → c.sent ≡ []
        → Refused c (write_message disk root explain handlers (error text) c).1
    unfolding write_message
    refused text c off fresh = (refl, inr (text, rw (off, fresh) refl))

    negotiated-Secured :
        (caps : ℕ) (c : Conn W)
        → c.sealed ≡ false
        → c.sent ≡ []
        → (let after =
              (negotiated disk root explain handlers fuel allow_splice (some key) caps c).1 in
            Refused c after ⊎ Secured after)
    negotiated-Secured caps c off fresh = elim (Bool-cases (has_cap caps cap_aead)) [
      | inl aead ↦
          let first = (false, welcome protocol_version caps) ∷ [] in
          let h =
            (loop-IsSealed first fuel caps allow_splice).at (started caps c)
              (record { on = refl; rest = []; all = rw (off, fresh) refl; each = tt }) in
          inr (
            subst (λ (r : Result (Unit {0}) × Conn W). Secured r.1)
              (sym (negotiated-aead caps c aead)) (caps, h.rest, aead, h.all, h.each))
      | inr plain ↦ inl (
          subst (λ (r : Result (Unit {0}) × Conn W). Refused c r.1)
            (sym (negotiated-plain caps c plain)) (refused _ c off fresh))
    ]

    greet-Secured :
        (msg : Message) (c : Conn W)
        → c.sealed ≡ false
        → c.sent ≡ []
        → (let after =
              (greet disk root explain handlers fuel allow_splice allow_direct_tcp
                (some key)
                (some msg)
                c).1 in
            Refused c after ⊎ Secured after)
    unfolding greet
    greet-Secured msg c off fresh =
        elim (greet_cases fuel allow_splice allow_direct_tcp (some key) msg) [
          | inl (version, caps, is) ↦ rw is (
              in_both (λ d. Refused c d ⊎ Secured d) (not (version == protocol_version)) _ _ c
                (inl (refused _ c off fresh)) (negotiated-Secured _ c off fresh))
          | inr refuses ↦ inl (
              subst (λ (m : Exec (Conn W) (Unit {0})). Refused c (m c).1) (sym refuses)
                (refused _ c off fresh))
        ]

    first-Secured :
        (ended : Option BcmrError) (msgs : List Message) (c : Conn W)
        → c.sealed ≡ false
        → c.sent ≡ []
        → (let (r, d) = next_message disk root explain handlers ended msgs c in
            let after =
              (continue r
                (greet disk root explain handlers fuel allow_splice allow_direct_tcp (some key))
                d).1 in
            Refused c after ⊎ Secured after)
    unfolding next_message greet
    first-Secured none [] c off fresh = inl (refl, inl fresh)
    first-Secured (some x) [] c off fresh = inl (refl, inl fresh)
    first-Secured none (msg ∷ msgs) c off fresh =
        greet-Secured msg (record c { incoming = msgs }) off fresh
    first-Secured (some x) (msg ∷ msgs) c off fresh =
        greet-Secured msg (record c { incoming = msgs }) off fresh

    -- A session that has a key, on a connection where nothing was sent yet. Either no handler was
    -- run, and at most one error was sent; or a Welcome was sent that grants encryption, and after
    -- it only sealed messages: no file is spliced past the framing, which seals nothing. This is so
    -- whatever the client sends and the handlers do.
    pub run_session-Secured :
        (c : Conn W)
        → c.sealed ≡ false
        → c.sent ≡ []
        → (let after =
              (run_session disk root explain handlers fuel allow_splice allow_direct_tcp
                (some key)
                c).1 in
            Refused c after ⊎ Secured after)
    unfolding run_session read_message ◌>>=◌
    run_session-Secured c off fresh = first-Secured c.ended c.incoming c off fresh
