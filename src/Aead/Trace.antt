-- ===== src/Aead/Trace.antt =====
-- The nonces of a whole session.
use bcmr.Prelude.{ℕ, ◌+◌, ◌≤◌, ◌<◌, ◌≡◌, ◌≢◌, refl, sym, ◌∙◌, arith, List, [], ◌∷◌, All}
use mathlib.Core.Path.{subst}
use bcmr.Bytes.Word.{Bytes, IsU64}
use bcmr.Errors.{Result, ok, err}
use bcmr.Protocol.Message.{Message}
use bcmr.Aead.Cipher.{Aead}
use bcmr.Aead.{Direction, client_to_server, server_to_client, make_nonce, encrypt_message}
use bcmr.Aead.Nonce.{make_nonce-injective, encrypt_message-counter}

abbrev pub Distinct : List Bytes → Type 0
Distinct [] = Unit
Distinct (x ∷ xs) = All (λ y. x ≢ y) xs × Distinct xs

-- No element of the one list is an element of the other.
abbrev pub Disjoint : List Bytes → List Bytes → Type 0
Disjoint xs ys = All (λ x. All (λ y. x ≢ y) ys) xs

-- The nonce of a frame that was returned, in front of those of the later frames.
abbrev pub emit : Result Bytes → Bytes → List Bytes → List Bytes
emit (ok frame) nonce later = nonce ∷ later
emit (err x) nonce later = later

module _ (aead : Aead) (key : aead.Key) (dir : Direction) where
  -- The nonces of the frames that a sender returns for the messages, from a counter on.
  pub emitted : List Message → ℕ → List Bytes
  emitted [] c = []
  emitted (m ∷ ms) c =
      let (r, c') = encrypt_message aead m key dir c in emit r (make_nonce dir c) (emitted ms c')

  -- A nonce of this direction, with a counter from `c` on.
  abbrev IsFrom : ℕ → Bytes → Type 0
  IsFrom c n = (k : ℕ) × (c ≤ k) × IsU64 k × (n ≡ make_nonce dir k)

  All-later : (c d : ℕ) (ns : List Bytes) → c ≤ d → All (IsFrom d) ns → All (IsFrom c) ns
  All-later c d [] h a = tt
  All-later c d (n ∷ ns) h ((k, le, u, e), a) = ((k, omega arith, u, e), All-later c d ns h a)

  All-fresh :
      (c d : ℕ) (ns : List Bytes)
      → IsU64 c
      → c < d
      → All (IsFrom d) ns
      → All (λ n. make_nonce dir c ≢ n) ns
  All-fresh c d [] u lt a = tt
  All-fresh c d (n ∷ ns) u lt ((k, le, v, e), a) = (
    λ same. absurd (omega (arith, (make_nonce-injective dir dir c k u v (same ∙ e)).1)),
    All-fresh c d ns u lt a,
  )

  -- What a call of `encrypt_message` adds to the trace, for a property of the later nonces that
  -- holds from every counter.
  module _ (P : ℕ → List Bytes → Type 0) (m : Message) (ms : List Message) (c : ℕ) (u : IsU64 c)
      (later : (c' : ℕ) → IsU64 c' → P c' (emitted ms c'))
      (added : IsU64 (c + 1)
        → P (c + 1) (emitted ms (c + 1))
        → P c (make_nonce dir c ∷ emitted ms (c + 1))) where
    emit_step :
        (p : Result Bytes × ℕ)
        → encrypt_message aead m key dir c ≡ p
        → P c (emit p.0 (make_nonce dir c) (emitted ms p.1))
    emit_step (ok frame, c') e =
        let (sealed, got, cut, up, below) =
          (encrypt_message-counter aead m key dir c c').0 frame e in
        subst (λ k. P c (make_nonce dir c ∷ emitted ms k)) (sym up)
          (added (omega arith) (later (c + 1) (omega arith)))
    emit_step (err x, c') e =
        subst (λ k. P c (emitted ms k)) (sym ((encrypt_message-counter aead m key dir c c').1 x e))
          (later c u)

  emitted-IsFrom : (ms : List Message) (c : ℕ) → IsU64 c → All (IsFrom c) (emitted ms c)
  unfolding emitted
  emitted-IsFrom [] c u = tt
  emitted-IsFrom (m ∷ ms) c u =
      emit_step (λ k ns. All (IsFrom k) ns) m ms c u (emitted-IsFrom ms)
        (λ _ a. ((c, omega arith, u, refl), All-later c (c + 1) _ (omega arith) a))
        (encrypt_message aead m key dir c) refl

  emitted-Distinct : (ms : List Message) (c : ℕ) → IsU64 c → Distinct (emitted ms c)
  unfolding emitted
  emitted-Distinct [] c u = tt
  emitted-Distinct (m ∷ ms) c u =
      emit_step (λ _ ns. Distinct ns) m ms c u (emitted-Distinct ms)
        (λ v d. (All-fresh c (c + 1) _ u (omega arith) (emitted-IsFrom ms (c + 1) v), d))
        (encrypt_message aead m key dir c) refl

module _ (aead : Aead) (key : aead.Key) where
  apart :
      (n : Bytes) (ns : List Bytes) (c d : ℕ)
      → IsFrom aead key client_to_server c n
      → All (IsFrom aead key server_to_client d) ns
      → All (λ y. n ≢ y) ns
  apart n [] c d p a = tt
  apart n (y ∷ ns) c d p (q, a) =
      let (k, le, u, e) = p in
      let (k', le', u', e') = q in
      (
        λ same. cc (
            (make_nonce-injective client_to_server server_to_client k k' u u'
              (sym e ∙ same ∙ e')).0),
        apart n ns c d p a,
      )

  All-apart :
      (xs ns : List Bytes) (c d : ℕ)
      → All (IsFrom aead key client_to_server c) xs
      → All (IsFrom aead key server_to_client d) ns
      → Disjoint xs ns
  All-apart [] ns c d a b = tt
  All-apart (x ∷ xs) ns c d (p, a) b = (apart x ns c d p b, All-apart xs ns c d a b)

  -- Under one session key, whatever the two sides try to send and whatever fails, no two frames
  -- are sealed under the same nonce: neither two of one side, nor one of each side.
  pub emitted-never_reused :
      (ours theirs : List Message)
      → Distinct (emitted aead key client_to_server ours 0)
        × Distinct (emitted aead key server_to_client theirs 0)
        × Disjoint
            (emitted aead key client_to_server ours 0)
            (emitted aead key server_to_client theirs 0)
  emitted-never_reused ours theirs = (
    emitted-Distinct aead key client_to_server ours 0 (omega arith),
    emitted-Distinct aead key server_to_client theirs 0 (omega arith),
    All-apart _ _ 0 0 (emitted-IsFrom aead key client_to_server ours 0 (omega arith))
        (emitted-IsFrom aead key server_to_client theirs 0 (omega arith)),
  )
