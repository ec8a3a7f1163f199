-- ===== src/Client/Striped.antt =====
-- `striped_get_file` of src/core/serve_client/pool.rs: the clients of a pool each fetch a range of
-- a file. The ranges do not overlap, and are fetched one after the other here. The last write of each
-- may still be on its way when the file is hashed, so what the hash task reads is an argument.
use bcmr.Prelude.{ℕ, ◌+◌, ◌-◌, ◌^◌, ◌≡◌, ◌≤◌, ◌<◌, refl, sym, ap, ◌∙◌, arith, false}
use bcmr.Prelude.{
  Option, none, some, List, [], ◌∷◌, ◌++◌, ◌==◌, ==_iff, if◌then◌else◌, not, Bool-cases, inl, inr,
}
use bcmr.Prelude.{length, length-append, take, drop, length-drop, length-take_of_le}
use mathlib.Core.Path.{subst}
use bcmr.Bytes.Word.{Bytes}
use bcmr.Bytes.Read.{ReadFile}
use bcmr.Bytes.Write.{zeros, set_len, overlay, take_add, take-append, take-length, length-zeros}
use bcmr.Bytes.Digest.{Blake3}
use bcmr.Errors.{BcmrError, Result, ok, err, invalid_input, io, other}
use bcmr.Protocol.Message.{Message, error}
use bcmr.Compress.{CompressionAlgo, Codecs, IsLossless}
use bcmr.Serve.Get.{handle_get_chunked}
use bcmr.Client.Ranges.{divide_ranges, Contiguous, divide_ranges-Contiguous}
use bcmr.Client.Get.{GetState, LocalFaults, landed, get_chunked}
use bcmr.Client.Get.Placed.{IsCalm}
use bcmr.Client.Get.Fetched.{get_chunked-handle_get_chunked}

-- `spawn_blake3_file`: the digest of what is read, or the error of the read.
unfoldable pub digest : Blake3 → Result Bytes → Result Bytes
digest blake3 (ok content) = ok (blake3.hash content)
digest blake3 (err e) = err e

module _ (blake3 : Blake3) (codecs : Codecs) (faults : LocalFaults) (chunk_size : ℕ)
    (algo : CompressionAlgo) (explain : BcmrError → Bytes) (seen : Bytes → Result Bytes)
    (remote : Option ReadFile) where
  -- The session reports the error of a handler behind what the handler sent.
  unfoldable pub reported : Result (Unit {0}) × List Message → List Message
  reported (ok done, sent) = sent
  reported (err e, sent) = sent ++ (error (explain e) ∷ [])

  -- One client's range.
  unfoldable pub fetch : (offset size : ℕ) → Bytes → Result (Unit {0}) × GetState
  fetch offset size file =
      get_chunked codecs faults size offset none
        (reported (handle_get_chunked blake3 codecs chunk_size algo offset size remote [])) file

  unfoldable pub fetch_then :
      (later : Bytes → Result (Unit {0}) × Bytes)
      → Result (Unit {0}) × GetState
      → Result (Unit {0}) × Bytes
  fetch_then later (ok done, t) = later (landed faults t)
  fetch_then later (err e, t) = (err e, landed faults t)

  -- Ranges of no length are left out.
  unfoldable pub fetch_ranges : List (ℕ × ℕ) → Bytes → Result (Unit {0}) × Bytes
  fetch_ranges [] file = (ok tt, file)
  fetch_ranges ((offset, size) ∷ ranges) file =
      let skipped = fetch_ranges ranges file in
      let fetched = fetch_then (fetch_ranges ranges) (fetch offset size file) in
      if size == 0 then skipped else fetched

  -- The second part is the file once all writes have landed, of which the task reads `seen`.
  unfoldable pub digest_of : Result (Unit {0}) × Bytes → Result Bytes × Bytes
  digest_of (ok done, file) = (digest blake3 (seen file), file)
  digest_of (err e, file) = (err e, file)

  unfoldable pub striped_get_file : (clients remote_size : ℕ) → Bytes → Result Bytes × Bytes
  striped_get_file clients remote_size before =
      if clients == 0
      then (err invalid_input, before)
      else if not faults.opens
      then (err (io other), before)
      else digest_of (fetch_ranges (divide_ranges remote_size clients) (set_len remote_size []))

Contiguous-le : (ranges : List (ℕ × ℕ)) (start end : ℕ) → Contiguous start end ranges → start ≤ end
unfolding Contiguous
Contiguous-le [] start end h = omega (arith, h)
Contiguous-le ((offset, n) ∷ ranges) start end (begins, more) =
    omega (arith, Contiguous-le ranges (start + n) end more)

length-set_len : (n : ℕ) (file : Bytes) → length (set_len n file) ≡ n
unfolding set_len
length-set_len n file =
    length-take_of_le n (file ++ zeros (n - length file))
      (omega (arith, length-append file (zeros (n - length file)), length-zeros (n - length file)))

module _ (blake3 : Blake3) (codecs : Codecs) (lossless : IsLossless codecs) (faults : LocalFaults)
    (calm : IsCalm faults) (chunk_size : ℕ) (progress : 1 ≤ chunk_size)
    (small : chunk_size < 2 ^ 32) (algo : CompressionAlgo) (explain : BcmrError → Bytes)
    (seen : Bytes → Result Bytes) (remote : ReadFile) (fine : (at : ℕ) → remote.fails at ≡ false)
    (room : length remote.content < 2 ^ 63) where
  -- The local file is as long as the remote one, and agrees with it as far as the place.
  record Agrees (at : ℕ) (file : Bytes) : Type 0 where
    size : length file ≡ length remote.content
    front : take at file ≡ take at remote.content

  overlay-Agrees :
      (at n : ℕ) (file : Bytes)
      → at + n ≤ length remote.content
      → Agrees at file
      → Agrees (at + n) (overlay (take at file ++ take n (drop at remote.content)) file)
  overlay-Agrees at n file within h =
      let part = take at file ++ take n (drop at remote.content) in
      let same : part ≡ take (at + n) remote.content =
        ap (λ (xs : Bytes). xs ++ take n (drop at remote.content)) h.front
        ∙ take_add at n remote.content in
      let amount : length part ≡ at + n =
        ap (λ (xs : Bytes). length xs) same ∙ length-take_of_le (at + n) remote.content within in
      record {
        size = omega (
          arith,
          length-append part (drop (length part) file),
          length-drop (length part) file,
          amount,
          h.size,
          within,
        );
        front =
            ap (λ (k : ℕ). take k (overlay part file)) (sym amount)
            ∙ take-append part (drop (length part) file)
            ∙ same;
      }

  fetch-ok :
      (offset at n : ℕ) (file : Bytes) (sent : List Message) (t : GetState)
      → offset ≡ at
      → handle_get_chunked blake3 codecs chunk_size algo at n (some remote) [] ≡ (ok tt, sent)
      → get_chunked codecs faults n at none sent file ≡ (ok tt, t)
      → fetch blake3 codecs faults chunk_size algo explain seen (some remote) offset n file
        ≡ (ok tt, t)
  unfolding fetch reported
  fetch-ok offset at n file sent t begins served got = rw (begins, served, got) refl

  fetch_ranges-ok :
      (ranges : List (ℕ × ℕ)) (offset n : ℕ) (file : Bytes) (t : GetState)
      (r : Result (Unit {0}) × Bytes)
      → (n == 0) ≡ false
      → fetch blake3 codecs faults chunk_size algo explain seen (some remote) offset n file
        ≡ (ok tt, t)
      → fetch_ranges blake3 codecs faults chunk_size algo explain seen
          (some remote)
          ranges
          (landed faults t)
        ≡ r
      → fetch_ranges blake3 codecs faults chunk_size algo explain seen
          (some remote)
          ((offset, n) ∷ ranges)
          file
        ≡ r
  unfolding fetch_ranges fetch_then
  fetch_ranges-ok ranges offset n file t r filled fetched ran = rw (filled, fetched) ran

  fetch_ranges-Agrees :
      (ranges : List (ℕ × ℕ)) (at : ℕ) (file : Bytes)
      → Contiguous at (length remote.content) ranges
      → Agrees at file
      → (after : Bytes) × (fetch_ranges blake3 codecs faults chunk_size algo explain seen
            (some remote)
            ranges
            file
          ≡ (ok tt, after))
        × Agrees (length remote.content) after
  unfolding fetch_ranges Contiguous
  fetch_ranges-Agrees [] at file ends h = (
    file,
    refl,
    record {
      size = h.size;
      front = subst (λ (k : ℕ). take k file ≡ take k remote.content) ends h.front;
    },
  )
  fetch_ranges-Agrees ((offset, n) ∷ ranges) at file (begins, more) h =
      let within = Contiguous-le ranges (at + n) (length remote.content) more in
      elim (Bool-cases (n == 0)) [
        | inl empty ↦
            let still : at + n ≡ at = omega (arith, (==_iff n 0).0 empty) in
            let (after, ran, agrees) =
              fetch_ranges-Agrees ranges at file
                (subst (λ (k : ℕ). Contiguous k (length remote.content) ranges) still more) h in
            (after, rw empty ran, agrees)
        | inr filled ↦
            let (sent, served, (t, got, is)) =
              get_chunked-handle_get_chunked blake3 codecs lossless faults calm chunk_size progress
                small remote fine algo none at at n file (omega (arith, within, room))
                (omega (arith, within, room)) (omega (arith, within, room)) within
                (omega (arith, within, h.size)) in
            let (after, ran, agrees) =
              fetch_ranges-Agrees ranges (at + n) (landed faults t) more
                (subst (Agrees (at + n)) (sym is) (overlay-Agrees at n file within h)) in
            (
              after,
              fetch_ranges-ok ranges offset n file t (ok tt, after) filled
                  (fetch-ok offset at n file sent t begins served got) ran,
              agrees,
            )
      ]

  -- If there is a client, the remote file has the announced size, no call fails but perhaps the
  -- hash task, and a chunk has at least one byte and less than 4 GiB, the local file is equal to the
  -- remote one once the last writes have landed, whatever was there and however many clients share
  -- the work; and `striped_get_file` returns the digest of what the hash task read of it, or its
  -- error.
  pub striped_get_file-digest :
      (clients : ℕ) (before : Bytes)
      → 1 ≤ clients
      → striped_get_file blake3 codecs faults chunk_size algo explain seen
          (some remote)
          clients
          (length remote.content)
          before
        ≡ (digest blake3 (seen remote.content), remote.content)
  unfolding striped_get_file digest_of take
  striped_get_file-digest clients before h =
      let size = length remote.content in
      let some_client : (clients == 0) ≡ false = ground (arith, h) in
      let (after, ran, agrees) =
        fetch_ranges-Agrees (divide_ranges size clients) 0 (set_len size [])
          (divide_ranges-Contiguous size clients h).0
          (record { size = length-set_len size []; front = refl }) in
      let same : after ≡ remote.content =
        sym (take-length after)
        ∙ ap (λ (k : ℕ). take k after) agrees.size
        ∙ agrees.front
        ∙ take-length remote.content in
      rw (some_client, ran, calm.opens, same) refl
