-- ===== src/Client/Get/Placed.antt =====
-- The local file while `get_chunked` writes a part into it: each write is on its way until the next
-- one settles it.
use bcmr.Prelude.{ℕ, zero, suc, ◌+◌, ◌≡◌, ◌≤◌, refl, sym, ap, ◌∙◌, arith, true}
use bcmr.Prelude.{Option, none, some, [], ◌∷◌, ◌++◌, append_assoc}
use bcmr.Prelude.{length, length-append, take, drop, length-drop, take-append-drop}
use bcmr.Prelude.{append-nil}
use mathlib.Core.Path.{subst}
use bcmr.Bytes.Word.{Bytes}
use bcmr.Bytes.Write.{overlay, write_at, write_at-overlay}
use bcmr.Errors.{ok, Exec, ◌>>◌}
use bcmr.Errors.Runs.{Runs, Runs-ok, Runs-step}
use bcmr.Client.Get.{settled, landing, settle, landed, send_off, write_all}
use bcmr.Client.Get.{GetState, LocalFaults}

pub record IsCalm (faults : LocalFaults) : Type 0 where
  pub opens : faults.opens ≡ true
  pub whole : (position : ℕ) → faults.cut position ≡ none
  pub buffered : 1 ≤ faults.buffer

module _ (faults : LocalFaults) (calm : IsCalm faults) (file : Bytes) where
  -- What was written so far makes the beginning of the file `content`, once it has landed; of the
  -- part that is written, nothing was counted yet.
  pub record IsPlaced (amount : ℕ) (content : Bytes) (st : GetState) : Type 0 where
    pub target : landed faults st ≡ overlay content file
    pub position : st.position ≡ length content
    pub written : st.written ≡ amount

  settled-ok :
      (flight : Option (ℕ × Bytes)) (st : GetState)
      → settled faults flight st
        ≡ (ok tt, record st { file = (settled faults flight st).1.file; flight = none })
  unfolding settled landing
  settled-ok none st = refl
  settled-ok (some (at, piece)) st = rw (calm.whole at) refl

  landed-sent :
      (at : ℕ) (piece : Bytes) (st : GetState)
      → st.flight ≡ some (at, piece)
      → landed faults st ≡ write_at at piece st.file
  unfolding landed settle settled landing
  landed-sent at piece st sent =
      ap (λ (f : Option (ℕ × Bytes)). (settled faults f st).1.file) sent
      ∙ ap (λ (cut : Option ℕ). (landing faults at piece cut st).1.file) (calm.whole at)

  send_off-IsPlaced :
      (amount : ℕ) (content piece : Bytes) (st : GetState) (later : Exec GetState (Unit {0}))
      (Q : GetState → Type 0)
      → IsPlaced amount content st
      → ((t : GetState) → IsPlaced amount (content ++ piece) t → Runs (later t) Q)
      → Runs ((settle faults >> (send_off faults piece >> later)) st) Q
  unfolding settle send_off landed
  send_off-IsPlaced amount content piece st later Q h next =
      let clear : GetState = record st { file = landed faults st; flight = none } in
      let sent : GetState = record clear {
        flight = some (clear.position, piece);
        position = clear.position + length piece;
      } in
      Runs-step _ _ st clear tt Q (settled-ok st.flight st) (
        Runs-step _ _ clear sent tt Q refl (
          next sent (record {
            target =
                landed-sent st.position piece sent refl
                ∙ rw (h.target, h.position) (write_at-overlay content piece file);
            position = omega (arith, h.position, length-append content piece);
            written = h.written;
          })))

  pub write_all-IsPlaced :
      (fuel amount : ℕ) (content part : Bytes) (st : GetState)
      → length part ≤ fuel
      → IsPlaced amount content st
      → Runs (write_all faults fuel part st) (IsPlaced amount (content ++ part))
  unfolding write_all
  write_all-IsPlaced zero amount content [] st enough h =
      Runs-ok tt st (IsPlaced amount (content ++ []))
        (subst (λ (c : Bytes). IsPlaced amount c st) (sym (append-nil content)) h)
  write_all-IsPlaced zero amount content (b ∷ bs) st enough h = absurd (omega (arith, enough))
  write_all-IsPlaced (suc fuel) amount content [] st enough h =
      Runs-ok tt st (IsPlaced amount (content ++ []))
        (subst (λ (c : Bytes). IsPlaced amount c st) (sym (append-nil content)) h)
  write_all-IsPlaced (suc fuel) amount content (b ∷ bs) st enough h =
      let piece = take faults.buffer (b ∷ bs) in
      let rest = drop faults.buffer (b ∷ bs) in
      let whole : (content ++ piece) ++ rest ≡ content ++ (b ∷ bs) =
        append_assoc content piece rest
        ∙ ap (λ (c : Bytes). content ++ c) (take-append-drop faults.buffer (b ∷ bs)) in
      let shorter : length rest ≤ fuel =
        omega (arith, length-drop faults.buffer (b ∷ bs), calm.buffered, enough) in
      send_off-IsPlaced amount content piece st _ (IsPlaced amount (content ++ (b ∷ bs))) h (λ t ht.
        subst (λ (c : Bytes). Runs (write_all faults fuel rest t) (IsPlaced amount c)) whole
          (write_all-IsPlaced fuel amount (content ++ piece) rest t shorter ht))

  -- What was counted does not concern the file.
  pub settled-count :
      (flight : Option (ℕ × Bytes)) (n : ℕ) (st : GetState)
      → (settled faults flight (record st { written = n })).1.file
        ≡ (settled faults flight st).1.file
  unfolding settled landing
  settled-count none n st = refl
  settled-count (some (at, piece)) n st = rw (calm.whole at) refl
