-- ===== src/Serve/Put.antt =====
-- `handle_put` of src/commands/serve/handlers.rs: a file is received in blocks, and blocks that the
-- server has kept need not be sent again. The messages that the client sends are a list here, with
-- what comes behind the last one.
pub mod Bitmap
pub mod Deduplicated
pub mod Delivered
pub mod Hashed
pub mod Kept
pub mod Missing
pub mod Stored
use bcmr.Prelude.{ℕ, zero, suc, ◌+◌, ◌-◌, ◌*◌, ◌/◌, ◌%◌, ◌^◌, ltb, ◌==◌, if◌then◌else◌, ◌&&◌, ◌||◌}
use bcmr.Prelude.{not, Bool, true, false, Option, none, some, List, [], ◌∷◌, ◌++◌, length, take}
use bcmr.Prelude.{drop, get_elem?, replicate}
use bcmr.Bytes.Word.{Bytes}
use bcmr.Bytes.Write.{write_at}
use bcmr.Bytes.Digest.{Blake3}
use bcmr.Errors.{
  BcmrError, Result, ok, err, io, other, invalid_input, Exec, pure, raise, ◌>>=◌, ◌>>◌,
}
use bcmr.Protocol.Message
use bcmr.Protocol.Message.{Message, data_plain, data_compressed, have_blocks, missing_blocks, done}
use bcmr.Compress.{Codecs, decode_block}
use bcmr.Cas
use bcmr.Cas.{Blob, Cas, has, evict_to_cap}
use bcmr.Session.Store.{to_hex}

pub record DedupState : Type 0 where
  pub hashes : List Bytes
  pub bits : Bytes
  pub cursor : ℕ

-- `file` is the content of the file and `position` the place of its next write, `hashed` what its
-- hasher was updated with; there is no hasher where the put starts at an offset. `sent` are the
-- messages that were sent back.
pub record PutState : Type 0 where
  pub file : Bytes
  pub position : ℕ
  pub hashed : Option Bytes
  pub written : ℕ
  pub cas : Cas
  pub dedup : Option DedupState
  pub sent : List Message

-- What happens to the server meanwhile: the time; whether the directory and the file can be opened,
-- and flushed, or synced where that was asked for; how much of a block is written where a write
-- fails; which files of the store cannot be written or removed.
pub record Faults : Type 0 where
  pub now : ℕ
  pub opens : Bool
  pub flushes : Bool
  pub cut : ℕ → Option ℕ
  pub unwritable : Bytes → Bool
  pub stuck : Blob → Bool

-- `(bits.get(idx / 8).copied().unwrap_or(0) >> (idx % 8)) & 1 == 1`
unfoldable pub byte_or_zero : Option ℕ → ℕ
byte_or_zero none = 0
byte_or_zero (some b) = b

unfoldable pub is_missing : DedupState → ℕ → Bool
is_missing d idx = byte_or_zero (get_elem? d.bits (idx / 8)) / 2 ^ (idx % 8) % 2 == 1

-- `bits[n] |= 1 << k`
unfoldable pub set_bit : (n k : ℕ) → Bytes → Bytes
set_bit n k [] = []
set_bit zero k (b ∷ bits) = (if b / 2 ^ k % 2 == 1 then b else b + 2 ^ k) ∷ bits
set_bit (suc n) k (b ∷ bits) = b ∷ set_bit n k bits

-- The bits of the hashes from the `i`-th one on are set where the store has no such block.
unfoldable pub mark_missing : Cas → ℕ → List Bytes → Bytes → Bytes
mark_missing cas i [] bits = bits
mark_missing cas i (h ∷ hs) bits =
    mark_missing cas (suc i) hs (if has h cas then bits else set_bit (i / 8) (i % 8) bits)

unfoldable pub advance_cursor : Option DedupState → Option DedupState
advance_cursor none = none
advance_cursor (some d) = some (record d { cursor = d.cursor + 1 })

unfoldable pub update : Bytes → Option Bytes → Option Bytes
update block none = none
update block (some text) = some (text ++ block)

unfoldable pub lift : {S A : Type 0} → Result A → Exec S A
lift r s = (r, s)

module _ (blake3 : Blake3) (codecs : Codecs) (faults : Faults) (declared_size : ℕ) where
  -- In a release build the sum wraps.
  unfoldable pub enforce_write_bound : (written incoming : ℕ) → Result (Unit {0})
  enforce_write_bound written incoming =
      if ltb declared_size ((written + incoming) % 2 ^ 64) then err invalid_input else ok tt

  -- `file.write_all(block).await?; *written += block.len() as u64`
  unfoldable pub write_all : Bytes → Option ℕ → Exec PutState (Unit {0})
  write_all block none st = (
    ok tt,
    record st {
      file = write_at st.position block st.file;
      position = st.position + length block;
      written = (st.written + length block) % 2 ^ 64;
    },
  )
  write_all block (some n) st =
      (err (io other), record st { file = write_at st.position (take n block) st.file })

  unfoldable pub hash_and_write : Bytes → Exec PutState (Unit {0})
  hash_and_write block st =
      write_all block (faults.cut st.position) (record st { hashed = update block st.hashed })

  -- The bound, the hasher and the file, for a block that was received or is in the store.
  unfoldable pub take_block : Bytes → Exec PutState (Unit {0})
  take_block block st =
      (do lift (enforce_write_bound st.written (length block)); hash_and_write block) st

  unfoldable pub cas_read : Bytes → Exec PutState Bytes
  cas_read hash st =
      let (r, after) = Cas.read faults.now hash st.cas in (r, record st { cas = after })

  unfoldable pub next : Exec PutState (Unit {0})
  next st = (ok tt, record st { dedup = advance_cursor st.dedup })

  unfoldable pub take_cached : Bytes → Exec PutState (Unit {0})
  take_cached hash = do cached ← cas_read hash; take_block cached; next

  -- The first loop of `consume_block`, over the hashes from the cursor on.
  unfoldable pub take_cached_while : DedupState → ℕ → List Bytes → Exec PutState (Unit {0})
  take_cached_while d cursor [] = pure tt
  take_cached_while d cursor (h ∷ hs) =
      let later = (do take_cached h; take_cached_while d (suc cursor) hs) in
      if is_missing d cursor then pure tt else later

  -- The result of `cas::write` is not looked at.
  unfoldable pub cas_write : Bytes → Exec PutState (Unit {0})
  cas_write block st =
      let h = blake3.hash block in
      let (_, after) = Cas.write faults.now (faults.unwritable h) h block st.cas in
      (ok tt, record st { cas = after })

  unfoldable pub store_missing : Bytes → Option DedupState → Exec PutState (Unit {0})
  store_missing block none = pure tt
  store_missing block (some d) =
      if ltb d.cursor (length d.hashes) && is_missing d d.cursor
      then (do cas_write block; next)
      else pure tt

  unfoldable pub current : Exec PutState (Option DedupState)
  current st = (ok st.dedup, st)

  unfoldable pub catch_up : Bytes → Option DedupState → Exec PutState (Unit {0})
  catch_up block none = pure tt
  catch_up block (some d) = do
    take_cached_while d d.cursor (drop d.cursor d.hashes)
    now ← current
    store_missing block now

  unfoldable pub consume_block : Bytes → Exec PutState (Unit {0})
  consume_block block = do d ← current; catch_up block d; take_block block

  unfoldable pub flush_loop : DedupState → ℕ → List Bytes → Exec PutState (Unit {0})
  flush_loop d cursor [] = pure tt
  flush_loop d cursor (h ∷ hs) =
      let later = (do take_cached h; flush_loop d (suc cursor) hs) in
      if is_missing d cursor then raise invalid_input else later

  unfoldable pub flush_remaining_cas_blocks : Option DedupState → Exec PutState (Unit {0})
  flush_remaining_cas_blocks none = pure tt
  flush_remaining_cas_blocks (some d) = flush_loop d d.cursor (drop d.cursor d.hashes)

  -- The loop over the messages; `ending` is the error behind the last one, or `none` where the
  -- connection is closed.
  unfoldable pub put_loop : (ending : Option BcmrError) → List Message → Exec PutState (Unit {0})
  put_loop none [] = pure tt
  put_loop (some e) [] = raise e
  put_loop ending (data_plain payload ∷ msgs) = do consume_block payload; put_loop ending msgs
  put_loop ending (data_compressed algo original_size payload ∷ msgs) = do
    block ← lift (decode_block codecs algo original_size payload)
    consume_block block
    put_loop ending msgs
  put_loop ending (done ∷ msgs) = pure tt
  put_loop ending (_ ∷ msgs) = raise invalid_input

  unfoldable pub cap_evicted : (cap_bytes : Option ℕ) → Cas → Cas
  cap_evicted none cas = cas
  cap_evicted (some limit) cas = (evict_to_cap faults.stuck limit cas).left

  -- The first message may announce the hashes of the blocks.
  unfoldable pub announce : (cap_bytes : Option ℕ) → List Bytes → PutState → PutState
  announce cap_bytes hashes st =
      let cas = cap_evicted cap_bytes st.cas in
      let bits = mark_missing cas 0 hashes (replicate ((length hashes + 7) / 8) 0) in
      record st {
        cas = cas;
        dedup = some (record { hashes = hashes; bits = bits; cursor = 0 });
        sent = st.sent ++ (missing_blocks bits ∷ []);
      }

  unfoldable pub receive :
      (cap_bytes : Option ℕ) (offset : ℕ) (ending : Option BcmrError)
      → List Message
      → Exec PutState (Unit {0})
  receive cap_bytes zero ending (have_blocks block_size hashes ∷ msgs) st =
      put_loop ending msgs (announce cap_bytes hashes st)
  receive cap_bytes offset ending msgs st = put_loop ending msgs st

  -- `hasher.map(|h| h.finalize().to_hex().to_string())`
  unfoldable pub reply_hash : Option Bytes → Option Bytes
  reply_hash none = none
  reply_hash (some text) = some (to_hex (blake3.hash text))

  unfoldable pub finish : Exec PutState Message
  finish st =
      if not (st.written == declared_size)
      then (err invalid_input, st)
      else if not faults.flushes
      then (err (io other), st)
      else (ok (Message.ok (reply_hash st.hashed)), st)

  -- `before` is the content of the file that is there, or empty; a put from the beginning replaces
  -- it. A seek behind the range of `i64` fails.
  unfoldable pub start : (offset : ℕ) → Bytes → Cas → PutState
  start zero before cas = record {
    file = [];
    position = 0;
    hashed = some [];
    written = 0;
    cas = cas;
    dedup = none;
    sent = [];
  }
  start (suc n) before cas = record {
    file = before;
    position = suc n;
    hashed = none;
    written = suc n;
    cas = cas;
    dedup = none;
    sent = [];
  }

  -- What `handle_put` does once the file is open.
  unfoldable pub put_opened :
      (cap_bytes : Option ℕ) (offset : ℕ) (ending : Option BcmrError)
      → List Message
      → Exec PutState Message
  put_opened cap_bytes offset ending msgs = do
    receive cap_bytes offset ending msgs
    d ← current
    flush_remaining_cas_blocks d
    finish

  unfoldable pub handle_put :
      (cap_bytes : Option ℕ) (offset : ℕ) (ending : Option BcmrError)
      → List Message
      → (before : Bytes) → Cas
      → Result Message × PutState
  handle_put cap_bytes offset ending msgs before cas =
      let st = start offset before cas in
      if ltb declared_size offset || not (faults.opens && ltb offset (2 ^ 63))
      then (err invalid_input, record st { file = before })
      else put_opened cap_bytes offset ending msgs st
