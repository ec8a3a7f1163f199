-- ===== src/Examples/Server.antt =====
-- Blocks that are compressed, kept and received.
use bcmr.Prelude.{ℕ, ◌%◌, ◌^◌, ◌≡◌, refl, arith, Bool, true, false}
use bcmr.Prelude.{none, some, List, [], ◌∷◌, ◌++◌, length, take, drop, concat}
use mathlib.Core.List.{Perm}
use bcmr.Bytes.Word.{Bytes}
use bcmr.Bytes.Equal.{bytes_eq}
use bcmr.Bytes.Write.{write_at}
use bcmr.Errors.{Result, ok, ◌>>=◌}
use bcmr.Protocol.Message.{Message, data_plain, have_blocks, done}
use bcmr.Session.Store.{to_hex}
use bcmr.Compress.{Codecs, IsLossless, lz4, zstd}
use bcmr.Cas
use bcmr.Cas.{
  Blob, Cas, total, evict_to_cap, served, find, touch, has, is_some, evict_loop, keep, insert, sort,
}
use bcmr.Cas.Evict.{Older, evict_to_cap-Older}
use bcmr.Cas.Addressed.{IsAddressed}
use bcmr.Serve.Put
use bcmr.Serve.Put.{PutState, Faults, handle_put}
use bcmr.Serve.Put.Delivered.{block_messages, IsCalm, handle_put-block_messages}
use bcmr.Serve.PutChunked.{ChunkState, handle_put_chunked}
use bcmr.Serve.PutChunked.Unread.{written_blocks, handle_put_chunked-unread}
use bcmr.Serve.Put.Hashed.{handle_put-hash}
use bcmr.Serve.Put.Stored.{handle_put-IsAddressed}
use bcmr.Examples.Toy.{toy_blake3}

-- Both compressors copy.
abbrev pub copying : Codecs
copying = record {
  lz4_compress = λ raw. raw;
  lz4_decompress = λ encoded size. some encoded;
  zstd_compress = λ raw. some raw;
  zstd_decompress = λ encoded size. some encoded;
}

pub copying-IsLossless : IsLossless copying
copying-IsLossless = record { by_lz4 = λ raw. refl; by_zstd = λ raw encoded e. cc }

abbrev blob : Bytes → ℕ → Blob
blob content mtime = record { hash = toy_blake3.hash content; content = content; mtime = mtime }

abbrev store : Cas
store = blob (1 ∷ 2 ∷ []) 30 ∷ blob (3 ∷ []) 10 ∷ blob (4 ∷ 5 ∷ 6 ∷ []) 20 ∷ []

store-IsAddressed : IsAddressed toy_blake3 store
store-IsAddressed = (refl, (refl, (refl, tt)))

abbrev never : Blob → Bool
never b = false

evict_to_cap-Older_example :
    (gone : Cas) × Perm store (gone ++ (evict_to_cap never 4 store).left)
    × Older gone (evict_to_cap never 4 store).left
    × ((evict_to_cap never 4 store).freed ≡ total gone)
evict_to_cap-Older_example = evict_to_cap-Older never 4 store (λ b. refl)

read_three : (Cas.read 99 (toy_blake3.hash (3 ∷ [])) store).0 ≡ ok (3 ∷ [])
unfolding Cas.read served find bytes_eq
read_three = refl

abbrev pub no_faults : Faults
no_faults = record {
  now = 99;
  opens = true;
  flushes = true;
  cut = λ position. none;
  unwritable = λ hash. false;
  stuck = never;
}

-- A block of one byte that the server has, one of two bytes that it has too, and one of four that it
-- has not.
abbrev msgs : List Message
msgs =
    have_blocks 4 (
      toy_blake3.hash (3 ∷ [])
      ∷ toy_blake3.hash (1 ∷ 2 ∷ [])
      ∷ toy_blake3.hash (7 ∷ 7 ∷ 7 ∷ 7 ∷ [])
      ∷ [])
    ∷ data_plain (7 ∷ 7 ∷ 7 ∷ 7 ∷ [])
    ∷ done
    ∷ []

abbrev outcome : Result Message × PutState
outcome = handle_put toy_blake3 copying no_faults 7 none 0 none msgs [] store

abbrev reply : Message
reply = Message.ok (some (to_hex (toy_blake3.hash (3 ∷ 1 ∷ 2 ∷ 7 ∷ 7 ∷ 7 ∷ 7 ∷ []))))

abbrev received : PutState
received = outcome.1

put_run : outcome ≡ (ok reply, received)
unfolding handle_put Put.put_opened Put.receive Put.put_loop Put.consume_block Put.current
    Put.catch_up Put.announce Put.take_cached_while Put.is_missing Put.byte_or_zero Put.mark_missing
    Put.cap_evicted Put.advance_cursor Put.cas_read Put.cas_write Put.enforce_write_bound Put.finish
    Put.flush_loop Put.flush_remaining_cas_blocks Put.hash_and_write Put.lift Put.next
    Put.reply_hash Put.set_bit Put.start Put.store_missing Put.take_block Put.take_cached Put.update
    Put.write_all write_at Cas.read Cas.write served find touch has is_some bytes_eq to_hex take
    drop ◌>>=◌
put_run = refl

handle_put-hash_example :
    (reply ≡ Message.ok (some (to_hex (toy_blake3.hash received.file))))
    × (length received.file % 2 ^ 64 ≡ 7)
handle_put-hash_example =
    handle_put-hash toy_blake3 copying no_faults 7 none none msgs [] store reply received put_run

handle_put-IsAddressed_example :
    IsAddressed toy_blake3
      (handle_put toy_blake3 copying no_faults 7 none 0 none msgs [] store).1.cas
handle_put-IsAddressed_example =
    handle_put-IsAddressed toy_blake3 copying no_faults 7 none 0 none msgs [] store
      store-IsAddressed

pub calm : IsCalm no_faults
calm = record { opens = refl; flushes = refl; whole = λ position. refl }

abbrev blocks : List Bytes
blocks = (1 ∷ 2 ∷ []) ∷ (3 ∷ 4 ∷ 5 ∷ []) ∷ []

handle_put-block_messages_example :
    (t : PutState) × (handle_put toy_blake3 copying no_faults 5 none 0 none
        (block_messages copying lz4 blocks)
        (9 ∷ [])
        store
      ≡ (ok (Message.ok (some (to_hex (toy_blake3.hash (concat blocks))))), t))
    × (t.file ≡ concat blocks)
unfolding concat
handle_put-block_messages_example =
    handle_put-block_messages toy_blake3 copying no_faults 5 calm (omega arith) copying-IsLossless
      lz4 none store none blocks (9 ∷ []) (omega arith, (omega arith, tt)) refl

handle_put_chunked-unread_example :
    (t : ChunkState) × (handle_put_chunked copying no_faults 5 true 100 none
        (block_messages copying zstd blocks)
        []
      ≡ (ok (Message.ok none), t))
    × (t.unread ≡ done ∷ [])
    × (t.file ≡ written_blocks 100 blocks [])
unfolding concat
handle_put_chunked-unread_example =
    handle_put_chunked-unread copying no_faults 5 calm (omega arith) copying-IsLossless zstd none
      true 100 blocks [] (omega arith)
      ((omega arith, omega arith), ((omega arith, omega arith), tt)) refl
