-- ===== src/Examples/Upload.antt =====
-- Uploads in blocks of three bytes: to a server that has kept the second one, and of a part.
use bcmr.Prelude.{ℕ, ◌≡◌, ◌≢◌, ◌⊎◌, refl, sym, ap, ◌∙◌, arith, true, false, inl, inr}
use bcmr.Prelude.{none, some, List, [], ◌∷◌, ◌++◌, length, take, drop}
use bcmr.Bytes.Word.{Bytes}
use bcmr.Bytes.Read.{ReadFile}
use bcmr.Errors.{ok}
use bcmr.Protocol.Message.{Message, missing_blocks, done}
use bcmr.Compress.{lz4}
use bcmr.Session.Store.{to_hex}
use bcmr.Cas.{Cas}
use bcmr.Serve.Put.{PutState, handle_put}
use bcmr.Serve.Put.Kept.{Apart}
use bcmr.Bytes.Write.{overlay}
use bcmr.Serve.PutChunked.{ChunkState, handle_put_chunked}
use bcmr.Client.Put.{put_chunked}
use bcmr.Client.Put.Received.{put_chunked-handle_put_chunked}
use bcmr.Client.Dedup.{put_with_dedup}
use bcmr.Client.Dedup.Blocks.{file_blocks, cut}
use bcmr.Client.Dedup.Kept.{put_with_dedup-handle_put}
use bcmr.Examples.Toy.{toy_blake3}
use bcmr.Examples.Server.{copying, copying-IsLossless, no_faults, calm}

abbrev local : ReadFile
local = record { content = 1 ∷ 2 ∷ 3 ∷ 4 ∷ 5 ∷ []; fails = λ _. false; amount = λ _ _. 1 }

abbrev kept : Cas
kept = record { hash = toy_blake3.hash (4 ∷ 5 ∷ []); content = 4 ∷ 5 ∷ []; mtime = 1 } ∷ []

abbrev Known : Bytes → Type 0
Known x = (x ≡ 1 ∷ 2 ∷ 3 ∷ []) ⊎ (x ≡ 4 ∷ 5 ∷ [])

abbrev first : Bytes → ℕ
first [] = 0
first (x ∷ xs) = x

lengths_differ :
    (x y : Bytes) → x ≡ 1 ∷ 2 ∷ 3 ∷ [] → y ≡ 4 ∷ 5 ∷ [] → toy_blake3.hash x ≢ toy_blake3.hash y
lengths_differ x y p q e =
    let three_is_two : 3 ≡ 2 =
      sym (ap (λ (z : Bytes). first (toy_blake3.hash z)) p)
      ∙ ap first e
      ∙ ap (λ (z : Bytes). first (toy_blake3.hash z)) q in
    absurd (omega (arith, three_is_two))

Known-Apart : Apart toy_blake3 Known
Known-Apart x y (inl p) (inl q) e = p ∙ sym q
Known-Apart x y (inl p) (inr q) e = absurd (lengths_differ x y p q e)
Known-Apart x y (inr p) (inl q) e = absurd (lengths_differ y x q p (sym e))
Known-Apart x y (inr p) (inr q) e = p ∙ sym q

put_with_dedup-handle_put_example :
    (bits : Bytes) × (sent : List Message) × (t : PutState) × (put_with_dedup toy_blake3 copying 3
        lz4
        (some local)
        (ok (missing_blocks bits))
        []
      ≡ (ok tt, sent))
    × (handle_put toy_blake3 copying no_faults
          (length local.content)
          none
          0
          none
          (sent ++ (done ∷ []))
          (9 ∷ [])
          kept
        ≡ (ok (Message.ok (some (to_hex (toy_blake3.hash local.content)))), t))
    × (t.sent ≡ missing_blocks bits ∷ [])
    × (t.file ≡ local.content)
unfolding file_blocks cut take drop
put_with_dedup-handle_put_example =
    put_with_dedup-handle_put toy_blake3 copying copying-IsLossless Known Known-Apart 3
      (omega arith) (omega arith) lz4 no_faults calm none none local (9 ∷ []) kept (λ _. refl)
      (omega arith) (refl, tt) (inr refl, tt) (inl refl, (inr refl, tt))

put_chunked-handle_put_chunked_example :
    (msgs : List Message) × (t : ChunkState) × (put_chunked copying 3 lz4
        (b'f' ∷ [])
        1
        3
        (some local)
        (ok (Message.ok none))
        []
      ≡ (ok tt, Message.put_chunked (b'f' ∷ []) 1 3 ∷ msgs))
    × (handle_put_chunked copying no_faults 3 true 1 none msgs (9 ∷ 9 ∷ [])
        ≡ (ok (Message.ok none), t))
    × (t.file ≡ overlay (take 1 (9 ∷ 9 ∷ []) ++ take 3 (drop 1 local.content)) (9 ∷ 9 ∷ []))
put_chunked-handle_put_chunked_example =
    put_chunked-handle_put_chunked toy_blake3 copying copying-IsLossless 3 (omega arith)
      (omega arith) lz4 no_faults calm (b'f' ∷ []) true 1 3 local none (9 ∷ 9 ∷ []) (λ _. refl)
      (omega arith) (omega arith) (omega arith) (omega arith)
