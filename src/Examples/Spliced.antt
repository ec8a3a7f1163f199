-- ===== src/Examples/Spliced.antt =====
-- A file of six bytes that is spliced in two chunks.
use bcmr.Prelude.{
  ℕ, Option, ◌≢◌, ◌≡◌, refl, arith, true, false, none, some, List, [], ◌∷◌, ◌++◌, drop, concat,
}
use bcmr.Bytes.Word.{Bytes}
use bcmr.Errors.{ok}
use bcmr.Protocol.Message
use bcmr.Protocol.Writer
use bcmr.Protocol.Codec.{encode_message}
use bcmr.Protocol.Stream.{Sink}
use bcmr.Compress.{uncompressed}
use bcmr.Serve.Get.Parts.{frames, Chunks}
use bcmr.Serve.Splice.{SpliceFile, handle_get_splice_linux}
use bcmr.Serve.Splice.Framed.{IsSplicing, handle_get_splice_linux-frames}
use bcmr.Examples.Server.{copying}

abbrev spliced : SpliceFile
spliced = record {
  content = 1 ∷ 2 ∷ 3 ∷ 4 ∷ 5 ∷ 6 ∷ [];
  size = some 6;
  pipes = true;
  gets = λ at. some 3;
}

spliced-IsSplicing : IsSplicing spliced
spliced-IsSplicing = record { works = λ at e. cc; moves = λ at h e. differs e }
  where
    differs : ◌≢◌ {A = Option ℕ} (some 3) (some 0)
    differs e = absurd (ground (arith, e))

abbrev connection : Sink
connection = record { sent = []; closed = false }

handle_get_splice_linux-frames_example :
    (parts : List Bytes) × (handle_get_splice_linux 4 1 (some spliced) connection ≡ (
      ok tt,
      record connection {
        sent =
            []
            ++ Writer.write_all encode_message
                (frames copying uncompressed parts ++ (Message.ok none ∷ []));
      },
    ))
    × (concat parts ≡ drop 1 spliced.content)
    × Chunks 4 parts
handle_get_splice_linux-frames_example =
    handle_get_splice_linux-frames spliced spliced-IsSplicing copying 4 (omega arith) 1 connection
      (omega arith) refl refl refl
