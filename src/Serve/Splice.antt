-- ===== src/Serve/Splice.antt =====
-- `handle_get_splice_linux` and `splice_n` of src/commands/serve/handlers.rs, by which `handle_get`
-- sends a file without reading it. The size of a chunk is a parameter; the pipe between the two
-- calls of `splice` is drained before the next one is made.
pub mod Framed
use bcmr.Prelude.{
  ℕ, zero, suc, ◌+◌, ◌-◌, ◌%◌, ◌^◌, ltb, if◌then◌else◌, not, Bool, true, false, ◌&&◌,
}
use bcmr.Prelude.{Option, none, some, [], ◌∷◌, ◌++◌, length, take, drop}
use Prim.Native.Nat.{min}
use bcmr.Bytes.Word.{Bytes}
use bcmr.Errors.{Result, ok, err, io, other, unexpected_eof, Exec, pure, raise, ◌>>=◌, ◌>>◌}
use bcmr.Protocol.Writer.{write_u32_le}
use bcmr.Protocol.Stream.{Sink, write_all}
use bcmr.Compress.{CompressionAlgo, uncompressed}

-- `size` is the length in the metadata, `gets` how much a call of `splice` at an offset takes, as
-- far as it was asked for and is there, or `none` where it fails.
pub record SpliceFile : Type 0 where
  pub content : Bytes
  pub size : Option ℕ
  pub pipes : Bool
  pub gets : ℕ → Option ℕ

unfoldable pub is_uncompressed : CompressionAlgo → Bool
is_uncompressed uncompressed = true
is_uncompressed _ = false

-- Whether `handle_get` splices.
unfoldable pub splices : (fast : Bool) → CompressionAlgo → (allow_splice is_aead : Bool) → Bool
splices fast algo allow_splice is_aead = fast && is_uncompressed algo && allow_splice && not is_aead

-- What a call took is sent; where it took nothing, the file has ended too early.
unfoldable pub splice_part : (later : ℕ → Exec Sink (Unit {0})) → Bytes → Exec Sink (Unit {0})
splice_part later [] = raise (io unexpected_eof)
splice_part later (b ∷ bs) = do write_all (b ∷ bs); later (length (b ∷ bs))

unfoldable pub splice_got :
    SpliceFile → (at want : ℕ) (later : ℕ → Exec Sink (Unit {0})) → Option ℕ → Exec Sink (Unit {0})
splice_got file at want later none = raise (io other)
splice_got file at want later (some k) =
    splice_part later (take (min k want) (drop at file.content))

-- Each round takes a byte, so that it makes at most as many as there are bytes to move.
unfoldable pub splice_n : (fuel : ℕ) → SpliceFile → (at n : ℕ) → Exec Sink (Unit {0})
splice_n fuel file at zero = pure tt
splice_n zero file at (suc n) = pure tt
splice_n (suc fuel) file at (suc n) =
    splice_got file at (suc n) (λ got. splice_n fuel file (at + got) (suc n - got)) (file.gets at)

unfoldable pub data_header : (chunk : ℕ) → Bytes
data_header chunk = write_u32_le ((5 + chunk) % 2 ^ 32) ++ (0x84 ∷ write_u32_le (chunk % 2 ^ 32))

unfoldable pub ok_frame : Bytes
ok_frame = write_u32_le 2 ++ (0x82 ∷ 0 ∷ [])

module _ (chunk_size : ℕ) where
  -- The loop while bytes remain; each round sends a chunk.
  unfoldable pub splice_loop : (fuel : ℕ) → SpliceFile → (at remaining : ℕ) → Exec Sink (Unit {0})
  splice_loop fuel file at zero = pure tt
  splice_loop zero file at (suc r) = pure tt
  splice_loop (suc fuel) file at (suc r) =
      let chunk = min (suc r) chunk_size in
      do
        write_all (data_header chunk)
        splice_n chunk file at chunk
        splice_loop fuel file (at + chunk) (suc r - chunk)

  unfoldable pub splice_sized : SpliceFile → (offset : ℕ) → Option ℕ → Exec Sink (Unit {0})
  splice_sized file offset none = raise (io other)
  splice_sized file offset (some size) =
      if file.pipes
      then (do splice_loop (size - offset) file offset (size - offset); write_all ok_frame)
      else raise (io other)

  unfoldable pub handle_get_splice_linux : (offset : ℕ) → Option SpliceFile → Exec Sink (Unit {0})
  handle_get_splice_linux offset none = raise (io other)
  handle_get_splice_linux offset (some file) =
      if ltb offset (2 ^ 63) then splice_sized file offset file.size else raise (io other)
