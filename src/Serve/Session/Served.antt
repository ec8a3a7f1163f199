-- ===== src/Serve/Session/Served.antt =====
-- The handlers of src/commands/serve/handlers.rs that a session runs, as Serve/Put, Serve/PutChunked
-- and Serve/Get model them. Those that only ask the file system are arguments, as is
-- `handle_open_direct_channel` of src/commands/serve/rendezvous.rs.
use bcmr.Prelude.{ℕ, ◌-◌, Bool, true, Option, List, [], length}
use bcmr.Bytes.Word.{Bytes}
use bcmr.Bytes.Read.{ReadFile}
use bcmr.Bytes.Digest.{Blake3}
use bcmr.Errors.{Result}
use bcmr.Paths.{Component}
use bcmr.Protocol.Message.{Message}
use bcmr.Compress.{Codecs, uncompressed}
use bcmr.Cas.{Cas}
use bcmr.Serve.Put.{Faults, handle_put}
use bcmr.Serve.PutChunked.{handle_put_chunked}
use bcmr.Serve.Get.{handle_get, handle_get_chunked, handle_hash, handle_resume}
use bcmr.Serve.Session.{Handler, Handlers}

-- What the server runs on. `opened` is what opening a file to read it finds, `size` its length in
-- the metadata and `content` its content, or empty; `stored` and `kept` change a file and the
-- store; `put_taken` is how many of the incoming messages `handle_put` takes.
pub record Host (W : Type 0) : Type 0 where
  pub stat : List Component → W → Result Message × W
  pub list : List Component → W → Result Message × W
  pub mkdir : List Component → W → Result Message × W
  pub truncate : List Component → (size : ℕ) → W → Result Message × W
  pub channel : W → Result Message × W
  pub opened : List Component → W → Option ReadFile
  pub size : List Component → W → Option ℕ
  pub content : List Component → W → Bytes
  pub stored : List Component → Bytes → W → W
  pub cas : W → Cas
  pub kept : Cas → W → W
  pub cap_bytes : Option ℕ
  pub faults : (sync : Bool) → W → Faults
  pub put_taken : List Message → ℕ

module _ {W : Type 0} (blake3 : Blake3) (codecs : Codecs) (chunk_size : ℕ) (host : Host W) where
  -- A handler that takes nothing from the connection and only returns its answer.
  unfoldable pub alone : (W → Result Message × W) → Handler W Message
  alone run msgs ended w =
      let (r, after) = run w in (r, record { world = after; taken = 0; replies = [] })

  -- One that reads a file and sends its messages itself.
  unfoldable pub sends : (W → Result (Unit {0}) × List Message) → Handler W (Unit {0})
  sends run msgs ended w =
      let (r, sent) = run w in (r, record { world = w; taken = 0; replies = sent })

  unfoldable pub receives : List Component → (size offset : ℕ) (sync : Bool) → Handler W Message
  receives p size offset sync msgs ended w =
      let (r, st) =
        handle_put blake3 codecs (host.faults sync w) size host.cap_bytes offset ended msgs
          (host.content p w) (host.cas w) in
      (
        r,
        record {
          world = host.kept st.cas (host.stored p st.file w);
          taken = host.put_taken msgs;
          replies = st.sent;
        },
      )

  unfoldable pub receives_part :
      List Component → (offset size : ℕ) (sync : Bool) → Handler W Message
  receives_part p offset size sync msgs ended w =
      let (r, st) =
        handle_put_chunked codecs (host.faults sync w) size sync offset ended msgs
          (host.content p w) in
      (
        r,
        record {
          world = host.stored p st.file w;
          taken = length msgs - length st.unread;
          replies = [];
        },
      )

  -- What is spliced are the bytes of the messages without compression and without a digest.
  abbrev pub served : Handlers W
  served = record {
    stat = λ p. alone (host.stat p);
    list = λ p. alone (host.list p);
    hash = λ p offset limit.
        alone (λ w. (handle_hash blake3 chunk_size offset limit (host.opened p w), w));
    put = receives;
    put_chunked = receives_part;
    mkdir = λ p. alone (host.mkdir p);
    truncate = λ p size. alone (host.truncate p size);
    resume =
        λ p. alone (λ w. (handle_resume blake3 chunk_size (host.size p w) (host.opened p w), w));
    get = λ p offset algo fast.
        sends (λ w. handle_get blake3 codecs chunk_size algo offset fast (host.opened p w) []);
    get_spliced = λ p offset.
        sends
          (λ w. handle_get blake3 codecs chunk_size uncompressed offset true (host.opened p w) []);
    get_chunked = λ p offset size algo.
        sends
          (λ w. handle_get_chunked blake3 codecs chunk_size algo offset size (host.opened p w) []);
    open_direct_channel = alone host.channel;
  }
