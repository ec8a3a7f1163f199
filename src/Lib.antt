-- ===== src/Lib.antt =====
-- bcmr copies, moves and removes files, locally or through a server process that it starts on another
-- machine. This library is about the parts that a copy relies on: the messages that client and
-- server exchange, plain or encrypted; the record of an unfinished copy, which survives a crash;
-- the decision where a copy goes on when it is run again; and a server that receives a file.
--
-- Which file is about what:
--   Protocol     src/core/protocol.rs. Message has the messages, Tag their type bytes, Writer and
--                Reader the fields (write_string, Cursor::read_string and the others), Codec
--                encode_message and decode_message, Stream read_message and write_message.
--   Aead         src/core/protocol_aead.rs: make_nonce, encrypt_message, decrypt_message and their
--                use on a connection. The state is the counter.
--   Framing      src/core/framing.rs: a connection that is plain or encrypted, and its halves.
--   Session      src/core/session.rs: Session and its operations, Format has serialize and
--                deserialize, Resume find_resume_offset, Store the files (save, load, remove).
--   Resume       src/core/resume.rs and the hashes of src/core/checksum.rs: resolve. Preallocated is
--                about the destination that src/commands/copy/file_copy.rs leaves.
--   Copy         src/commands/copy_strategies.rs: streaming_copy_sync, the loop that copies a local
--                file and saves its session, and in Start create_session.
--   FileCopy     src/commands/copy/file_copy.rs: copy_file, with try_reflink and finalize of
--                src/commands/copy_strategies.rs, and TempFileGuard and verify_copy of
--                src/commands/copy.rs. Calls has the state and the calls of the system, Names
--                temp_path_for, Range the loop of try_copy_file_range, Modes the options and their
--                words.
--   Compress     src/core/compress.rs, and CompressionAlgo of src/core/protocol.rs.
--   Cas          src/core/cas.rs: the blocks that the server keeps, and their eviction.
--   Serve        src/commands/serve/handlers.rs: Put is handle_put, which receives
--                a file, PutChunked handle_put_chunked, which receives a part of one, Get the
--                handlers that read files, Splice the path of handle_get that does not read them.
--                Jail is validate_path of src/commands/serve.rs, Session run_session of
--                src/commands/serve/session.rs over an interface of handlers, which
--                Session/Served fills with these, and Caps the capabilities.
--   Client       src/core/serve_client.rs and src/core/serve_client/: Handshake is
--                handshake_with_key, Get get_chunked, Hex decode_hex32, Ranges divide_ranges,
--                Striped striped_get_file, Put put_chunked,
--                Dedup put_with_dedup and compute_block_hashes.
--   Errors       src/core/error.rs, as far as it is used, and code that changes a state and may fail.
--   Bytes        machine words, byte strings, UTF-8, and the hash function.
--   Paths        comparison of paths as in std::path.
--   Prelude      names from the library, tests on numbers, and lists over the native numbers.
--   Examples     the theorems at concrete inputs, and runs.
--
-- A byte is a number below 256, a u32 or a u64 a number below 2 ^ 32 or 2 ^ 64, which predicates say
-- (IsMessage, IsSession); where the source narrows or wraps, the remainder is written out. Code that
-- reads returns an Option, code that fails a Result with the state it leaves. A stream is what the
-- peer has sent and whether it then breaks; a sink is what was sent and whether it is closed. The
-- file system is a function from paths to contents, and each of its calls that may fail is an
-- argument that says whether it does (Faults, Machine, OpenFile, SourceFile, DestFile, SpliceFile).
--
-- Parameters: the AES-256-GCM of the crate ring (Aead.Cipher, with its laws IsLawful and
-- IsAuthentic), BLAKE3 (Bytes.Digest), the compressors lz4_flex and zstd (Compress.Codecs, with their
-- law IsLossless), the session directory, the time, and the sizes of a block and of the pieces that
-- a copy looks at for zeros. Loops run over the messages, the hashes or the parts that they are
-- given; fuel is needed where the source reads until it has enough: place_pieces has the length of
-- the part, the loops that read a file (range_loop and those of Serve/Get and Serve/Splice) its
-- length and one more or the bytes that were asked for, since each round takes a byte, and
-- session_loop one more than there are messages. That a file does not change while it is read is
-- said by IsSteady and IsSplicing.
--
-- A write through tokio's File returns before its bytes are in the file. In Client/Get the write on
-- its way is part of the state, and its end and its error come with the next one, or after
-- get_chunked has returned (landed); write_all has the length of a part as fuel. In Serve/PutChunked
-- the file is what it is once the writes have landed.
--
-- Not modelled: the test modes of a local copy (--test-mode), the text of error messages, logging,
-- permissions and fsync beyond that they may fail, extended attributes, scrubbing of keys from
-- memory; and, of the program, the client's other operations, the handlers that only ask the file
-- system (stat, list, mkdir, truncate), the rendezvous for direct TCP, directory walks, remote
-- shells, the command line and the user
-- interface.
pub mod Prelude
pub mod Bytes
pub mod Errors
pub mod Paths
pub mod Protocol
pub mod Aead
pub mod Framing
pub mod Session
pub mod Resume
pub mod Copy
pub mod FileCopy
pub mod Compress
pub mod Cas
pub mod Serve
pub mod Client
pub mod Examples
