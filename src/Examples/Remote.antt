-- ===== src/Examples/Remote.antt =====
-- A client and a server: files in chunks of two bytes, and sessions.
use bcmr.Prelude.{◌≡◌, ◌≤◌, ◌⊎◌, refl, sym, ap, ◌∙◌, arith, true, false, ◌&&◌}
use bcmr.Prelude.{if◌then◌else◌, Bool-cases, inl, inr}
use bcmr.Prelude.{none, some, List, [], ◌∷◌, ◌++◌, length, take, drop, concat}
use bcmr.Bytes.Word.{Bytes}
use bcmr.Bytes.Equal.{bytes_eq}
use bcmr.Bytes.Read.{ReadFile}
use bcmr.Bytes.Write.{overlay, set_len}
use bcmr.Errors.{BcmrError, Result, ok, err, invalid_input}
use bcmr.Paths.{Component, root_dir, normal, components, component_eq}
use bcmr.Protocol.Message.{Message, protocol_version, hash_response, hello, data_plain}
use bcmr.Compress.{lz4, uncompressed, negotiate, has_cap}
use bcmr.Session.Store.{to_hex}
use bcmr.Serve.Get.{handle_hash, handle_get, handle_get_chunked, reply_hash}
use bcmr.Serve.Get.Hashed.{limited, handle_hash-hash}
use bcmr.Serve.Get.Parts.{frames, Chunks, handle_get-frames}
use bcmr.Serve.Get.Chunked.{handle_get_chunked-ends}
use bcmr.Serve.Caps.{bit_and, cap_aead, cap_dedup, without_cap}
use bcmr.Serve.Jail.{Disk, has_nul, climbs, validate_path, jailed, or_fails, starts_with}
use bcmr.Serve.Jail.{canonicalize_with_ancestor}
use bcmr.Serve.Jail.Inside.{IsCanonical, validate_path-jailed}
use bcmr.Serve.Session.{Conn, Handlers, session_loop, run_session, offered, is_some_key}
use bcmr.Serve.Session.{max_rendezvous_per_session}
use bcmr.Serve.Session.Served.{Host, served}
use bcmr.Serve.Session.Sealed.{Refused, Secured, run_session-Secured}
use bcmr.Serve.Session.Limited.{session_loop-AtMost}
use bcmr.Client.Striped.{digest, striped_get_file, striped_get_file-digest}
use bcmr.Client.Get.{GetState, LocalFaults, landed, get_chunked}
use bcmr.Client.Get.Fetched.{get_chunked-handle_get_chunked}
use bcmr.Client.Handshake.{
  Client, secured, switch_on, handshake_with_key, handshake_with_key-agrees,
}
use bcmr.Examples.Toy.{toy_blake3}
use bcmr.Examples.Server.{copying, copying-IsLossless, no_faults}

-- Five bytes, of which each read returns one.
abbrev remote : ReadFile
remote = record { content = 1 ∷ 2 ∷ 3 ∷ 4 ∷ 5 ∷ []; fails = λ _. false; amount = λ _ _. 1 }

handle_hash-hash_example :
    handle_hash toy_blake3 2 1 (some 3) (some remote)
    ≡ ok (hash_response (to_hex (toy_blake3.hash (limited (some 3) (drop 1 remote.content)))))
handle_hash-hash_example =
    handle_hash-hash toy_blake3 2 (omega arith) remote (λ _. refl) 1 (some 3) (omega arith)

handle_get-frames_example :
    (parts : List Bytes) × (handle_get toy_blake3 copying 2 lz4 1 false (some remote) [] ≡ (
      ok tt,
      frames copying lz4 parts
          ++ (Message.ok (reply_hash toy_blake3 copying 2 lz4 false (drop 1 remote.content)) ∷ []),
    ))
    × (concat parts ≡ drop 1 remote.content)
    × Chunks 2 parts
handle_get-frames_example =
    handle_get-frames toy_blake3 copying 2 lz4 (omega arith) remote (λ _. refl) 1 false
      (omega arith)

handle_get_chunked-ends_example :
    (parts : List Bytes) × (handle_get_chunked toy_blake3 copying 2 lz4 3 3 (some remote) []
      ≡ (err invalid_input, frames copying lz4 parts))
    × (concat parts ≡ take 3 (drop 3 remote.content))
    × Chunks 2 parts
handle_get_chunked-ends_example =
    handle_get_chunked-ends toy_blake3 copying 2 lz4 (omega arith) remote (λ _. refl) 3 3
      (omega arith) (omega arith) (omega arith)

abbrev local_faults : LocalFaults
local_faults = record { opens = true; cut = λ _. none; buffer = 2 }

get_chunked-handle_get_chunked_example :
    (sent : List Message) × (handle_get_chunked toy_blake3 copying 2 lz4 1 3 (some remote) []
      ≡ (ok tt, sent))
    × ((t : GetState) × (get_chunked copying local_faults 3 1 none sent (9 ∷ 9 ∷ []) ≡ (ok tt, t))
        × (landed local_faults t
            ≡ overlay (take 1 (9 ∷ 9 ∷ []) ++ take 3 (drop 1 remote.content)) (9 ∷ 9 ∷ [])))
get_chunked-handle_get_chunked_example =
    get_chunked-handle_get_chunked toy_blake3 copying copying-IsLossless local_faults
      (record { opens = refl; whole = λ _. refl; buffered = omega arith }) 2 (omega arith)
      (omega arith) remote (λ _. refl) lz4 none 1 1 3 (9 ∷ 9 ∷ []) (omega arith) (omega arith)
      (omega arith) (omega arith) (omega arith)

-- The last byte has not landed when the file is hashed.
abbrev seen : Bytes → Result Bytes
seen content = ok (take 4 content)

striped_get_file-digest_example :
    striped_get_file toy_blake3 copying local_faults 2 lz4
      (λ e. [])
      seen
      (some remote)
      3
      (length remote.content)
      (9 ∷ [])
    ≡ (ok (toy_blake3.hash (1 ∷ 2 ∷ 3 ∷ 4 ∷ [])), remote.content)
unfolding digest take
striped_get_file-digest_example =
    striped_get_file-digest toy_blake3 copying copying-IsLossless local_faults
      (record { opens = refl; whole = λ _. refl; buffered = omega arith }) 2 (omega arith)
      (omega arith) lz4 (λ e. []) seen remote (λ _. refl) (omega arith) 3 (9 ∷ []) (omega arith)

-- Every path exists and is canonical, but for those that go up.
abbrev disk : Disk
disk = record {
  exists = λ path. true;
  canonicalize = λ path. if climbs path then none else some path;
  current_dir = none;
}

disk-IsCanonical : IsCanonical disk
disk-IsCanonical = record {
  resolved = λ path p e. elim (Bool-cases (climbs path)) [
    | inl up ↦ absurd (ground (arith, up, e))
    | inr down ↦
        let same : path ≡ p = ground (arith, down, e) in
        ap (λ (x : List Component). climbs x) (sym same) ∙ down
  ];
  current = λ p e. cc;
}

abbrev jail : List Component
jail = root_dir ∷ normal (b'a' ∷ []) ∷ []

abbrev inside : Bytes
inside = b'/' ∷ b'a' ∷ b'/' ∷ b'b' ∷ []

validate_path-jailed_example :
    ((rest : List Component) × (components inside ≡ jail ++ rest))
    × (climbs (components inside) ≡ false)
    × (climbs (components inside) ≡ false)
    × (has_nul inside ≡ false)
unfolding validate_path has_nul climbs jailed canonicalize_with_ancestor or_fails starts_with
    component_eq components bytes_eq
validate_path-jailed_example =
    validate_path-jailed disk disk-IsCanonical inside jail (components inside) refl

-- A server with one file, which is its world; it keeps no blocks.
abbrev host : Host Bytes
host = record {
  stat = λ p w. (ok (Message.ok none), w);
  list = λ p w. (ok (Message.ok none), w);
  mkdir = λ p w. (err invalid_input, w);
  truncate = λ p size w. (ok (Message.ok none), set_len size w);
  channel = λ w. (ok (Message.ok none), w);
  opened = λ p w. some (record { content = w; fails = λ _. false; amount = λ _ n. n });
  size = λ p w. some (length w);
  content = λ p w. w;
  stored = λ p content w. content;
  cas = λ w. [];
  kept = λ store w. w;
  cap_bytes = none;
  faults = λ sync w. no_faults;
  put_taken = λ msgs. length msgs;
}

abbrev handlers : Handlers Bytes
handlers = served toy_blake3 copying 2 host

abbrev no_text : BcmrError → Bytes
no_text e = []

abbrev key : Bytes
key = 7 ∷ []

-- A client that asks for encryption, uploads a file of three bytes and fetches it from its second
-- byte on.
abbrev connection : Conn Bytes
connection = record {
  world = [];
  incoming =
      hello protocol_version 0x60
      ∷ Message.put_chunked inside 0 3
      ∷ data_plain (1 ∷ 2 ∷ 3 ∷ [])
      ∷ Message.get inside 1
      ∷ [];
  ended = none;
  sealed = false;
  sent = [];
  tasks = 0;
}

run_session-Secured_example :
    let after = (run_session disk jail no_text handlers 5 true true (some key) connection).1 in
    Refused disk jail no_text handlers connection after ⊎ Secured disk jail no_text handlers after
run_session-Secured_example =
    run_session-Secured disk jail no_text handlers 5 true true key connection refl refl

-- A client that asks for three more channels when there is room for one.
abbrev crowded : Conn Bytes
crowded = record {
  world = [];
  incoming =
      Message.open_direct_channel ∷ Message.open_direct_channel ∷ Message.open_direct_channel ∷ [];
  ended = none;
  sealed = true;
  sent = [];
  tasks = 15;
}

session_loop-AtMost_example :
    (session_loop disk jail no_text handlers 4 0x60 true crowded).1.tasks
    ≤ max_rendezvous_per_session
session_loop-AtMost_example =
    session_loop-AtMost disk jail no_text handlers 4 0x60 true crowded (omega arith)

abbrev fresh : Client
fresh = record { algo = uncompressed; dedup_enabled = false; sealed = false }

abbrev settled : Client
settled = record { algo = lz4; dedup_enabled = true; sealed = true }

handshake_with_key-agrees_example :
    let granted_caps = bit_and 8 (offered false (some key)) 0x45 in
    (settled.algo ≡ negotiate granted_caps granted_caps)
    × (settled.dedup_enabled ≡ has_cap granted_caps cap_dedup)
    × (settled.sealed ≡ has_cap granted_caps cap_aead)
    × (settled.sealed ≡ is_some_key (some key))
    × (settled.sealed ≡ settled.sealed && is_some_key (some key))
unfolding handshake_with_key bit_and offered is_some_key without_cap has_cap negotiate secured
    switch_on
handshake_with_key-agrees_example =
    handshake_with_key-agrees 1 0x45 false (some key) (some key) fresh settled refl refl
