-- ===== src/Client/Handshake.antt =====
-- `handshake_with_key` of src/core/serve_client.rs, and its agreement with `run_session` of
-- src/commands/serve/session.rs.
use bcmr.Prelude.{ℕ, ◌^◌, ◌<◌, ◌≡◌, refl, sym, ap, ◌∙◌, arith, Bool, true, false, ◌&&◌}
use bcmr.Prelude.{Option, none, some}
use bcmr.Bytes.Word.{Bytes}
use bcmr.Errors.{Result, ok, err, invalid_input, crypto_failure, Exec, pure, raise}
use bcmr.Protocol.Message.{Message, welcome}
use bcmr.Compress.{CompressionAlgo, negotiate, has_cap, cap_lz4, cap_zstd}
use bcmr.Serve.Caps.{bit_and, has_cap-bit_and, cap_aead, cap_dedup, without_cap}
use bcmr.Serve.Session.{offered, is_some_key}

-- What the handshake settles.
pub record Client : Type 0 where
  pub algo : CompressionAlgo
  pub dedup_enabled : Bool
  pub sealed : Bool

unfoldable pub switch_on : Client → Client
switch_on c = record c { sealed = true }

unfoldable pub secured : (aead : Bool) (key : Option Bytes) → Exec Client (Unit {0})
secured true none = raise crypto_failure
secured true (some key) = λ c. (ok tt, switch_on c)
secured false none = pure tt
secured false (some key) = raise crypto_failure

-- The reply to the Hello, or `none` where the connection was closed. `aead_halves` does not fail
-- for a key of 32 bytes.
unfoldable pub handshake_with_key :
    (caps : ℕ) (key : Option Bytes) → Result (Option Message) → Exec Client (Unit {0})
handshake_with_key caps key (err e) c = (err e, c)
handshake_with_key caps key (ok none) c = (err invalid_input, c)
handshake_with_key caps key (ok (some (welcome version server_caps))) c =
    secured (has_cap (bit_and 8 caps server_caps) cap_aead) key (record c {
      algo = negotiate caps server_caps;
      dedup_enabled = has_cap (bit_and 8 caps server_caps) cap_dedup;
    })
handshake_with_key caps key (ok (some _)) c = (err invalid_input, c)

-- The client's capabilities are already within what the server granted.
granted :
    (j here caps : ℕ)
    → j < 8
    → has_cap (bit_and 8 caps (bit_and 8 here caps)) (2 ^ j) ≡ has_cap (bit_and 8 here caps) (2 ^ j)
granted j here caps h =
    has_cap-bit_and 8 j caps (bit_and 8 here caps) h
    ∙ ap (λ (b : Bool). has_cap caps (2 ^ j) && b) (has_cap-bit_and 8 j here caps h)
    ∙ absorbed (has_cap caps (2 ^ j)) (has_cap here (2 ^ j))
    ∙ sym (has_cap-bit_and 8 j here caps h)
  where
    absorbed : (a b : Bool) → a && (b && a) ≡ b && a
    absorbed true b = refl
    absorbed false true = refl
    absorbed false false = refl

negotiate_granted :
    (here caps : ℕ)
    → negotiate caps (bit_and 8 here caps) ≡ negotiate (bit_and 8 here caps) (bit_and 8 here caps)
unfolding negotiate
negotiate_granted here caps =
    let by_zstd : has_cap (bit_and 8 here caps) cap_zstd
        ≡ has_cap here cap_zstd && has_cap caps cap_zstd =
      has_cap-bit_and 8 1 here caps (omega arith) in
    let by_lz4 : has_cap (bit_and 8 here caps) cap_lz4
        ≡ has_cap here cap_lz4 && has_cap caps cap_lz4 =
      has_cap-bit_and 8 0 here caps (omega arith) in
    ground (arith, by_zstd, by_lz4)

-- Without a key the server does not offer encryption.
offered-aead : (allow_direct_tcp : Bool) → has_cap (offered allow_direct_tcp none) cap_aead ≡ false
unfolding offered has_cap is_some_key without_cap
offered-aead true = refl
offered-aead false = refl

keyed_server :
    (allow_direct_tcp : Bool) (caps : ℕ) (server_key : Option Bytes)
    → has_cap (bit_and 8 (offered allow_direct_tcp server_key) caps) cap_aead
      ≡ has_cap (bit_and 8 (offered allow_direct_tcp server_key) caps) cap_aead
        && is_some_key server_key
unfolding is_some_key
keyed_server allow_direct_tcp caps none =
    rw
      (
        has_cap-bit_and 8 6 (offered allow_direct_tcp none) caps (omega arith),
        offered-aead allow_direct_tcp,
      )
      refl
keyed_server allow_direct_tcp caps (some key) = sym (and_true _)
  where
    and_true : (b : Bool) → b && true ≡ b
    and_true true = refl
    and_true false = refl

secured_lem :
    (aead : Bool) (key : Option Bytes) (c after : Client)
    → secured aead key c ≡ (ok tt, after)
    → c.sealed ≡ false
    → (after.sealed ≡ aead)
      × (after.sealed ≡ is_some_key key)
      × (after.algo ≡ c.algo)
      × (after.dedup_enabled ≡ c.dedup_enabled)
unfolding secured switch_on is_some_key
secured_lem true none c after e off = cc
secured_lem false (some key) c after e off = cc
secured_lem true (some key) c after e off = (
  ap (λ (p : Result (Unit {0}) × Client). p.1.sealed) (sym e),
  ap (λ (p : Result (Unit {0}) × Client). p.1.sealed) (sym e),
  ap (λ (p : Result (Unit {0}) × Client). p.1.algo) (sym e),
  ap (λ (p : Result (Unit {0}) × Client). p.1.dedup_enabled) (sym e),
)
secured_lem false none c after e off = (
  ap (λ (p : Result (Unit {0}) × Client). p.1.sealed) (sym e) ∙ off,
  ap (λ (p : Result (Unit {0}) × Client). p.1.sealed) (sym e) ∙ off,
  ap (λ (p : Result (Unit {0}) × Client). p.1.algo) (sym e),
  ap (λ (p : Result (Unit {0}) × Client). p.1.dedup_enabled) (sym e),
)

-- The client understands the Welcome of a server, with or without a key on either side, as the
-- server means it, where the handshake succeeds: both use the same compression, deduplication and
-- encryption are on if the server granted them, and encryption is on if and only if the client has
-- a key, and then only if the server has one too.
pub handshake_with_key-agrees :
    (version caps : ℕ) (allow_direct_tcp : Bool) (client_key server_key : Option Bytes)
    (before after : Client)
    → before.sealed ≡ false
    → handshake_with_key caps client_key
        (ok (some (welcome version (bit_and 8 (offered allow_direct_tcp server_key) caps))))
        before
      ≡ (ok tt, after)
    → (let granted_caps = bit_and 8 (offered allow_direct_tcp server_key) caps in
        (after.algo ≡ negotiate granted_caps granted_caps)
        × (after.dedup_enabled ≡ has_cap granted_caps cap_dedup)
        × (after.sealed ≡ has_cap granted_caps cap_aead)
        × (after.sealed ≡ is_some_key client_key)
        × (after.sealed ≡ after.sealed && is_some_key server_key))
unfolding handshake_with_key
handshake_with_key-agrees version caps allow_direct_tcp client_key server_key before after off e =
    let there = bit_and 8 (offered allow_direct_tcp server_key) caps in
    let (aead, keyed, algo, dedup) =
      secured_lem (has_cap (bit_and 8 caps there) cap_aead) client_key _ after e off in
    let whole : after.sealed ≡ has_cap there cap_aead =
      aead ∙ granted 6 (offered allow_direct_tcp server_key) caps (omega arith) in
    (
      algo ∙ negotiate_granted (offered allow_direct_tcp server_key) caps,
      dedup ∙ granted 2 (offered allow_direct_tcp server_key) caps (omega arith),
      whole,
      keyed,
      rw whole (keyed_server allow_direct_tcp caps server_key),
    )
