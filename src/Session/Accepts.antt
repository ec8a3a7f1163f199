-- ===== src/Session/Accepts.antt =====
-- What `deserialize` accepts, whatever bytes it is given.
use bcmr.Prelude.{ℕ, ◌-◌, ◌≡◌, sym, ap, ◌∙◌, arith, Bool-cases}
use bcmr.Prelude.{Option, none, some, Option-cases, inl, inr, ◌++◌}
use bcmr.Prelude.{length, All, All-split, split_at?, split_at?_lem}
use mathlib.Core.Path.{subst}
use bcmr.Bytes.Word.{Bytes, IsByte, IsU32, IsU64, IsArray}
use bcmr.Bytes.Equal.{bytes_eq, bytes_eq_iff}
use bcmr.Bytes.Digest.{Blake3}
use bcmr.Protocol.Reader.{take_bytes}
use bcmr.Protocol.Reader.Yields.{Yields, Yields-pure, Yields-fail, Yields-if, Yields-bind}
use bcmr.Protocol.Reader.Yields.{take_bytes-Yields, read_count-Yields, word_bound}
use bcmr.Session.{Session, IsSession, OptHash}
use bcmr.Session.Format.{first_eight, read_u8, read_u32, read_u64, read_src_hash, read_fields}
use bcmr.Session.Format.{read_payload, session_of, checked, deserialize}

read_u8-Yields : Yields IsByte read_u8
unfolding read_u8
read_u8-Yields =
    Yields-bind _ _ (take_bytes-Yields 1) λ bs h. Yields-pure _ (word_bound {n = 1} bs h)

read_u32-Yields : Yields IsU32 read_u32
unfolding read_u32
read_u32-Yields =
    Yields-bind _ _ (take_bytes-Yields 4) λ bs h. Yields-pure _ (word_bound {n = 4} bs h)

read_u64-Yields : Yields IsU64 read_u64
unfolding read_u64
read_u64-Yields =
    Yields-bind _ _ (take_bytes-Yields 8) λ bs h. Yields-pure _ (word_bound {n = 8} bs h)

read_src_hash-Yields : Yields OptHash read_src_hash
unfolding read_src_hash
read_src_hash-Yields = Yields-bind _ _ read_u8-Yields λ b hb.
    Yields-if _ _ _ (Yields-bind _ _ (take_bytes-Yields 32) λ h p. Yields-pure (some h) p)
      (Yields-pure none tt)

-- The bytes of a path, whose length was read from a `u32`.
abbrev IsRawPath : Bytes → Type 0
IsRawPath p = All IsByte p × IsU32 (length p)

raw_path : {n : ℕ} (p : Bytes) → IsU32 n → IsArray n p → IsRawPath p
raw_path p hn h = (h.bytes_in_range, subst IsU32 (sym h.size) hn)

read_fields-Yields : Yields IsSession read_fields
unfolding read_fields
read_fields-Yields = Yields-bind _ _ read_u32-Yields λ src_len sn.
    Yields-bind _ _ (take_bytes-Yields src_len) λ src sp.
      Yields-bind _ _ read_u32-Yields λ dst_len dn.
        Yields-bind _ _ (take_bytes-Yields dst_len) λ dst dp.
          Yields-bind _ _ read_u64-Yields λ size hs. Yields-bind _ _ read_u64-Yields λ mtime hm.
            Yields-bind _ _ read_u64-Yields λ inode hi.
              Yields-bind _ _ read_u64-Yields λ written hw.
                Yields-bind _ _ read_u32-Yields λ count hc.
                  Yields-bind _ _ (read_count-Yields (take_bytes 32) (take_bytes-Yields 32) count)
                    λ hashes hh. Yields-bind _ _ read_src_hash-Yields λ src_hash hx.
                      Yields-bind _ _ read_u64-Yields λ created ht.
                        Yields-bind _ _ read_u64-Yields λ updated hu. Yields-pure _ (record {
                          src_path = raw_path src sn sp;
                          dst_path = raw_path dst dn dp;
                          src_size = hs;
                          src_mtime = hm;
                          src_inode = hi;
                          bytes_written = hw;
                          block_hashes = (hh.each, subst IsU32 (sym hh.size) hc);
                          src_hash = hx;
                          created_at = ht;
                          updated_at = hu;
                        })

read_payload-Yields : Yields IsSession read_payload
unfolding read_payload
read_payload-Yields = Yields-bind _ _ (take_bytes-Yields 4) λ magic hm.
    Yields-if _ _ _ Yields-fail
      (Yields-bind _ _ read_u8-Yields λ v hv. Yields-if _ _ _ Yields-fail read_fields-Yields)

session_of-some :
    (o : Option (Session × Bytes)) (s : Session)
    → session_of o ≡ some s
    → (rest : Bytes) × (o ≡ some (s, rest))
unfolding session_of
session_of-some none s e = cc
session_of-some (some (s', rest)) s e = (rest, ground arith)

module _ (blake3 : Blake3) where
  checked-some :
      (payload stored : Bytes) (s : Session)
      → checked blake3 (some (payload, stored)) ≡ some s
      → (stored ≡ first_eight (blake3.hash payload)) × (session_of (read_payload payload) ≡ some s)
  unfolding checked
  checked-some payload stored s e =
      elim (Bool-cases (bytes_eq (first_eight (blake3.hash payload)) stored)) [
        | inl same ↦ (sym ((bytes_eq_iff _ stored).0 same), ground (arith, same))
        | inr differs ↦ ground (arith, differs)
      ]

  deserialize_parts :
      (bytes : Bytes) (s : Session)
      → deserialize blake3 bytes ≡ some s
      → (payload : Bytes) × (stored : Bytes) × (bytes ≡ payload ++ stored)
        × (checked blake3 (some (payload, stored)) ≡ some s)
  unfolding deserialize
  deserialize_parts bytes s e = elim (Option-cases (split_at? (length bytes - 8) bytes)) [
    | inl short ↦ absurd (unfold checked in ground (arith, short))
    | inr ((payload, stored), cut) ↦
        (payload, stored, (split_at?_lem (length bytes - 8) bytes cut).0, ground (arith, cut))
  ]

  -- A session is returned only from bytes that end in the first eight bytes of the digest of what
  -- stands before them, and its fields are then values of their Rust types.
  pub deserialize-some :
      (bytes : Bytes) (s : Session)
      → All IsByte bytes
      → deserialize blake3 bytes ≡ some s
      → (payload : Bytes) × (rest : Bytes) × (bytes ≡ payload ++ first_eight (blake3.hash payload))
        × (read_payload payload ≡ some (s, rest))
        × IsSession s
  unfolding deserialize
  deserialize-some bytes s h e =
      let (payload, stored, whole, ok) = deserialize_parts bytes s e in
      let (sum, found) = checked-some payload stored s ok in
      let (rest, got) = session_of-some (read_payload payload) s found in
      let in_range = (All-split IsByte payload stored (subst (All IsByte) whole h)).0 in
      (
        payload,
        rest,
        whole ∙ ap (λ (x : Bytes). payload ++ x) sum,
        got,
        (read_payload-Yields.at payload s rest in_range got).0,
      )
