-- ===== src/Examples/Toy.antt =====
-- A cipher and a hash function with the documented behaviour of the real ones, but no secrecy.
use bcmr.Prelude.{
  ℕ, zero, suc, ◌<◌, replicate, ◌%◌, ◌≡◌, refl, sym, ap, ◌∙◌, arith, ◌==◌, ==_iff, if◌then◌else◌,
}
use bcmr.Prelude.{Option, none, some, Option-cases, Bool-cases, inl, inr, [], ◌∷◌, ◌++◌}
use bcmr.Prelude.{length, length-append, split_at?, split_at?-append, split_at?_lem}
use bcmr.Bytes.Word.{Bytes, IsArray}
use bcmr.Bytes.Equal.{bytes_eq, bytes_eq_iff}
use bcmr.Bytes.Digest.{Blake3}
use bcmr.Aead.{max_frame_len}
use bcmr.Aead.Cipher.{Aead, IsLawful, IsAuthentic}

abbrev pub tag : Bytes
tag = 9 ∷ 9 ∷ 9 ∷ 9 ∷ 9 ∷ 9 ∷ 9 ∷ 9 ∷ 9 ∷ 9 ∷ 9 ∷ 9 ∷ 9 ∷ 9 ∷ 9 ∷ 9 ∷ []

unfoldable pub untag : Option (Bytes × Bytes) → Option Bytes
untag none = none
untag (some (front, back)) = if bytes_eq front tag then some back else none

abbrev pub toy_aead : Aead
toy_aead = record {
  Key = Bytes;
  new_key = λ bytes. if length bytes == 32 then some bytes else none;
  seal = λ k nonce text. some (tag ++ text);
  unseal = λ k nonce c. untag (split_at? 16 c);
}

untag_lem : (c text : Bytes) → untag (split_at? 16 c) ≡ some text → some (tag ++ text) ≡ some c
unfolding untag
untag_lem c text e = elim (Option-cases (split_at? 16 c)) [
  | inl short ↦ absurd (cc (rw short at e))
  | inr ((front, back), cut) ↦ elim (Bool-cases (bytes_eq front tag)) [
    | inl same ↦
        let at_tag : some back ≡ some text = rw (cut, same) at e in
        let whole : c ≡ front ++ back = (split_at?_lem 16 c cut).0 in
        let front_tag : front ≡ tag = (bytes_eq_iff front tag).0 same in cc
    | inr differs ↦ absurd (cc (rw (cut, differs) at e))
  ]
]

pub toy_aead-IsLawful : IsLawful toy_aead max_frame_len
unfolding untag bytes_eq
toy_aead-IsLawful = record {
  key_size = λ bytes size. (bytes, rw ((==_iff (length bytes) 32).1 size) refl);
  seals = λ k nonce text small. (tag ++ text, refl);
  sealed_size = λ k nonce text c e.
      let same : tag ++ text ≡ c = cc in
      omega (arith, ap (λ (x : Bytes). length x) same, length-append tag text);
  opens = λ k nonce text c e.
      let same : tag ++ text ≡ c = cc in
      ap (λ (x : Bytes). untag (split_at? 16 x)) (sym same)
      ∙ ap untag (split_at?-append tag text 16 refl);
}

pub toy_aead-IsAuthentic : IsAuthentic toy_aead
toy_aead-IsAuthentic = record { forged = λ k nonce text c e. untag_lem c text e }

abbrev pub zeros : ℕ → Bytes
zeros n = replicate n 0

zeros-IsArray : (n : ℕ) → IsArray n (zeros n)
zeros-IsArray zero = record { size = refl; bytes_in_range = tt }
zeros-IsArray (suc n) =
    let h = zeros-IsArray n in
    record { size = omega (arith, h.size); bytes_in_range = (omega arith, h.bytes_in_range) }

pub digest_of : (b : ℕ) → b < 256 → IsArray 32 (b ∷ zeros 31)
digest_of b h =
    let z = zeros-IsArray 31 in
    record { size = omega (arith, z.size); bytes_in_range = (h, z.bytes_in_range) }

-- The digest is the length of the text, below 256, and zeros.
abbrev pub toy_blake3 : Blake3
toy_blake3 = record {
  hash = λ text. (length text % 256) ∷ zeros 31;
  digest = λ text. digest_of (length text % 256) (omega arith);
}
