-- ===== src/Hash/Engines/Fill.antt =====
-- What the engines of include/hash.hpp leave in the digest.
use fredlib.Base.{
  ℕ, zero, suc, ◌≤◌, ◌≡◌, ◌≢◌, refl, sym, ap, ◌∙◌, Option, none, some, List, [], ◌∷◌, ◌++◌, leb,
  if◌then◌else◌, arith, length, take, drop, Bool-cases, inl, inr, length-replicate, min,
}
use native.Mathlib.Nat.{zero-add}
use mathlib.Core.List.{append-nil}
use fredlib.Hash.Key.{HashKey, hash_key, zero_key}
use fredlib.Hash.Engines.{
  write_at, ShaType, sha1, sha224, sha256, sha384, sha512, sha3_224, sha3_256, sha3_384, sha3_512,
  Evp, sha_hash, key_bytes, Blake3, blake3_hash, City, city_hash,
}

-- The digest starts with as many bytes of the hash as fit, and keeps its own bytes behind them.
abbrev pub filled : (md : List ℕ) → HashKey → HashKey
filled md digest = take (length digest) md ++ drop (length md) digest

pub length-take : (n : ℕ) (xs : List ℕ) → length (take n xs) ≡ min n (length xs)
length-take zero xs = omega arith
length-take (suc n) [] = omega arith
length-take (suc n) (x ∷ xs) = omega (arith, length-take n xs)

pub take_all : (n : ℕ) (xs : List ℕ) → length xs ≤ n → take n xs ≡ xs
take_all n [] h = go n
  where
    go : (n : ℕ) → ◌≡◌ {A = List ℕ} (take n []) []
    go zero = refl
    go (suc n) = refl
take_all zero (x ∷ xs) h = absurd (omega arith)
take_all (suc n) (x ∷ xs) h = ap {B = List ℕ} (λ r. x ∷ r) (take_all n xs (omega arith))

pub drop_all : (n : ℕ) (xs : List ℕ) → length xs ≤ n → drop n xs ≡ []
drop_all zero [] h = refl
drop_all (suc n) [] h = refl
drop_all zero (x ∷ xs) h = absurd (omega arith)
drop_all (suc n) (x ∷ xs) h = drop_all n xs (omega arith)

-- A write at the start that fits.
pub write-fits :
    (bytes : List ℕ) (digest : HashKey)
    → length bytes ≤ length digest
    → write_at 0 bytes digest ≡ some (bytes ++ drop (length bytes) digest)
unfolding write_at
write-fits bytes digest h = ground (arith, zero-add (length bytes))

-- A hash that fits is written whole, and one that does not is cut off.
write-filled :
    (md : List ℕ) (digest : HashKey) (n : ℕ)
    → length md ≡ n
    → (if leb n (length digest)
        then write_at 0 md digest
        else write_at 0 (take (length digest) md) digest)
      ≡ some (filled md digest)
write-filled md digest n e = elim (Bool-cases (leb n (length digest))) [
  | inl whole ↦
      let room : length md ≤ length digest = ground arith in
      rw (whole, take_all (length digest) md room) (write-fits md digest room)
  | inr cut ↦
      let full : length digest ≤ length md = ground arith in
      let size : length (take (length digest) md) ≡ length digest =
        omega (arith, length-take (length digest) md) in
      rw cut (
        write-fits (take (length digest) md) digest (omega (arith, size))
        ∙ ap (λ r. some (take (length digest) md ++ r))
            (ap (λ k. drop k digest) size
              ∙ drop_all (length digest) digest (omega arith)
              ∙ sym (drop_all (length md) digest full)))
]

-- `SHAEngine::hash` never writes outside the digest: it fills the front of it with as many bytes
-- of the hash as fit, and keeps the bytes behind them.
pub sha-filled :
    (evp : Evp) (t : ShaType) (input : List ℕ) (digest : HashKey)
    → sha_hash evp t input digest ≡ some (filled (evp.final (evp.update (evp.init t) input)) digest)
unfolding sha_hash
sha-filled evp t input digest = write-filled _ digest (evp.md_size t) (evp.final_size t input)

pub city-filled :
    (c : City) (input : List ℕ) (digest : HashKey)
    → city_hash c input digest ≡ some (filled (c.city_hash_crc256 input) digest)
unfolding city_hash
city-filled c input digest = write-filled _ digest 32 (c.city_size input)

pub blake3-filled :
    (b : Blake3) (input : List ℕ) (digest : HashKey)
    → blake3_hash b input digest ≡ some (b.finalize (b.update b.init input) (length digest))
unfolding blake3_hash
blake3-filled b input digest =
    let out = b.finalize (b.update b.init input) (length digest) in
    let size = b.finalize_size (b.update b.init input) (length digest) in
    write-fits out digest (omega (arith, size))
    ∙ ap some (
        ap (λ r. out ++ r)
          (ap (λ k. drop k digest) size ∙ drop_all (length digest) digest (omega arith))
        ∙ append-nil out)

-- The sizes that FIPS 180-4 and FIPS 202 give, in bytes.
abbrev pub standard_size : ShaType → ℕ
standard_size sha1 = 20
standard_size sha224 = 28
standard_size sha256 = 32
standard_size sha384 = 48
standard_size sha512 = 64
standard_size sha3_224 = 28
standard_size sha3_256 = 32
standard_size sha3_384 = 48
standard_size sha3_512 = 64

key-size : (t : ShaType) → t ≢ sha3_224 → key_bytes t ≡ standard_size t
unfolding key_bytes
key-size sha3_224 ne = absurd (ne refl)
key-size sha1 ne = refl
key-size t ne = refl

-- A zeroed digest that is no longer than the hash holds its first bytes.
filled-zero : (md : List ℕ) (n : ℕ) → n ≤ length md → filled md (zero_key n) ≡ take n md
filled-zero md n h =
    let size = length-replicate n 0 in
    ap (λ r. take (length (zero_key n)) md ++ r)
      (drop_all (length md) (zero_key n) (omega (arith, size)))
    ∙ append-nil _
    ∙ ap (λ k. take k md) size

abbrev size_of : Option (List ℕ) → ℕ
size_of none = 0
size_of (some l) = length l

module _ (evp : Evp) (sizes : (t : ShaType) → evp.md_size t ≡ standard_size t)
    (input : List ℕ) where
  -- With EVP sizes as the standards give them, the key of every SHA algorithm but SHA3-224, in the
  -- length of its typedef, is the whole hash of its input.
  pub sha_key-whole :
      (t : ShaType)
      → t ≢ sha3_224
      → hash_key (sha_hash evp t) (key_bytes t) input
        ≡ some (evp.final (evp.update (evp.init t) input))
  unfolding hash_key
  sha_key-whole t ne =
      let md = evp.final (evp.update (evp.init t) input) in
      let size : length md ≡ key_bytes t = evp.final_size t input ∙ sizes t ∙ sym (key-size t ne) in
      sha-filled evp t input (zero_key (key_bytes t))
      ∙ ap some (
          filled-zero md (key_bytes t) (omega (arith, size))
          ∙ take_all (key_bytes t) md (omega (arith, size)))

  -- With EVP sizes as the standards give them, `SHA3_224Key` is the first 26 bytes of the hash of
  -- its input, and is not that hash, which has 28.
  pub sha3_224_key-cut :
      (hash_key (sha_hash evp sha3_224) (key_bytes sha3_224) input
        ≡ some (take 26 (evp.final (evp.update (evp.init sha3_224) input))))
      × (hash_key (sha_hash evp sha3_224) (key_bytes sha3_224) input
          ≢ some (evp.final (evp.update (evp.init sha3_224) input)))
  unfolding hash_key key_bytes
  sha3_224_key-cut =
      let md = evp.final (evp.update (evp.init sha3_224) input) in
      let size : length md ≡ 28 = evp.final_size sha3_224 input ∙ sizes sha3_224 in
      let cut : hash_key (sha_hash evp sha3_224) (key_bytes sha3_224) input ≡ some (take 26 md) =
        sha-filled evp sha3_224 input (zero_key 26)
        ∙ ap some (filled-zero md 26 (omega (arith, size))) in
      (
        cut,
        λ whole.
            let same : length (take 26 md) ≡ length md = ap size_of (sym cut ∙ whole) in
            absurd (omega (arith, same, size, length-take 26 md)),
      )
