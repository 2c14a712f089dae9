-- ===== src/Hash/Engines.antt =====
-- include/hash.hpp, the hash engines: how each drives its hash function and fills the digest. The
-- hash functions stand outside: OpenSSL's EVP, BLAKE3, CityHash and XXHash64 are parameters.
pub mod Fill
pub mod Chunks
pub mod Dummy
pub mod Names
use fredlib.Base.{
  ℕ, zero, suc, ◌+◌, ◌-◌, ◌*◌, ◌/◌, ◌%◌, ◌^◌, ◌<◌, ◌≡◌, Bool, true, false, Option, none, some, List,
  [], ◌∷◌, ◌++◌, leb, ltb, if◌then◌else◌, length, take, drop,
}
use mathlib.Core.Option
use fredlib.Hash.Key.{HashKey}

-- A write of bytes into an array, at an offset; `none` if it does not fit.
unfoldable pub write_at : ℕ → List ℕ → HashKey → Option HashKey
write_at offset bytes digest =
    if leb (offset + length bytes) (length digest)
    then some (take offset digest ++ bytes ++ drop (offset + length bytes) digest)
    else none

-- The `k` bytes of a number, as a little-endian machine stores it.
unfoldable pub le_bytes : (k : ℕ) → ℕ → List ℕ
le_bytes zero v = []
le_bytes (suc k) v = (v % 256) ∷ le_bytes k (v / 256)

-- `DummyHashEngine::hash`: round `i` stores `i`, a number of 16 bytes, in one of the digest's blocks.
-- The digest must not be empty: `%` by 0 is undefined.
unfoldable pub dummy_rounds : (rounds i : ℕ) → HashKey → Option HashKey
unfolding le_bytes
dummy_rounds zero i digest = some digest
dummy_rounds (suc k) i digest =
    Option.bind (write_at (i % length digest / 16 * 16) (le_bytes 16 i) digest)
      λ d. dummy_rounds k (i + 1) d

unfoldable pub dummy_hash : List ℕ → HashKey → Option HashKey
unfolding dummy_rounds
dummy_hash input digest = dummy_rounds (length input / 16) 0 digest

-- `SHAEngine`'s algorithms, in the order of its tables.
pub data ShaType : Type 0 where
  sha1 sha224 sha256 sha384 sha512 sha3_224 sha3_256 sha3_384 sha3_512 : ShaType

-- OpenSSL's digest interface. A context that is initialised, given the input and finalised yields as
-- many bytes as the algorithm's size.
pub record Evp : Type 1 where
  pub Context : Type 0
  pub md_size : ShaType → ℕ
  pub init : ShaType → Context
  pub update : Context → List ℕ → Context
  pub final : Context → List ℕ
  pub final_size :
      (t : ShaType) (input : List ℕ) → length (final (update (init t) input)) ≡ md_size t

-- `SHAEngine::hash`: into the digest, or, if that is too short, by way of `_digest`.
unfoldable pub sha_hash : Evp → ShaType → List ℕ → HashKey → Option HashKey
sha_hash evp t input digest =
    let md = evp.final (evp.update (evp.init t) input) in
    if leb (evp.md_size t) (length digest)
    then write_at 0 md digest
    else write_at 0 (take (length digest) md) digest

-- The lengths in the typedefs of the SHA keys.
unfoldable pub key_bytes : ShaType → ℕ
key_bytes sha1 = 20
key_bytes sha224 = 28
key_bytes sha256 = 32
key_bytes sha384 = 48
key_bytes sha512 = 64
key_bytes sha3_224 = 26
key_bytes sha3_256 = 32
key_bytes sha3_384 = 48
key_bytes sha3_512 = 64

-- BLAKE3: its output is as long as asked for.
pub record Blake3 : Type 1 where
  pub Hasher : Type 0
  pub init : Hasher
  pub update : Hasher → List ℕ → Hasher
  pub finalize : Hasher → ℕ → List ℕ
  pub finalize_size : (h : Hasher) (n : ℕ) → length (finalize h n) ≡ n

unfoldable pub blake3_hash : Blake3 → List ℕ → HashKey → Option HashKey
blake3_hash b input digest = write_at 0 (b.finalize (b.update b.init input) (length digest)) digest

-- CityHashCrc256: 32 bytes.
pub record City : Type 0 where
  pub city_hash_crc256 : List ℕ → List ℕ
  pub city_size : (input : List ℕ) → length (city_hash_crc256 input) ≡ 32

-- `City256Engine::hash`. The static array is overwritten by each call.
unfoldable pub city_hash : City → List ℕ → HashKey → Option HashKey
city_hash c input digest =
    if leb 32 (length digest)
    then write_at 0 (c.city_hash_crc256 input) digest
    else write_at 0 (take (length digest) (c.city_hash_crc256 input)) digest

-- XXHash64: input may be added in any number of pieces.
pub record XxHash64 : Type 1 where
  pub State : Type 0
  pub seeded : ℕ → State
  pub add : State → List ℕ → State
  pub hash : State → ℕ
  pub add_nil : (s : State) → add s [] ≡ s
  pub add_append : (s : State) (xs ys : List ℕ) → add (add s xs) ys ≡ add s (xs ++ ys)

-- 64 * MB
abbrev pub update_len : ℕ
update_len = 67_108_864

-- The loop of `XXhash64Engine::hash` from position `i`, in pieces of `u` bytes; `none` if the fuel
-- runs out.
unfoldable pub feed : (x : XxHash64) (u fuel i : ℕ) → List ℕ → x.State → Option x.State
feed x u zero i input s = none
feed x u (suc k) i input s =
    let size = if leb (length input) (i + u) then length input - i else u in
    let rest = feed x u k (i + u) input (x.add s (take size (drop i input))) in
    if ltb i (length input) then rest else some s

-- The static variable of `XXhash64Engine::hash`, initialised if it is not yet.
abbrev pub first_of : Option ℕ → ℕ → ℕ
first_of none value = value
first_of (some r) value = r

-- `XXhash64Engine::hash`, with the function's static variable: the digest and the variable
-- afterwards. The variable is initialised by the first call that reaches it, and never again.
unfoldable pub xx_finish : ℕ → Option ℕ → HashKey → Option (HashKey × Option ℕ)
unfolding le_bytes
xx_finish value static digest =
    if leb 8 (length digest)
    then Option.map (λ d. (d, static)) (write_at 0 (le_bytes 8 value) digest)
    else Option.map (λ d. (d, some (first_of static value)))
        (write_at 0 (take (length digest) (le_bytes 8 (first_of static value))) digest)

unfoldable pub xx_hash : XxHash64 → Option ℕ → List ℕ → HashKey → Option (HashKey × Option ℕ)
unfolding feed xx_finish
xx_hash x static input digest =
    Option.bind (feed x update_len (length input + 1) 0 input (x.seeded 0))
      λ s. xx_finish (x.hash s) static digest
