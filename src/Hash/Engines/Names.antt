-- ===== src/Hash/Engines/Names.antt =====
-- include/hash.hpp: the names of the engines, the tables of `SHAEngine`, and the keys' typedefs.
use fredlib.Base.{
  ℕ, ◌≡◌, refl, sym, ap, ◌∙◌, Option, none, some, List, [], ◌∷◌, get_elem?, Bool, true, false, ◌&&◌,
  ◌==◌, if◌then◌else◌,
}
use fredlib.Base.Text.{chars}
use fredlib.Hash.Engines.{
  ShaType, sha1, sha224, sha256, sha384, sha512, sha3_224, sha3_256, sha3_384, sha3_512, key_bytes,
}

-- The classes of engines.
pub data Engine : Type 0 where
  dummy_engine : Engine
  blake3_engine : Engine
  sha_engine : ShaType → Engine
  xx_hash64_engine : Engine
  city256_engine : Engine

-- The enumeration of `SHAEngine`.
unfoldable pub sha_number : ShaType → ℕ
sha_number sha1 = 0
sha_number sha224 = 1
sha_number sha256 = 2
sha_number sha384 = 3
sha_number sha512 = 4
sha_number sha3_224 = 5
sha_number sha3_256 = 6
sha_number sha3_384 = 7
sha_number sha3_512 = 8

-- `_algorithm_table`: the function `EVP_…` of each algorithm, which stands for it.
abbrev pub algorithm_table : List ShaType
algorithm_table =
    sha1 ∷ sha224 ∷ sha256 ∷ sha384 ∷ sha512 ∷ sha3_224 ∷ sha3_256 ∷ sha3_384 ∷ sha3_512 ∷ []

-- `_engine_names`
abbrev pub engine_names : List (List ℕ)
engine_names =
    chars "SHA1Engine"
    ∷ chars "SHA224Engine"
    ∷ chars "SHA256Engine"
    ∷ chars "SHA384Engine"
    ∷ chars "SHA512Engine"
    ∷ chars "SHA3_224Engine"
    ∷ chars "SHA3_256Engine"
    ∷ chars "SHA3_384Engine"
    ∷ chars "SHA3_512Engine"
    ∷ []

-- `engine_name` of `SHAEngine<sha_type>`; there is none for a type behind the table.
unfoldable pub sha_engine_name : (sha_type : ℕ) → Option (List ℕ)
sha_engine_name sha_type = get_elem? engine_names sha_type

-- `engine_name` of the other classes.
abbrev pub dummy_engine_name : List ℕ
dummy_engine_name = chars "DummyHashEngine"

abbrev pub blake3_engine_name : List ℕ
blake3_engine_name = chars "Blake3Engine"

abbrev pub xx_hash64_engine_name : List ℕ
xx_hash64_engine_name = chars "XXhash64Engine"

abbrev pub city256_engine_name : List ℕ
city256_engine_name = chars "City256Engine"

-- `HashKey::engine_name`
unfoldable pub engine_name : Engine → Option (List ℕ)
unfolding sha_engine_name sha_number
engine_name dummy_engine = some dummy_engine_name
engine_name blake3_engine = some blake3_engine_name
engine_name (sha_engine t) = sha_engine_name (sha_number t)
engine_name xx_hash64_engine = some xx_hash64_engine_name
engine_name city256_engine = some city256_engine_name

-- `operator<<` of `DummyHashEngine`, which takes the engines derived from it as a `DummyHashEngine`, so
-- that the parameter's class chooses the name. `none` stands for `SHAEngine`, whose base is private:
-- printing one does not compile.
unfoldable pub print_engine : Engine → Option (List ℕ)
print_engine (sha_engine t) = none
print_engine engine = some dummy_engine_name

-- The number of bytes in the typedef of the key of an engine.
unfoldable pub typedef_bytes : Engine → ℕ
unfolding key_bytes
typedef_bytes dummy_engine = 32
typedef_bytes blake3_engine = 32
typedef_bytes (sha_engine t) = key_bytes t
typedef_bytes xx_hash64_engine = 8
typedef_bytes city256_engine = 32

-- `SHAEngine` finds, at the number of each algorithm, that algorithm in its table.
pub algorithm-number : (t : ShaType) → get_elem? algorithm_table (sha_number t) ≡ some t
unfolding sha_number
algorithm-number sha1 = refl
algorithm-number sha224 = refl
algorithm-number sha256 = refl
algorithm-number sha384 = refl
algorithm-number sha512 = refl
algorithm-number sha3_224 = refl
algorithm-number sha3_256 = refl
algorithm-number sha3_384 = refl
algorithm-number sha3_512 = refl

-- Whether two texts are the same.
unfoldable pub same_text : List ℕ → List ℕ → Bool
same_text [] [] = true
same_text (x ∷ xs) (y ∷ ys) = (x == y) && same_text xs ys
same_text [] (y ∷ ys) = false
same_text (x ∷ xs) [] = false

-- The algorithm whose name stands in the table.
unfoldable pub sha_named : List (List ℕ) → List ShaType → List ℕ → Option Engine
unfolding same_text
sha_named (n ∷ ns) (t ∷ ts) name =
    if same_text n name then some (sha_engine t) else sha_named ns ts name
sha_named [] ts name = none
sha_named ns [] name = none

-- The engine of a name.
unfoldable pub engine_of : List ℕ → Option Engine
unfolding sha_named same_text
engine_of name =
    if same_text dummy_engine_name name
    then some dummy_engine
    else if same_text blake3_engine_name name
    then some blake3_engine
    else if same_text xx_hash64_engine_name name
    then some xx_hash64_engine
    else if same_text city256_engine_name name
    then some city256_engine
    else sha_named engine_names algorithm_table name

unfoldable pub engine_of_name : Option (List ℕ) → Option Engine
unfolding engine_of
engine_of_name none = none
engine_of_name (some name) = engine_of name

pub engine_of-engine_name : (e : Engine) → engine_of_name (engine_name e) ≡ some e
unfolding engine_of_name engine_of sha_named same_text engine_name sha_engine_name sha_number
engine_of-engine_name dummy_engine = refl
engine_of-engine_name blake3_engine = refl
engine_of-engine_name (sha_engine sha1) = refl
engine_of-engine_name (sha_engine sha224) = refl
engine_of-engine_name (sha_engine sha256) = refl
engine_of-engine_name (sha_engine sha384) = refl
engine_of-engine_name (sha_engine sha512) = refl
engine_of-engine_name (sha_engine sha3_224) = refl
engine_of-engine_name (sha_engine sha3_256) = refl
engine_of-engine_name (sha_engine sha3_384) = refl
engine_of-engine_name (sha_engine sha3_512) = refl
engine_of-engine_name xx_hash64_engine = refl
engine_of-engine_name city256_engine = refl

some-injective : {e f : Engine} → ◌≡◌ {A = Option Engine} (some e) (some f) → e ≡ f
some-injective q = cc

-- Engines of one name are one engine.
pub engine_name-injective : {e f : Engine} → engine_name e ≡ engine_name f → e ≡ f
engine_name-injective {e} {f} q =
    some-injective (sym (engine_of-engine_name e) ∙ ap engine_of_name q ∙ engine_of-engine_name f)
