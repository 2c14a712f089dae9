-- ===== src/Hash/Key.antt =====
-- include/hash.hpp, `class HashKey`: a digest of `nbytes` bytes, most significant byte first.
use fredlib.Base.{
  ℕ, zero, suc, length, ◌/◌, ◌%◌, ◌+◌, Bool, true, false, not, Option, List, [], ◌∷◌, ltb, ◌==◌,
  if◌then◌else◌, replicate, get_elem?, set,
}

-- `std::array<uint8_t, nbytes>`: `mDigest`.
abbrev pub HashKey : Type 0
HashKey = List ℕ

-- `hash(input, len, digest, digest_len)` of an engine: the digest afterwards, and `none` for a write
-- behind its end.
abbrev pub HashEngine : Type 0
HashEngine = List ℕ → HashKey → Option HashKey

-- `HashKey()`, and `HashKey(input, len)`, which lets the engine fill a zeroed digest.
abbrev pub zero_key : (nbytes : ℕ) → HashKey
zero_key nbytes = replicate nbytes 0

unfoldable pub hash_key : HashEngine → (nbytes : ℕ) → List ℕ → Option HashKey
hash_key engine nbytes input = engine input (zero_key nbytes)

-- `operator==`: the loop over the bytes, which ends at the first difference.
unfoldable pub eq_key : HashKey → HashKey → Bool
eq_key [] rs = true
eq_key (l ∷ ls) [] = true
eq_key (l ∷ ls) (r ∷ rs) = if not (l == r) then false else eq_key ls rs

unfoldable pub ne_key : HashKey → HashKey → Bool
ne_key l r = not (eq_key r l)

-- `operator<`: the loop ends at the first byte that is less.
unfoldable pub lt_key : HashKey → HashKey → Bool
lt_key [] rs = false
lt_key (l ∷ ls) [] = false
lt_key (l ∷ ls) (r ∷ rs) = if ltb l r then true else lt_key ls rs

unfoldable pub gt_key : HashKey → HashKey → Bool
gt_key l r = lt_key r l

unfoldable pub le_key : HashKey → HashKey → Bool
le_key l r = not (lt_key r l)

unfoldable pub ge_key : HashKey → HashKey → Bool
ge_key l r = not (lt_key l r)

-- `operator[]`, as a read and as a write.
unfoldable pub get_byte : HashKey → ℕ → Option ℕ
get_byte k i = get_elem? k i

unfoldable pub set_byte : HashKey → ℕ → ℕ → HashKey
set_byte k i b = set k i b

-- The copy and move constructors and assignments: the array is copied, and the key that is assigned to
-- is overwritten.
unfoldable pub copy_key : HashKey → HashKey
copy_key other = other

unfoldable pub assign_key : (other key : HashKey) → HashKey
unfolding copy_key
assign_key other key = copy_key other

-- `digest()`, `size()`, and the iterators `begin()` and `end()` as places in the digest.
unfoldable pub digest : HashKey → HashKey
digest k = k

unfoldable pub size : HashKey → ℕ
size k = length k

unfoldable pub key_begin : HashKey → ℕ
key_begin k = 0

unfoldable pub key_end : HashKey → ℕ
key_end k = length k

-- `for (it = from; it != end(); ++it)`: the bytes that are read, over `fuel` places at most.
unfoldable pub read_bytes : (fuel from : ℕ) → HashKey → List (Option ℕ)
unfolding get_byte key_end
read_bytes zero from k = []
read_bytes (suc fuel) from k =
    let rest = read_bytes fuel (from + 1) k in
    if from == key_end k then [] else get_byte k from ∷ rest

-- `operator<<`: two hexadecimal digits for each byte, and the end of the line.
unfoldable pub hex_digit : ℕ → ℕ
hex_digit d = if ltb d 10 then 48 + d else 87 + d

unfoldable pub print_bytes : HashKey → List ℕ
unfolding hex_digit
print_bytes [] = 10 ∷ []
print_bytes (b ∷ bs) = hex_digit (b / 16) ∷ hex_digit (b % 16) ∷ print_bytes bs
