-- ===== src/Hash/Engines/Dummy.antt =====
-- `DummyHashEngine::hash` of include/hash.hpp, and the end of the digest.
use fredlib.Base.{
  ℕ, zero, suc, ◌+◌, ◌-◌, ◌*◌, ◌/◌, ◌%◌, ◌<◌, ◌≤◌, ◌≡◌, refl, ap, ◌∙◌, true, false, Option, none,
  some, List, [], ◌∷◌, ◌++◌, leb, arith, length, take, drop, length-append,
}
use mathlib.Core.Option
use native.Mathlib.Nat.{mod-eq_of_lt}
use native.Mathlib.Decide.{dec_lt}
use fredlib.Hash.Key.{HashKey}
use fredlib.Hash.Engines.{write_at, le_bytes, dummy_rounds, dummy_hash}
use fredlib.Hash.Engines.Fill.{length-take}

pub length-le_bytes : (k v : ℕ) → length (le_bytes k v) ≡ k
unfolding le_bytes
length-le_bytes zero v = refl
length-le_bytes (suc k) v = ap suc (length-le_bytes k (v / 256))

pub length-drop : (n : ℕ) (xs : List ℕ) → length (drop n xs) ≡ length xs - n
length-drop zero xs = omega arith
length-drop (suc n) [] = omega arith
length-drop (suc n) (x ∷ xs) = omega (arith, length-drop n xs)

-- A write that fits keeps the length; one that does not is refused.
write_at-length :
    (offset : ℕ) (bytes : List ℕ) (digest : HashKey)
    → offset + length bytes ≤ length digest
    → (d : HashKey) × (write_at offset bytes digest ≡ some d) × (length d ≡ length digest)
unfolding write_at
write_at-length offset bytes digest h =
    let fits : leb (offset + length bytes) (length digest) ≡ true = ground arith in
    let front = take offset digest in
    let back = drop (offset + length bytes) digest in
    (
      front ++ bytes ++ back,
      rw fits,
      omega (
        arith,
        length-append (front ++ bytes) back,
        length-append front bytes,
        length-take offset digest,
        length-drop (offset + length bytes) digest,
      ),
    )

write_at-out :
    (offset : ℕ) (bytes : List ℕ) (digest : HashKey)
    → length digest < offset + length bytes
    → write_at offset bytes digest ≡ none
unfolding write_at
write_at-out offset bytes digest h =
    let out : leb (offset + length bytes) (length digest) ≡ false = ground arith in rw out

-- A round, once it is known what its write does.
dummy_rounds-next :
    (k i : ℕ) (digest : HashKey) (wrote : Option HashKey)
    → write_at (i % length digest / 16 * 16) (le_bytes 16 i) digest ≡ wrote
    → dummy_rounds (suc k) i digest ≡ Option.bind wrote (λ d. dummy_rounds k (i + 1) d)
unfolding dummy_rounds
dummy_rounds-next k i digest wrote e = ap (λ o. Option.bind o (λ d. dummy_rounds k (i + 1) d)) e

-- In a digest of whole 16-byte blocks every round stays inside.
dummy_rounds-inside :
    (k i m : ℕ) (digest : HashKey)
    → 0 < m
    → length digest ≡ 16 * m
    → (d : HashKey) × (dummy_rounds k i digest ≡ some d) × (length d ≡ length digest)
unfolding dummy_rounds Option.bind
dummy_rounds-inside zero i m digest pos e = (digest, refl, refl)
dummy_rounds-inside (suc k) i m digest pos e =
    let room : i % length digest < 16 * m = omega (arith, e, pos) in
    let (d, wrote, same) =
      write_at-length (i % length digest / 16 * 16) (le_bytes 16 i) digest
        (omega (arith, length-le_bytes 16 i, room)) in
    let (d', rest, same') = dummy_rounds-inside k (i + 1) m d pos (same ∙ e) in
    (d', dummy_rounds-next k i digest (some d) wrote ∙ rest, same' ∙ same)

-- In a digest of one or more whole blocks of 16 bytes `DummyHashEngine::hash` never writes
-- outside, whatever the input, and the digest keeps its length.
pub dummy-inside :
    (input : List ℕ) (digest : HashKey) (m : ℕ)
    → 0 < m
    → length digest ≡ 16 * m
    → (d : HashKey) × (dummy_hash input digest ≡ some d) × (length d ≡ length digest)
unfolding dummy_hash
dummy-inside input digest m pos e = dummy_rounds-inside (length input / 16) 0 m digest pos e

dummy_rounds-out :
    (k i m r : ℕ) (digest : HashKey)
    → length digest ≡ 16 * m + r
    → 0 < r
    → r < 16
    → i ≤ 16 * m
    → 16 * m < i + k
    → dummy_rounds k i digest ≡ none
unfolding dummy_rounds Option.bind
dummy_rounds-out zero i m r digest e low high le lt = absurd (omega arith)
dummy_rounds-out (suc k) i m r digest e low high le lt =
    let small : i % length digest ≡ i = mod-eq_of_lt (omega arith) in
    elim (dec_lt i (16 * m)) [
      | no last ↦ dummy_rounds-next k i digest none (
          write_at-out (i % length digest / 16 * 16) (le_bytes 16 i) digest
            (omega (arith, small, length-le_bytes 16 i)))
      | yes more ↦
          let (d, wrote, same) =
            write_at-length (i % length digest / 16 * 16) (le_bytes 16 i) digest
              (omega (arith, small, length-le_bytes 16 i)) in
          dummy_rounds-next k i digest (some d) wrote
          ∙ dummy_rounds-out k (i + 1) m r d (same ∙ e) low high (omega arith) (omega arith)
    ]

-- In a digest of `m` whole blocks of 16 bytes and 1 to 15 further bytes `DummyHashEngine::hash`
-- writes behind the end if the input has more than `16 * m` whole blocks of 16 bytes.
pub dummy-overflow :
    (input : List ℕ) (digest : HashKey) (m r : ℕ)
    → length digest ≡ 16 * m + r
    → 0 < r
    → r < 16
    → 16 * m < length input / 16
    → dummy_hash input digest ≡ none
unfolding dummy_hash
dummy-overflow input digest m r e low high long =
    dummy_rounds-out (length input / 16) 0 m r digest e low high (omega arith) (omega arith)
