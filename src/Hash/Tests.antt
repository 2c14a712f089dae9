-- ===== src/Hash/Tests.antt =====
-- Runs of include/hash.hpp on small digests, with stand-ins for the hash functions from outside.
use fredlib.Base.{
  ℕ, ◌<◌, ◌≡◌, ◌≢◌, refl, true, false, none, some, List, [], ◌∷◌, ◌++◌, arith, length, take,
  replicate, length-replicate,
}
use mathlib.Core.List.{append-nil, append_assoc}
use fredlib.Hash.Key.{HashKey, hash_key, lt_key, le_key, ge_key}
use fredlib.Hash.Order.{be_value, lt_key-unsound}
use fredlib.Hash.Print.{print_bytes-injective}
use fredlib.Hash.Engines.{
  le_bytes, dummy_hash, ShaType, sha3_224, Evp, sha_hash, key_bytes, XxHash64, xx_hash,
}
use fredlib.Hash.Engines.Fill.{filled, standard_size, sha3_224_key-cut}
use fredlib.Hash.Engines.Dummy.{dummy-overflow}
use fredlib.Hash.Engines.Chunks.{xx_value, cut, xx-full, xx-stale}

lt_key-unsound_example :
    (be_value (1 ∷ 3 ∷ []) < be_value (2 ∷ 1 ∷ []))
    × (lt_key (2 ∷ 1 ∷ []) (1 ∷ 3 ∷ []) ≡ true)
    × (lt_key (1 ∷ 3 ∷ []) (2 ∷ 1 ∷ []) ≡ true)
    × (le_key (2 ∷ 1 ∷ []) (1 ∷ 3 ∷ []) ≡ false)
    × (ge_key (2 ∷ 1 ∷ []) (1 ∷ 3 ∷ []) ≡ false)
lt_key-unsound_example =
    lt_key-unsound 2 1 (1 ∷ []) (3 ∷ []) 0 (omega arith, (omega arith, tt))
      (omega arith, (omega arith, tt)) refl (omega arith) (1, 3, refl, refl, omega arith)

print_bytes-injective_example : ◌≡◌ {A = HashKey} (171 ∷ 5 ∷ []) (171 ∷ 5 ∷ [])
print_bytes-injective_example =
    print_bytes-injective (171 ∷ 5 ∷ []) (171 ∷ 5 ∷ []) (omega arith, (omega arith, tt))
      (omega arith, (omega arith, tt)) refl

-- A hash of the right size that only counts the input.
abbrev evp : Evp
evp = record {
  Context = ShaType × List ℕ;
  md_size = standard_size;
  init = λ t. (t, []);
  update = λ c input. (c.0, c.1 ++ input);
  final = λ c. replicate (standard_size c.0) (length c.1);
  final_size = λ t input. length-replicate (standard_size t) (length input);
}

sha3_224_key-cut_example :
    (hash_key (sha_hash evp sha3_224) (key_bytes sha3_224) (5 ∷ [])
      ≡ some (take 26 (evp.final (evp.update (evp.init sha3_224) (5 ∷ [])))))
    × (hash_key (sha_hash evp sha3_224) (key_bytes sha3_224) (5 ∷ [])
        ≢ some (evp.final (evp.update (evp.init sha3_224) (5 ∷ []))))
sha3_224_key-cut_example = sha3_224_key-cut evp (λ t. refl) (5 ∷ [])

-- A state that keeps the input, and its length for the hash.
abbrev xx : XxHash64
xx = record {
  State = List ℕ;
  seeded = λ seed. [];
  add = λ s input. s ++ input;
  hash = length;
  add_nil = append-nil;
  add_append = append_assoc;
}

xx-full_example :
    xx_hash xx none (1 ∷ 2 ∷ 3 ∷ []) (replicate 10 0)
    ≡ some (filled (le_bytes 8 (xx_value xx (1 ∷ 2 ∷ 3 ∷ []))) (replicate 10 0), none)
xx-full_example = xx-full xx none (1 ∷ 2 ∷ 3 ∷ []) (replicate 10 0) (omega arith)

xx-stale_example :
    (xx_hash xx none (1 ∷ []) (0 ∷ 0 ∷ [])
      ≡ some (cut (xx_value xx (1 ∷ [])) (0 ∷ 0 ∷ []), some (xx_value xx (1 ∷ []))))
    × (xx_hash xx (some (xx_value xx (1 ∷ []))) (1 ∷ 2 ∷ []) (0 ∷ 0 ∷ [])
        ≡ some (cut (xx_value xx (1 ∷ [])) (0 ∷ 0 ∷ []), some (xx_value xx (1 ∷ []))))
xx-stale_example = xx-stale xx (1 ∷ []) (1 ∷ 2 ∷ []) (0 ∷ 0 ∷ []) (omega arith)

dummy-overflow_example : dummy_hash (replicate 272 7) (replicate 20 0) ≡ none
dummy-overflow_example =
    dummy-overflow (replicate 272 7) (replicate 20 0) 1 4 refl (omega arith) (omega arith)
      (omega (arith, length-replicate {A = ℕ} 272 7))
