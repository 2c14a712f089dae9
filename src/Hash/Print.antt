-- ===== src/Hash/Print.antt =====
-- The printed form of include/hash.hpp's `HashKey`.
use fredlib.Base.{ℕ, ◌/◌, ◌%◌, ◌<◌, ◌≡◌, ◌≢◌, sym, refl, ap, List, [], ◌∷◌, arith}
use mathlib.Core.Path.{ap₂}
use fredlib.Hash.Key.{HashKey, hex_digit, print_bytes}
use fredlib.Hash.Order.{AllBytes}

hex_digit-injective : (a b : ℕ) → hex_digit a ≡ hex_digit b → a < 16 → b < 16 → a ≡ b
unfolding hex_digit
hex_digit-injective a b e la lb = ground arith

cons-injective : (x y : ℕ) (xs ys : List ℕ) → x ∷ xs ≡ y ∷ ys → (x ≡ y) × (xs ≡ ys)
cons-injective x y xs ys e = (cc, cc)

tail_of : List ℕ → List ℕ
tail_of [] = []
tail_of (x ∷ xs) = xs

nil≢cons : {x : ℕ} {xs : List ℕ} → [] ≢ x ∷ xs
nil≢cons e = cc

-- Two digests whose entries are bytes and which `operator<<` prints alike are equal.
pub print_bytes-injective :
    (l r : HashKey) → AllBytes l → AllBytes r → print_bytes l ≡ print_bytes r → l ≡ r
unfolding print_bytes tail_of
print_bytes-injective [] [] bl br e = refl
print_bytes-injective [] (y ∷ ys) bl br e = absurd (nil≢cons (ap tail_of e))
print_bytes-injective (x ∷ xs) [] bl br e = absurd (nil≢cons (sym (ap tail_of e)))
print_bytes-injective (x ∷ xs) (y ∷ ys) bl br e =
    let (high, rest) = cons-injective _ _ _ _ e in
    let (low, rest') = cons-injective _ _ _ _ rest in
    let top =
      hex_digit-injective (x / 16) (y / 16) high (omega (arith, bl.0)) (omega (arith, br.0)) in
    let bottom = hex_digit-injective (x % 16) (y % 16) low (omega arith) (omega arith) in
    ap₂ {C = HashKey} ◌∷◌ (omega arith) (print_bytes-injective xs ys bl.1 br.1 rest')
