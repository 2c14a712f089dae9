-- ===== src/Hash/Order.antt =====
-- The comparisons of include/hash.hpp's `HashKey`, against the numbers that the digests stand for.
use fredlib.Base.{
  ℕ, zero, suc, ◌+◌, ◌*◌, ◌^◌, ◌<◌, ◌≤◌, ◌≡◌, refl, ap, ◌↔◌, inl, inr, Bool-cases, true, false, not,
  some, [], ◌∷◌, arith, subst, ltb→lt, ltb, length, get_elem?,
}
use native.Mathlib.Nat.{pow-suc}
use fredlib.Hash.Key.{HashKey, eq_key, ne_key, lt_key, le_key, ge_key}

abbrev pub AllBytes : HashKey → Type 0
AllBytes [] = Unit
AllBytes (b ∷ bs) = (b < 256) × AllBytes bs

-- The big-endian number that a digest stands for.
unfoldable pub be_value : HashKey → ℕ
be_value [] = 0
be_value (b ∷ bs) = b * 256 ^ length bs + be_value bs

eq_key_refl : (l : HashKey) → eq_key l l ≡ true
unfolding eq_key
eq_key_refl [] = refl
eq_key_refl (x ∷ xs) = ground (arith, eq_key_refl xs)

eq_key_sound : (l r : HashKey) → length l ≡ length r → eq_key l r ≡ true → l ≡ r
unfolding eq_key
eq_key_sound [] [] e h = refl
eq_key_sound [] (y ∷ ys) e h = absurd (omega arith)
eq_key_sound (x ∷ xs) [] e h = absurd (omega arith)
eq_key_sound (x ∷ xs) (y ∷ ys) e h = ground (arith, eq_key_sound xs ys)

eq_key_comm : (l r : HashKey) → eq_key l r ≡ eq_key r l
unfolding eq_key
eq_key_comm [] [] = refl
eq_key_comm [] (y ∷ ys) = refl
eq_key_comm (x ∷ xs) [] = refl
eq_key_comm (x ∷ xs) (y ∷ ys) = ground (arith, eq_key_comm xs ys)

-- For two digests of one length, `==` holds exactly when they are equal, and `!=` is its negation.
pub eq_key_iff :
    (l r : HashKey)
    → length l ≡ length r
    → ((eq_key l r ≡ true) ↔ (l ≡ r)) × (ne_key l r ≡ not (eq_key l r))
unfolding ne_key
eq_key_iff l r e = (
  (eq_key_sound l r e, λ same. subst (λ k. eq_key l k ≡ true) same (eq_key_refl l)),
  ap not (eq_key_comm r l),
)

-- A position at which the first digest is less.
abbrev pub LessAt : HashKey → HashKey → ℕ → Type 0
LessAt l r i = (a : ℕ) × (b : ℕ) × (get_elem? l i ≡ some a) × (get_elem? r i ≡ some b) × (a < b)

lt_key-some : (l r : HashKey) → lt_key l r ≡ true → (i : ℕ) × LessAt l r i
unfolding lt_key
lt_key-some [] r h = absurd (cc)
lt_key-some (x ∷ xs) [] h = absurd (cc)
lt_key-some (x ∷ xs) (y ∷ ys) h = elim (Bool-cases (ltb x y)) [
  | inl less ↦ (0, (x, y, refl, refl, ltb→lt x y less))
  | inr more ↦ let (i, at) = lt_key-some xs ys (rw more at h) in (suc i, at)
]

lt_key-at : (l r : HashKey) (i : ℕ) → LessAt l r i → lt_key l r ≡ true
unfolding lt_key
lt_key-at [] r i (a, b, e, f, h) = absurd (cc)
lt_key-at (x ∷ xs) [] i (a, b, e, f, h) = absurd (cc)
lt_key-at (x ∷ xs) (y ∷ ys) zero (a, b, e, f, h) = ground arith
lt_key-at (x ∷ xs) (y ∷ ys) (suc i) at = ground (arith, lt_key-at xs ys i at)

-- `<` holds of two digests exactly when at some position both have a byte and the first one's is
-- less.
pub lt_key_iff : (l r : HashKey) → (lt_key l r ≡ true) ↔ ((i : ℕ) × LessAt l r i)
lt_key_iff l r = (lt_key-some l r, λ (i, at). lt_key-at l r i at)

lt_key-false-le :
    (l r : HashKey) → length l ≡ length r → lt_key l r ≡ false → be_value r ≤ be_value l
unfolding lt_key be_value
lt_key-false-le [] [] e h = omega arith
lt_key-false-le [] (y ∷ ys) e h = absurd (omega arith)
lt_key-false-le (x ∷ xs) [] e h = absurd (omega arith)
lt_key-false-le (x ∷ xs) (y ∷ ys) e h = elim (Bool-cases (ltb x y)) [
  | inl less ↦ absurd (ground arith)
  | inr more ↦
      let same : length xs ≡ length ys = omega arith in
      let rest = lt_key-false-le xs ys same (rw more at h) in
      let top : y ≤ x = ground arith in rw same (grind arith)
]

-- For two digests of one length, `<` holds if the big-endian number of the first is less than that
-- of the second.
pub lt_key_complete :
    (l r : HashKey) → length l ≡ length r → be_value l < be_value r → lt_key l r ≡ true
lt_key_complete l r e h = elim (Bool-cases (lt_key l r)) [
  | inl less ↦ less
  | inr other ↦ absurd (omega (arith, lt_key-false-le l r e other))
]

top_le : (x p : ℕ) → x < 256 → x * p + p ≤ p * 256
top_le x p h = grind arith

-- A greater top digit outweighs what follows it.
top-lt : (a b p u v : ℕ) → b < a → v < p → b * p + v < a * p + u
top-lt a b p u v h k = let step : b * p + p ≤ a * p = grind arith in omega arith

be_value-lt : (l : HashKey) → AllBytes l → be_value l < 256 ^ length l
unfolding be_value
be_value-lt [] s = omega arith
be_value-lt (x ∷ xs) s =
    let rest = be_value-lt xs s.1 in
    let top : x * 256 ^ length xs + 256 ^ length xs ≤ 256 ^ length xs * 256 =
      top_le x (256 ^ length xs) s.0 in
    rw pow-suc (omega arith)

-- For two digests of one length whose entries are bytes: if the first has the greater first byte
-- and a smaller byte at a later place, then the first is the greater big-endian number, and yet
-- `<` holds of the two in both directions, and `<=` and `>=` of the first and the second fail.
pub lt_key-unsound :
    (a b : ℕ) (ls rs : HashKey) (i : ℕ)
    → AllBytes (a ∷ ls)
    → AllBytes (b ∷ rs)
    → length ls ≡ length rs
    → b < a
    → LessAt ls rs i
    → (be_value (b ∷ rs) < be_value (a ∷ ls))
      × (lt_key (a ∷ ls) (b ∷ rs) ≡ true)
      × (lt_key (b ∷ rs) (a ∷ ls) ≡ true)
      × (le_key (a ∷ ls) (b ∷ rs) ≡ false)
      × (ge_key (a ∷ ls) (b ∷ rs) ≡ false)
unfolding le_key ge_key be_value
lt_key-unsound a b ls rs i sl sr e h at =
    let up = lt_key-at (a ∷ ls) (b ∷ rs) (suc i) at in
    let down = lt_key-at (b ∷ rs) (a ∷ ls) 0 (b, a, refl, refl, h) in
    let rest : be_value rs < 256 ^ length ls = rw e (be_value-lt rs sr.1) in
    (
      rw (← e) (top-lt a b (256 ^ length ls) (be_value ls) (be_value rs) h rest),
      up,
      down,
      ap not down,
      ap not up,
    )
