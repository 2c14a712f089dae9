-- ===== src/Hash/Engines/Chunks.antt =====
-- `XXhash64Engine::hash` of include/hash.hpp: its loop over the input, and its static variable.
use fredlib.Base.{
  ℕ, zero, suc, ◌+◌, ◌-◌, ◌<◌, ◌≤◌, ◌≡◌, refl, sym, ap, ◌∙◌, true, false, Option, none, some, List,
  [], ◌∷◌, ◌++◌, leb, ltb, if◌then◌else◌, arith, length, take, drop, Bool-cases, inl, inr,
}
use mathlib.Core.Option
use fredlib.Hash.Key.{HashKey}
use fredlib.Hash.Engines.{le_bytes, XxHash64, first_of, update_len, feed, xx_finish, xx_hash}
use fredlib.Hash.Engines.Fill.{drop_all, filled, length-take, take_all, write-fits}
use fredlib.Hash.Engines.Dummy.{length-le_bytes, length-drop}
use native.Mathlib.Nat.{zero-add}
use mathlib.Core.List.{append-nil}

take-append-drop : (u : ℕ) (xs : List ℕ) → take u xs ++ drop u xs ≡ xs
take-append-drop zero xs = refl
take-append-drop (suc u) [] = refl
take-append-drop (suc u) (x ∷ xs) = ap (x ∷◌) (take-append-drop u xs)

drop-add : (i u : ℕ) (xs : List ℕ) → drop (i + u) xs ≡ drop u (drop i xs)
drop-add zero u xs = ap (λ k. drop k xs) (zero-add u)
drop-add (suc i) u [] = drop_all (suc i + u) [] (omega arith) ∙ sym (drop_all u [] (omega arith))
drop-add (suc i) u (x ∷ xs) =
    let e : suc i + u ≡ suc (i + u) = omega arith in ap (λ k. drop k (x ∷ xs)) e ∙ drop-add i u xs

-- The length of the next piece.
abbrev piece : (i u : ℕ) → List ℕ → ℕ
piece i u input = if leb (length input) (i + u) then length input - i else u

piece-rest :
    (i u : ℕ) (input : List ℕ)
    → take (piece i u input) (drop i input) ++ drop (i + u) input ≡ drop i input
piece-rest i u input = elim (Bool-cases (leb (length input) (i + u))) [
  | inr inside ↦ rw (inside, drop-add i u input) (take-append-drop u (drop i input))
  | inl last ↦
      rw (last, drop_all (i + u) input (ground arith), append-nil)
        (take_all (length input - i) (drop i input) (omega (arith, length-drop i input)))
]

-- One turn of the loop, inside the input and behind it.
feed-next :
    (x : XxHash64) (u k i : ℕ) (input : List ℕ) (s : x.State)
    → ltb i (length input) ≡ true
    → feed x u (suc k) i input s
      ≡ feed x u k (i + u) input (
          x.add s
            (take (if leb (length input) (i + u) then length input - i else u) (drop i input)))
unfolding feed
feed-next x u k i input s e = rw e

feed-stop :
    (x : XxHash64) (u k i : ℕ) (input : List ℕ) (s : x.State)
    → ltb i (length input) ≡ false
    → feed x u (suc k) i input s ≡ some s
unfolding feed
feed-stop x u k i input s e = rw e

-- The pieces add up to the input from position `i`.
feed-whole :
    (x : XxHash64) (u k i : ℕ) (input : List ℕ) (s : x.State)
    → 0 < u
    → 0 < k
    → length input < i + k
    → feed x u k i input s ≡ some (x.add s (drop i input))
feed-whole x u zero i input s pos out fuel = absurd (omega arith)
feed-whole x u (suc k) i input s pos some_fuel fuel = elim (Bool-cases (ltb i (length input))) [
  | inr stop ↦
      feed-stop x u k i input s stop
      ∙ ap some (sym (x.add_nil s) ∙ ap (x.add s) (sym (drop_all i input (ground arith))))
  | inl more ↦
      feed-next x u k i input s more
      ∙ feed-whole x u k (i + u) input (x.add s (take (piece i u input) (drop i input))) pos
          (ground arith) (omega arith)
      ∙ ap some (x.add_append s (take (piece i u input) (drop i input)) (drop (i + u) input))
      ∙ ap (λ r. some (x.add s r)) (piece-rest i u input)
]

-- The number that `XXhash64Engine::hash` comes to.
abbrev pub xx_value : XxHash64 → List ℕ → ℕ
xx_value x input = x.hash (x.add (x.seeded 0) input)

xx-fed :
    (x : XxHash64) (static : Option ℕ) (input : List ℕ) (digest : HashKey)
    → xx_hash x static input digest ≡ xx_finish (xx_value x input) static digest
unfolding xx_hash Option.bind
xx-fed x static input digest =
    ap (λ o. Option.bind o λ s. xx_finish (x.hash s) static digest)
      (feed-whole x update_len (length input + 1) 0 input (x.seeded 0) (omega arith) (omega arith)
        (omega arith))

-- As much of a number's bytes as the digest holds.
abbrev pub cut : ℕ → HashKey → HashKey
cut value digest = take (length digest) (le_bytes 8 value)

xx_finish-long :
    (value : ℕ) (static : Option ℕ) (digest : HashKey)
    → 8 ≤ length digest
    → xx_finish value static digest ≡ some (filled (le_bytes 8 value) digest, static)
unfolding xx_finish
xx_finish-long value static digest long =
    let room : leb 8 (length digest) ≡ true = ground arith in
    let size : length (le_bytes 8 value) ≤ length digest = omega (arith, length-le_bytes 8 value) in
    rw room (
      ap (Option.map (λ d. (d, static))) (write-fits (le_bytes 8 value) digest size)
      ∙ ap (λ front. some (front ++ drop (length (le_bytes 8 value)) digest, static))
          (sym (take_all (length digest) (le_bytes 8 value) size)))

xx_finish-short :
    (value : ℕ) (static : Option ℕ) (digest : HashKey)
    → length digest < 8
    → xx_finish value static digest
      ≡ some (cut (first_of static value) digest, some (first_of static value))
unfolding xx_finish
xx_finish-short value static digest short =
    let out : leb 8 (length digest) ≡ false = ground arith in
    let size : length (cut (first_of static value) digest) ≡ length digest = omega (
      arith,
      length-le_bytes 8 (first_of static value),
      length-take (length digest) (le_bytes 8 (first_of static value)),
    ) in
    rw out (
      ap (Option.map (λ d. (d, some (first_of static value))))
        (write-fits (cut (first_of static value) digest) digest (omega (arith, size)))
      ∙ ap (λ k. some (cut (first_of static value) digest ++ k, some (first_of static value)))
          (drop_all (length (cut (first_of static value) digest)) digest (omega (arith, size)))
      ∙ ap (λ d. some (d, some (first_of static value)))
          (append-nil (cut (first_of static value) digest)))

-- For a digest of 8 bytes or more `XXhash64Engine::hash` ends, fills the first 8 bytes with the
-- hash of the whole input, however many pieces it is fed in, keeps the bytes behind them, and
-- leaves the static variable alone.
pub xx-full :
    (x : XxHash64) (static : Option ℕ) (input : List ℕ) (digest : HashKey)
    → 8 ≤ length digest
    → xx_hash x static input digest ≡ some (filled (le_bytes 8 (xx_value x input)) digest, static)
xx-full x static input digest long =
    xx-fed x static input digest ∙ xx_finish-long (xx_value x input) static digest long

-- For a digest of fewer than 8 bytes, a first call of `XXhash64Engine::hash` fills it from the
-- hash of its input, and a second call, which finds the static variable initialised, fills it from
-- the hash of the first input again, whatever its own input is.
pub xx-stale :
    (x : XxHash64) (first second : List ℕ) (digest : HashKey)
    → length digest < 8
    → (xx_hash x none first digest ≡ some (cut (xx_value x first) digest, some (xx_value x first)))
      × (xx_hash x (some (xx_value x first)) second digest
          ≡ some (cut (xx_value x first) digest, some (xx_value x first)))
xx-stale x first second digest short = (
  xx-fed x none first digest ∙ xx_finish-short (xx_value x first) none digest short,
  xx-fed x (some (xx_value x first)) second digest
      ∙ xx_finish-short (xx_value x second) (some (xx_value x first)) digest short,
)
