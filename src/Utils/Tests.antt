-- ===== src/Utils/Tests.antt =====
-- Runs of the helpers of include/safe_stdout.hpp, with an `snprintf` that knows `%s` only.
use fredlib.Base.{
  ℕ, zero, suc, ◌≡◌, refl, ap, false, Option, none, some, List, [], ◌∷◌, ◌++◌, if◌then◌else◌, take,
  length, ◌==◌, arith,
}
use mathlib.Core.Option
use fredlib.Base.Int.{ℤ, pos, negsuc, ◌+ℤ◌}
use fredlib.Base.Text.{chars}
use fredlib.Utils.Stdout.{Text, Printf, Stdout, string_format}
use fredlib.Utils.Stdout.Lines.{Call, outcome_of, string_format-outcome}

-- A format with `%s` for each argument; there is no text for any other conversion.
unfoldable render : Text → List Text → Option Text
render [] args = some []
render (c ∷ []) args = if c == 37 then none else some (c ∷ [])
render (c ∷ d ∷ r) [] =
    let plain = render (d ∷ r) [] in if c == 37 then none else Option.map (λ t. c ∷ t) plain
render (c ∷ d ∷ r) (s ∷ args) =
    let plain = render (d ∷ r) (s ∷ args) in
    let filled = render r args in
    if c == 37
    then (if d == 115 then Option.map (λ t. s ++ t) filled else none)
    else Option.map (λ t. c ∷ t) plain

unfoldable printed_to : ℕ → Option Text → ℤ × Text
printed_to size none = (negsuc 0, [])
printed_to zero (some s) = (pos (length s), [])
printed_to (suc room) (some s) = (pos (length s), take room s ++ 0 ∷ [])

printed_to-measures :
    (size : ℕ) (t : Option Text) (s : Text) → t ≡ some s → (printed_to size t).0 ≡ pos (length s)
unfolding printed_to
printed_to-measures zero t s e = ap (λ o. (printed_to 0 o).0) e
printed_to-measures (suc room) t s e = ap (λ o. (printed_to (suc room) o).0) e

render-string :
    (s format : Text) (args : List Text)
    → render (chars "%s" ++ format) (s ∷ args) ≡ Option.map (λ t. s ++ t) (render format args)
unfolding render
render-string s format args = refl

printed_to-writes :
    (room : ℕ) (t : Option Text) (s : Text)
    → t ≡ some s
    → (printed_to (suc room) t).1 ≡ take room s ++ 0 ∷ []
unfolding printed_to
printed_to-writes room t s e = ap (λ o. (printed_to (suc room) o).1) e

printed_to-fails :
    (size : ℕ) (t : Option Text) → t ≡ none → (n : ℕ) × ((printed_to size t).0 ≡ negsuc n)
unfolding printed_to
printed_to-fails size t e = (0, ap (λ o. (printed_to size o).0) e)

abbrev printf : Printf
printf = record {
  Args = List Text;
  string_arg = λ s args. s ∷ args;
  count_arg = λ n. [];
  text = render;
  text_string = render-string;
  snprintf = λ size format args. printed_to size (render format args);
  measures = λ size format args s e small. printed_to-measures size (render format args) s e;
  writes = λ room format args s e. printed_to-writes room (render format args) s e;
  fails = λ size format args e. printed_to-fails size (render format args) e;
}

abbrev length_of : Option Text → ℕ
length_of none = 0
length_of (some s) = length s

string_format-outcome_example :
    string_format printf (chars "a%s") (chars "bc" ∷ [])
    ≡ outcome_of (printf.text (chars "a%s") (chars "bc" ∷ []))
unfolding render
string_format-outcome_example =
    string_format-outcome printf (chars "a%s") (chars "bc" ∷ [])
      (λ s e. let size : 3 ≡ length s = ap length_of e in omega (arith, size))

-- A call that cannot be converted throws.
string_format_throws : string_format printf (chars "%d") [] ≡ outcome_of none
unfolding string_format render printed_to ◌+ℤ◌
string_format_throws = refl

hello : (thread : ℕ) → Call printf
unfolding render
hello thread = record {
  thread = thread;
  before = 5;
  after = 6;
  format = chars "hi %s";
  args = chars "you" ∷ [];
  line = chars "hi you";
  means = refl;
  small = omega arith;
}

abbrev silent : Stdout
silent = record { printtime = false; lines = []; last_print_time = λ _. none }
