-- ===== src/Utils/Stdout.antt =====
-- include/safe_stdout.hpp: `string_format`, and printing under a lock.
pub mod Lines
use fredlib.Base.{
  ℕ, zero, suc, ◌+◌, ◌-◌, ◌/◌, ◌^◌, ◌<◌, ◌≡◌, Bool, true, false, Option, none, some, List, [], ◌∷◌,
  ◌++◌, if◌then◌else◌, take, length, map, ◌==◌,
}
use mathlib.Core.Option
use fredlib.Base.Int.{ℤ, pos, negsuc, ◌+ℤ◌, eq_ℤ}
use fredlib.Base.Text.{chars}
use fredlib.Utils.Time.{ms_elapsed_since}
use fredlib.Threading.Threads.{at_thread}

abbrev pub Text : Type 0
Text = List ℕ

-- `snprintf` of the C library: its result, and what it writes in a buffer of `size` bytes. `text` is
-- what a format and its arguments stand for; there is none if they cannot be converted.
pub record Printf : Type 1 where
  pub Args : Type 0
  pub string_arg : Text → Args → Args
  pub count_arg : ℕ → Args
  pub text : Text → Args → Option Text
  pub text_string :
      (s format : Text) (args : Args)
      → text (chars "%s" ++ format) (string_arg s args)
        ≡ Option.map (λ t. s ++ t) (text format args)
  pub snprintf : (size : ℕ) → Text → Args → ℤ × Text
  pub measures :
      (size : ℕ) (format : Text) (args : Args) (s : Text)
      → text format args ≡ some s
      → length s < 2 ^ 31
      → (snprintf size format args).0 ≡ pos (length s)
  pub writes :
      (room : ℕ) (format : Text) (args : Args) (s : Text)
      → text format args ≡ some s
      → (snprintf (suc room) format args).1 ≡ take room s ++ 0 ∷ []
  pub fails :
      (size : ℕ) (format : Text) (args : Args)
      → text format args ≡ none
      → (n : ℕ) × ((snprintf size format args).0 ≡ negsuc n)

-- `thrown` is the `runtime_error`, and `undefined` the overflow of the `int` in `… + 1`.
pub data Formatted : Type 0 where
  formatted : Text → Formatted
  thrown : Formatted
  undefined : Formatted

abbrev pub int_max : ℕ
int_max = 2_147_483_647

-- `string_format` from its test of `size_s` on.
unfoldable pub format_in : (p : Printf) → (size_s : ℤ) → Text → p.Args → Formatted
format_in p (negsuc n) format args = thrown
format_in p (pos zero) format args = thrown
format_in p (pos (suc room)) format args =
    let buf = (p.snprintf (suc room) format args).1 in formatted (take room buf)

unfoldable pub string_format : (p : Printf) → Text → p.Args → Formatted
unfolding format_in
string_format p format args =
    let measured = (p.snprintf 0 format args).0 in
    if eq_ℤ measured (pos int_max) then undefined else format_in p (measured +ℤ pos 1) format args

-- The globals, with what has been written to `std::cout`, line by line. `last_print_time` is a static
-- variable of each thread.
pub record Stdout : Type 0 where
  pub printtime : Bool  -- g_printtime
  pub lines : List Text
  pub last_print_time : ℕ → Option ℕ

unfoldable pub setprinttime : Bool → Stdout → Stdout
setprinttime prt s = record s { printtime = prt }

-- The static variable, initialised if it is not yet.
abbrev pub last_time : Option ℕ → ℕ → ℕ
last_time none now = now
last_time (some t) now = t

abbrev pub initialised : (thread now : ℕ) → Stdout → Stdout
initialised thread now s = record s {
  last_print_time =
      at_thread thread (some (last_time (s.last_print_time thread) now)) s.last_print_time;
}

-- `s = t + …`: nothing is printed unless both texts are made.
abbrev pub joined : Formatted → Formatted → Formatted
joined (formatted t) (formatted s) = formatted (t ++ s)
joined (formatted t) other = other
joined other s = other

-- `t`
unfoldable pub time_text : (p : Printf) → Bool → (last now : ℕ) → Formatted
unfolding string_format
time_text p printtime last now =
    if printtime
    then string_format p (chars "(+%.4dms) ") (p.count_arg (ms_elapsed_since last now))
    else formatted []

abbrev pub printed : (thread last : ℕ) → Formatted → Stdout → Stdout
printed thread last (formatted line) s = record s {
  lines = s.lines ++ line ∷ [];
  last_print_time = at_thread thread (some last) s.last_print_time;
}
printed thread last other s = s

-- `safe_stdout` by a thread, when the clock shows `before`, and `after` once it has printed. The
-- result says whether the line was printed.
unfoldable pub safe_stdout :
    (p : Printf) → (thread before after : ℕ) → Text → p.Args → Stdout → Formatted × Stdout
unfolding time_text string_format
safe_stdout p thread before after format args s =
    let t = time_text p s.printtime (last_time (s.last_print_time thread) before) before in
    let line =
      joined t (string_format p (chars "%s" ++ format) (p.string_arg (chars "[x] ") args)) in
    (line, printed thread after line (initialised thread before s))
