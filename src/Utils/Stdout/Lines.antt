-- ===== src/Utils/Stdout/Lines.antt =====
-- What include/safe_stdout.hpp formats and prints.
use fredlib.Base.{
  ℕ, zero, suc, ◌+◌, ◌<◌, ◌≡◌, refl, ap, ◌∙◌, sym, false, Option, none, some, List, [], ◌∷◌, ◌++◌,
  take, length, arith,
}
use mathlib.Core.Option
use mathlib.Core.List.{append-nil, append_assoc}
use fredlib.Base.Int.{pos, negsuc, ◌+ℤ◌, +ℤ_pos, eq_ℤ}
use fredlib.Base.Text.{chars}
use fredlib.Utils.Stdout.{
  Text, Printf, Formatted, formatted, thrown, int_max, format_in, string_format, Stdout,
  safe_stdout, time_text, printed, joined, initialised, last_time,
}

take-append : (s t : Text) → take (length s) (s ++ t) ≡ s
take-append [] t = refl
take-append (x ∷ s) t = ap (λ r. x ∷ r) (take-append s t)

take-length : (s : Text) → take (length s) s ≡ s
take-length [] = refl
take-length (x ∷ s) = ap (λ r. x ∷ r) (take-length s)

-- A result of `snprintf` below zero throws.
format_in-negsuc :
    (p : Printf) (n : ℕ) (format : Text) (args : p.Args)
    → format_in p (negsuc n +ℤ pos 1) format args ≡ thrown
unfolding format_in ◌+ℤ◌
format_in-negsuc p zero format args = refl
format_in-negsuc p (suc n) format args = ground arith

string_format-text :
    (p : Printf) (format : Text) (args : p.Args) (s : Text)
    → p.text format args ≡ some s
    → length s < int_max
    → string_format p format args ≡ formatted s
unfolding string_format format_in
string_format-text p format args s e small =
    let fits : eq_ℤ (pos (length s)) (pos int_max) ≡ false = ground arith in
    let size : pos (length s) +ℤ pos 1 ≡ pos (suc (length s)) =
      +ℤ_pos (length s) 1 ∙ ap pos (omega arith) in
    rw
      (
        p.measures 0 format args s e (omega arith),
        fits,
        size,
        p.writes (length s) format args s e,
        take-length s,
        take-append s (0 ∷ []),
      )
      refl

string_format-throws :
    (p : Printf) (format : Text) (args : p.Args)
    → p.text format args ≡ none
    → string_format p format args ≡ thrown
unfolding string_format
string_format-throws p format args e =
    let (n, below) = p.fails 0 format args e in
    let fits : eq_ℤ (negsuc n) (pos int_max) ≡ false = ground arith in
    rw (below, fits) (format_in-negsuc p n format args)

-- What a format stands for, or the exception.
abbrev pub outcome_of : Option Text → Formatted
outcome_of none = thrown
outcome_of (some s) = formatted s

-- Provided that the text which a format and its arguments stand for, if there is one, is shorter
-- than the greatest `int`: `string_format` returns that text, whole and without its terminating
-- null, and it throws if there is none.
pub string_format-outcome :
    (p : Printf) (format : Text) (args : p.Args)
    → ((s : Text) → p.text format args ≡ some s → length s < int_max)
    → string_format p format args ≡ outcome_of (p.text format args)
string_format-outcome p format args small = go (p.text format args) refl
  where
    go :
        (t : Option Text)
        → p.text format args ≡ t
        → string_format p format args ≡ outcome_of (p.text format args)
    go none e = string_format-throws p format args e ∙ ap outcome_of (sym e)
    go (some s) e = string_format-text p format args s e (small s e) ∙ ap outcome_of (sym e)

-- A call of `safe_stdout` by a thread, with what its format and arguments stand for.
pub record Call (p : Printf) : Type 0 where
  pub thread : ℕ
  pub before : ℕ
  pub after : ℕ
  pub format : Text
  pub args : p.Args
  pub line : Text
  pub means : p.text format args ≡ some line
  pub small : length line + 4 < int_max

abbrev pub print_all : (p : Printf) → List (Call p) → Stdout → Stdout
print_all p [] s = s
print_all p (c ∷ cs) s =
    print_all p cs (safe_stdout p c.thread c.before c.after c.format c.args s).1

abbrev pub lines_of : {p : Printf} → List (Call p) → List Text
lines_of [] = []
lines_of (c ∷ cs) = (chars "[x] " ++ c.line) ∷ lines_of cs

safe_stdout-line :
    (p : Printf) (c : Call p) (s : Stdout)
    → s.printtime ≡ false
    → (safe_stdout p c.thread c.before c.after c.format c.args s).1
      ≡ printed c.thread c.after
          (formatted (chars "[x] " ++ c.line))
          (initialised c.thread c.before s)
unfolding safe_stdout time_text
safe_stdout-line p c s quiet =
    let whole : Text = chars "[x] " ++ c.line in
    let made : string_format p (chars "%s" ++ c.format) (p.string_arg (chars "[x] ") c.args)
        ≡ formatted whole =
      string_format-text p (chars "%s" ++ c.format) (p.string_arg (chars "[x] ") c.args) whole
        (p.text_string (chars "[x] ") c.format c.args
          ∙ ap (Option.map (λ t. chars "[x] " ++ t)) c.means)
        (omega (arith, c.small)) in
    let last = last_time (s.last_print_time c.thread) c.before in
    ap
      (λ t.
        printed c.thread c.after
          (joined t (string_format p (chars "%s" ++ c.format) (p.string_arg (chars "[x] ") c.args)))
          (initialised c.thread c.before s))
      (ap (λ b. time_text p b last c.before) quiet)
    ∙ ap (λ f. printed c.thread c.after (joined (formatted []) f) (initialised c.thread c.before s))
        made

-- While times are not printed, calls of `safe_stdout` by any threads, each with a format and
-- arguments that stand for a text, 4 characters shorter at least than the greatest `int`, add one
-- line each, in the order of the calls: the prefix and the text.
pub print_all-lines :
    (p : Printf) (cs : List (Call p)) (s : Stdout)
    → s.printtime ≡ false
    → (print_all p cs s).lines ≡ s.lines ++ lines_of cs
print_all-lines p [] s quiet = sym (append-nil s.lines)
print_all-lines p (c ∷ cs) s quiet =
    let whole : Text = chars "[x] " ++ c.line in
    ap (λ t. (print_all p cs t).lines) (safe_stdout-line p c s quiet)
    ∙ print_all-lines p cs
        (printed c.thread c.after (formatted whole) (initialised c.thread c.before s)) quiet
    ∙ append_assoc s.lines (whole ∷ []) (lines_of cs)
