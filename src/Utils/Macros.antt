-- ===== src/Utils/Macros.antt =====
-- include/micros.hpp: the assertion and the sizes.
use fredlib.Base.{ℕ, ◌^◌, Bool, Option, none, some, ltb, if◌then◌else◌}

-- `TEST_ONLY` and `NOT_FOR_TEST`: what they leave of a piece of code, by whether `UNDER_TEST` is defined.
unfoldable pub test_only {ℓ} : {A : Type ℓ} → (under_test : Bool) → A → Option A
test_only under_test expr = if under_test then some expr else none

unfoldable pub not_for_test {ℓ} : {A : Type ℓ} → (under_test : Bool) → A → Option A
not_for_test under_test expr = if under_test then none else some expr

-- `UNUSED`: the expression is evaluated, and its value dropped.
unfoldable pub unused {ℓ} : {A : Type ℓ} → A → Unit {0}
unused expr = tt

-- `ALWAYS_BREAK`: a trap on x86-64, and `abort` elsewhere.
pub data Break : Type 0 where
  int3 : Break
  abort : Break

unfoldable pub always_break : (x86_64 : Bool) → Break
always_break x86_64 = if x86_64 then int3 else abort

-- `1 << n` on an `int` of 32 bits: undefined once the one leaves the value bits.
unfoldable pub shift_one : ℕ → Option ℕ
shift_one n = if ltb n 31 then some (2 ^ n) else none

abbrev pub kb : Option ℕ
kb = shift_one 10

abbrev pub mb : Option ℕ
mb = shift_one 20

abbrev pub gb : Option ℕ
gb = shift_one 30

abbrev pub tb : Option ℕ
tb = shift_one 40

abbrev pub pb : Option ℕ
pb = shift_one 50

abbrev pub eb : Option ℕ
eb = shift_one 60

-- What `ASSUME` does: it goes on, or it reports the message with its place and the error number, and
-- breaks.
pub data Assumed (Message : Type 0) : Type 0 where
  goes_on : Assumed Message
  broken : (message : Message) (line error_number : ℕ) → Break → Assumed Message

-- `__assertFunction`; `x86_64` is of the machine that the code is compiled for.
unfoldable pub assert_function :
    {Message : Type 0} → (x86_64 : Bool) → Message → (line error_number : ℕ) → Assumed Message
unfolding always_break
assert_function x86_64 message line error_number =
    broken message line error_number (always_break x86_64)

unfoldable pub assume :
    {Message : Type 0}
    → (x86_64 predicate : Bool) → Message
    → (line error_number : ℕ) → Assumed Message
unfolding assert_function
assume x86_64 predicate message line error_number =
    if predicate then goes_on else assert_function x86_64 message line error_number
