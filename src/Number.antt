-- ===== src/Number.antt =====
-- The conversions of the C++ library that the arithmetic of client_connection.cpp calls,
-- `std::stoi` and `std::to_string`, and the range of `int`.
pub mod RoundTrip
use mathlib.Core.Logic.{dite}
use mathlib.Core.WellFounded.{Acc, WellFounded}
use native.Mathlib.Decide.{dec_lt}
use a_multi_threaded_key_val.Prelude.{
  ℕ, zero, suc, ◌+◌, ◌-◌, ◌*◌, ◌/◌, ◌%◌, ◌^◌, ◌<◌, Bool, ◌&&◌, ◌||◌, List, [], ◌∷◌, arith, ltb, leb,
  ◌==◌, if◌then◌else◌,
}
use a_multi_threaded_key_val.Prelude.Int.{ℤ, pos, negsuc, sub_ℕ, pos_part, neg_part}
use a_multi_threaded_key_val.Text.{Str, is_digit, skip_spaces}

-- 32-bit `int`: from -2^31 to 2^31 - 1.
abbrev pub in_range : ℤ → Bool
in_range (pos n) = ltb n 2147483648
in_range (negsuc n) = ltb n 2147483648

-- What `stoi` gives: a number, or one of its two exceptions.
pub data Parsed : Type 0 where
  parsed : ℤ → Parsed
  invalid_argument : Parsed
  out_of_range : Parsed

-- The digits that the text begins with, read onto `n`; what follows them is ignored.
unfoldable pub read_digits : ℕ → Str → ℕ
read_digits n [] = n
read_digits n (c ∷ s) =
    let rest = read_digits (n * 10 + (c - b'0')) s in if is_digit c then rest else n

abbrev pub check_range : ℤ → Parsed
check_range z = if in_range z then parsed z else out_of_range

-- The text behind a sign: `f` gives the number its sign.
unfoldable pub read_number : (ℕ → ℤ) → Str → Parsed
read_number f [] = invalid_argument
read_number f (c ∷ s) =
    if is_digit c then check_range (f (read_digits 0 (c ∷ s))) else invalid_argument

abbrev pub read_signed : Str → Parsed
read_signed [] = invalid_argument
read_signed (c ∷ s) =
    if c == b'-'
    then read_number (λ n. sub_ℕ 0 n) s
    else if c == b'+'
    then read_number pos s
    else read_number pos (c ∷ s)

-- `std::stoi(text)`: white space, a sign, decimal digits.
unfoldable pub stoi : Str → Parsed
unfolding skip_spaces read_number
stoi text = read_signed (skip_spaces text)

Acc-below : (k n : ℕ) → n < k → Acc ◌<◌ n
Acc-below zero n h = absurd (omega arith)
Acc-below (suc k) n h = Acc.intro n λ m hm. Acc-below k m (omega arith)

unfoldable pub lt_wf : WellFounded ◌<◌
unfolding Acc-below
lt_wf = record { apply = λ n. Acc-below (suc n) n (omega arith) }

pub tenth-lt : {n : ℕ} → 9 < n → n / 10 < n
tenth-lt h = omega arith

-- The decimal digits of `n`, put before `out`.
unfoldable pub digits_acc : (n : ℕ) → Acc ◌<◌ n → Str → Str
digits_acc n (Acc.intro _ smaller) out =
    dite (dec_lt 9 n)
      (λ h. digits_acc (n / 10) (smaller (n / 10) (tenth-lt h)) ((b'0' + n % 10) ∷ out))
      (λ _. (b'0' + n) ∷ out)

unfoldable pub digits : ℕ → Str
unfolding digits_acc lt_wf dec_lt
digits n = digits_acc n (lt_wf.apply n) []

-- `std::to_string(value)`
unfoldable pub to_string : ℤ → Str
to_string (pos n) = digits n
to_string (negsuc n) = b'-' ∷ digits (suc n)
