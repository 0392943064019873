-- ===== src/Number/RoundTrip.antt =====
-- `stoi` behind `to_string`, and the texts of `int`s.
use mathlib.Core.WellFounded.{Acc}
use native.Mathlib.Decide.{dec_lt}
use native.Mathlib.Nat.{pow-suc}
use native.Mathlib.Bridge.{le_prop}
use mathlib.Core.Logic.{dif_pos, dif_neg}
use a_multi_threaded_key_val.Prelude.{
  ℕ, zero, suc, ◌+◌, ◌-◌, ◌*◌, ◌/◌, ◌%◌, ◌^◌, ◌≤◌, ◌<◌, ◌≡◌, refl, ◌∙◌, true, not, [], ◌∷◌, length,
  all, arith,
}
use a_multi_threaded_key_val.Prelude.Int.{ℤ, pos, negsuc, sub_ℕ}
use a_multi_threaded_key_val.Text.{Str, is_digit, is_space, skip_spaces}
use a_multi_threaded_key_val.Message.{is_value}
use a_multi_threaded_key_val.Number.{
  in_range, parsed, check_range, read_digits, read_number, read_signed, stoi, lt_wf, digits_acc,
  digits, to_string, tenth-lt,
}

digits_acc_above :
    (n : ℕ) (smaller : (m : ℕ) → m < n → Acc ◌<◌ m) (out : Str) (h : 9 < n)
    → digits_acc n (Acc.intro n smaller) out
      ≡ digits_acc (n / 10) (smaller (n / 10) (tenth-lt h)) ((b'0' + n % 10) ∷ out)
unfolding digits_acc
digits_acc_above n smaller out h = dif_pos (dec_lt 9 n) le_prop h _ _

digits_acc_below :
    (n : ℕ) (smaller : (m : ℕ) → m < n → Acc ◌<◌ m) (out : Str)
    → ¬ (9 < n)
    → digits_acc n (Acc.intro n smaller) out ≡ (b'0' + n) ∷ out
unfolding digits_acc
digits_acc_below n smaller out h = dif_neg (dec_lt 9 n) h _ _

digit-is_digit : (d : ℕ) → d < 10 → is_digit (b'0' + d) ≡ true
digit-is_digit d h = ground arith

-- A digit that stands in front is read onto the number.
read_digits-digit :
    (k d n : ℕ) (out : Str)
    → d < 10
    → k * 10 + d ≡ n
    → read_digits k ((b'0' + d) ∷ out) ≡ read_digits n out
unfolding read_digits
read_digits-digit k d n out h e =
    let same : k * 10 + (b'0' + d - b'0') ≡ n = omega arith in rw (digit-is_digit d h, same)

read-digits_acc :
    (n : ℕ) (w : Acc ◌<◌ n) (out : Str) → read_digits 0 (digits_acc n w out) ≡ read_digits n out
read-digits_acc n (Acc.intro _ smaller) out = elim (dec_lt 9 n) [
  | yes h ↦ rw (digits_acc_above n smaller out h) (
      read-digits_acc (n / 10) (smaller (n / 10) (tenth-lt h)) ((b'0' + n % 10) ∷ out)
      ∙ read_digits-digit (n / 10) (n % 10) n out (omega arith) (omega arith))
  | no h ↦
      rw (digits_acc_below n smaller out h)
        (read_digits-digit 0 n n out (omega arith) (omega arith))
]

-- The text is not empty and holds digits alone.
abbrev IsNumeral : Str → Type 0
IsNumeral s = (all is_digit s ≡ true) × (1 ≤ length s)

digits_acc-IsNumeral :
    (n : ℕ) (w : Acc ◌<◌ n) (out : Str) → all is_digit out ≡ true → IsNumeral (digits_acc n w out)
digits_acc-IsNumeral n (Acc.intro _ smaller) out h = elim (dec_lt 9 n) [
  | yes above ↦ rw (digits_acc_above n smaller out above) (
      digits_acc-IsNumeral (n / 10) (smaller (n / 10) (tenth-lt above)) ((b'0' + n % 10) ∷ out)
        (rw (digit-is_digit (n % 10) (omega arith)) h))
  | no below ↦
      rw (digits_acc_below n smaller out below) (rw (digit-is_digit n (omega arith)) h, omega arith)
]

length-digits_acc :
    (k n : ℕ) (w : Acc ◌<◌ n) (out : Str)
    → n < 10 ^ suc k
    → length (digits_acc n w out) ≤ suc k + length out
length-digits_acc zero n (Acc.intro _ smaller) out h =
    rw (digits_acc_below n smaller out (λ above. absurd (omega arith))) (omega arith)
length-digits_acc (suc k) n (Acc.intro _ smaller) out h = elim (dec_lt 9 n) [
  | yes above ↦ rw (digits_acc_above n smaller out above) (
      omega (
        arith,
        length-digits_acc k (n / 10) (smaller (n / 10) (tenth-lt above)) ((b'0' + n % 10) ∷ out)
            (omega (arith, pow-suc 10 (suc k))),
      ))
  | no below ↦ rw (digits_acc_below n smaller out below) (omega arith)
]

digits-IsNumeral : (n : ℕ) → IsNumeral (digits n)
unfolding digits
digits-IsNumeral n = digits_acc-IsNumeral n (lt_wf.apply n) [] refl

length-digits : (n : ℕ) → n < 10 ^ 10 → length (digits n) ≤ 10
unfolding digits
length-digits n h = omega (arith, length-digits_acc 9 n (lt_wf.apply n) [] h)

read-digits : (n : ℕ) → read_digits 0 (digits n) ≡ n
unfolding digits
read-digits n = read-digits_acc n (lt_wf.apply n) [] ∙ unfold read_digits in refl

read_number-numeral :
    (f : ℕ → ℤ) (s : Str) (n : ℕ)
    → IsNumeral s
    → read_digits 0 s ≡ n
    → read_number f s ≡ check_range (f n)
unfolding read_number
read_number-numeral f [] n h e = absurd (omega (arith, h.1))
read_number-numeral f (c ∷ s) n h e =
    let head : is_digit c ≡ true = ground (arith, h.0) in rw (head, e)

read_signed-numeral : (s : Str) → IsNumeral s → read_signed (skip_spaces s) ≡ read_number pos s
unfolding skip_spaces
read_signed-numeral [] h = absurd (omega (arith, h.1))
read_signed-numeral (c ∷ s) h = ground (arith, h.0)

-- `stoi` gives back an `int` from the text that `to_string` makes of it.
pub stoi-to_string : (z : ℤ) → in_range z ≡ true → stoi (to_string z) ≡ parsed z
unfolding stoi to_string
stoi-to_string (pos n) h =
    read_signed-numeral (digits n) (digits-IsNumeral n)
    ∙ read_number-numeral pos (digits n) n (digits-IsNumeral n) (read-digits n)
    ∙ ground (arith, h)
stoi-to_string (negsuc n) h =
    unfold skip_spaces in
    (read_number-numeral (λ k. sub_ℕ 0 k) (digits (suc n)) (suc n) (digits-IsNumeral (suc n))
        (read-digits (suc n))
      ∙ ground (arith, h))

digits-is_value : (s : Str) → all is_digit s ≡ true → all (λ b. not (is_space b)) s ≡ true
digits-is_value [] h = refl
digits-is_value (c ∷ s) h = ground (arith, h, digits-is_value s)

numeral-is_value : (s : Str) → IsNumeral s → is_value s ≡ true
unfolding is_value
numeral-is_value [] h = absurd (omega (arith, h.1))
numeral-is_value (c ∷ s) h = digits-is_value (c ∷ s) h.0

-- The text of an `int` has at most eleven bytes and is a value of the protocol.
pub to_string_bounds :
    (z : ℤ) → in_range z ≡ true → (length (to_string z) ≤ 11) × (is_value (to_string z) ≡ true)
unfolding to_string
to_string_bounds (pos n) h = (
  omega (arith, length-digits n (ground (arith, h))),
  numeral-is_value (digits n) (digits-IsNumeral n),
)
to_string_bounds (negsuc n) h = (
  omega (arith, length-digits (suc n) (ground (arith, h))),
  unfold is_value in digits-is_value (digits (suc n)) (digits-IsNumeral (suc n)).0,
)
