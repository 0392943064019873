-- ===== src/Connection/Arithmetic.antt =====
-- client_connection.cpp: the four arithmetic handlers.
use a_multi_threaded_key_val.Prelude.{
  ◌<◌, ◌≡◌, ◌∙◌, true, false, List, [], ◌∷◌, ◌++◌, length, arith, ltb, if◌then◌else◌, Bool-cases,
  inl, inr, ◌⊎◌, refl,
}
use a_multi_threaded_key_val.Prelude.Int.{ℤ, ◌+ℤ◌, ◌-ℤ◌, ◌*ℤ◌, ◌/ℤ◌}
use a_multi_threaded_key_val.Text.{Str, codes}
use a_multi_threaded_key_val.Exceptions.{
  Exception, Result, ok, throw, operation_exception, ◌>>=◌ as bind_result,
}
use a_multi_threaded_key_val.Serialization.{encode}
use a_multi_threaded_key_val.Number.{
  parsed, stoi, to_string, in_range, Parsed, invalid_argument, out_of_range,
}
use a_multi_threaded_key_val.Number.RoundTrip.{stoi-to_string}
use a_multi_threaded_key_val.ValueStack
use a_multi_threaded_key_val.Connection.{
  World, Action, Outcome, returned, raised, undefined, pure, raise, undefined_behaviour, lift, gets,
  ◌>>=◌, ◌>>◌, set_conn, respond, stack_top, stack_pop, stack_push,
}
use a_multi_threaded_key_val.Connection.Handlers.{
  ok_response, operand, handle_binary, int_result, is_zero, divide, handle_add, handle_sub,
  handle_mul, handle_div,
}

-- The world with another stack, last element first.
abbrev pub with_stack : List Str → World → World
with_stack vs = set_conn (λ c. record c { m_stack = record { m_vector = vs } })

-- The world after one more text has been written to the client.
abbrev pub with_text : Str → World → World
with_text text = set_conn (λ c. record c { written = text ∷ c.written })

-- A result in range is pushed and answered with OK; another one is undefined.
abbrev pub int_outcome : ℤ → List Str → World → Outcome (Unit {0}) × World
int_outcome z rest w =
    if in_range z
    then (returned tt, with_text (codes "OK" ++ 10 ∷ []) (with_stack (to_string z ∷ rest) w))
    else (undefined, with_stack rest w)

abbrev pub failed : Exception → World → Outcome (Unit {0}) × World
failed e w = (raised e, w)

binary-eq :
    (too_few : Str) (compute : ℤ → ℤ → Action ℤ) (w : World) (l r : Str) (rest : List Str) (a b : ℤ)
    → stoi l ≡ parsed a
    → stoi r ≡ parsed b
    → handle_binary too_few compute (with_stack (r ∷ l ∷ rest) w)
      ≡ (do z ← compute a b; stack_push (to_string z); respond ok_response) (with_stack rest w)
unfolding handle_binary ◌>>=◌ gets pure lift stack_top stack_pop ValueStack.pop ValueStack.get_top
    ValueStack.get_num_of_stack
binary-eq too_few compute w l r rest a b ea eb =
    let enough : ltb (length (r ∷ l ∷ rest)) 2 ≡ false = ground arith in rw (enough, ea, eb)

int_result-eq :
    (z : ℤ) (rest : List Str) (w : World)
    → (do n ← int_result z; stack_push (to_string n); respond ok_response) (with_stack rest w)
      ≡ int_outcome z rest w
unfolding int_result ◌>>=◌ pure undefined_behaviour stack_push ValueStack.push respond encode
int_result-eq z rest w = elim (Bool-cases (in_range z)) [ inl fits ↦ rw fits | inr out ↦ rw out ]

divide-eq :
    (a b : ℤ) (rest : List Str) (w : World)
    → (do n ← divide a b; stack_push (to_string n); respond ok_response) (with_stack rest w) ≡ (
        if is_zero b
        then failed (operation_exception (codes "the division is 0")) (with_stack rest w)
        else int_outcome (a /ℤ b) rest w)
divide-eq a b rest w = elim (Bool-cases (is_zero b)) [
  | inl zero ↦ rw zero (unfold divide ◌>>=◌ raise in rw zero)
  | inr other ↦ rw other (unfold divide in rw other (int_result-eq (a /ℤ b) rest w))
]

module _ (w : World) (l r : Str) (rest : List Str) (a b : ℤ) (ea : stoi l ≡ parsed a)
    (eb : stoi r ≡ parsed b) where
  -- Where `stoi` reads the two operands, the stack loses both and gets the text of the sum, the
  -- difference, the product or the quotient (the one below the top comes first), and the answer is
  -- OK. A result outside `int` is undefined. DIV by zero throws and leaves both operands off the
  -- stack.
  pub arithmetic_results :
      (handle_add (with_stack (r ∷ l ∷ rest) w) ≡ int_outcome (a +ℤ b) rest w)
      × (handle_sub (with_stack (r ∷ l ∷ rest) w) ≡ int_outcome (a -ℤ b) rest w)
      × (handle_mul (with_stack (r ∷ l ∷ rest) w) ≡ int_outcome (a *ℤ b) rest w)
      × (handle_div (with_stack (r ∷ l ∷ rest) w) ≡ (
          if is_zero b
          then failed (operation_exception (codes "the division is 0")) (with_stack rest w)
          else int_outcome (a /ℤ b) rest w))
  arithmetic_results = (
    unfold handle_add in (binary-eq _ _ w l r rest a b ea eb ∙ int_result-eq (a +ℤ b) rest w),
    unfold handle_sub in (binary-eq _ _ w l r rest a b ea eb ∙ int_result-eq (a -ℤ b) rest w),
    unfold handle_mul in (binary-eq _ _ w l r rest a b ea eb ∙ int_result-eq (a *ℤ b) rest w),
    unfold handle_div in (binary-eq _ _ w l r rest a b ea eb ∙ divide-eq a b rest w),
  )

binary-too_few :
    (too_few : Str) (compute : ℤ → ℤ → Action ℤ) (vs : List Str) (w : World)
    → length vs < 2
    → handle_binary too_few compute (with_stack vs w)
      ≡ failed (operation_exception too_few) (with_stack vs w)
unfolding handle_binary ◌>>=◌ gets raise ValueStack.get_num_of_stack
binary-too_few too_few compute vs w h = let few : ltb (length vs) 2 ≡ true = ground arith in rw few

-- What `stoi` throws at the operands, the left one first.
abbrev pub operands : Str → Str → Result ℤ
operands l r = bind_result (operand (stoi l)) λ a. operand (stoi r)

binary-bad_operand :
    (too_few : Str) (compute : ℤ → ℤ → Action ℤ) (w : World) (l r : Str) (rest : List Str)
    (e : Exception)
    → operands l r ≡ throw e
    → handle_binary too_few compute (with_stack (r ∷ l ∷ rest) w) ≡ failed e (with_stack rest w)
unfolding handle_binary ◌>>=◌ gets pure lift stack_top stack_pop ValueStack.pop ValueStack.get_top
    ValueStack.get_num_of_stack
binary-bad_operand too_few compute w l r rest e h =
    let enough : ltb (length (r ∷ l ∷ rest)) 2 ≡ false = ground arith in
    rw enough (bad (operand (stoi l)) (operand (stoi r)) h)
  where
    bad :
        (x y : Result ℤ)
        → bind_result x (λ a. y) ≡ throw e
        → (do
          a ← lift x
          b ← lift y
          z ← compute a b
          stack_push (to_string z)
          respond ok_response)
            (with_stack rest w)
          ≡ failed e (with_stack rest w)
    bad (ok a) (ok b) k = absurd (ground arith)
    bad (ok a) (throw f) k = ground (arith, k)
    bad (throw f) y k = ground (arith, k)

-- On a stack of fewer than two values the four handlers throw, and change nothing.
pub arithmetic_too_few :
    (vs : List Str) (w : World)
    → length vs < 2
    → (handle_add (with_stack vs w)
        ≡ failed
            (operation_exception (codes "the number of the stack is too few to add"))
            (with_stack vs w))
      × (handle_sub (with_stack vs w)
          ≡ failed
              (operation_exception (codes "the number of the stack is too few to sub"))
              (with_stack vs w))
      × (handle_mul (with_stack vs w)
          ≡ failed
              (operation_exception (codes "the number of the stack is too few to mul"))
              (with_stack vs w))
      × (handle_div (with_stack vs w)
          ≡ failed
              (operation_exception (codes "the number of the stack is too few to div"))
              (with_stack vs w))
arithmetic_too_few vs w h = (
  unfold handle_add in binary-too_few _ _ vs w h,
  unfold handle_sub in binary-too_few _ _ vs w h,
  unfold handle_mul in binary-too_few _ _ vs w h,
  unfold handle_div in binary-too_few _ _ vs w h,
)

-- The four handlers throw what the conversion of the operands throws.
pub arithmetic_throws :
    (w : World) (l r : Str) (rest : List Str) (e : Exception)
    → operands l r ≡ throw e
    → (handle_add (with_stack (r ∷ l ∷ rest) w) ≡ failed e (with_stack rest w))
      × (handle_sub (with_stack (r ∷ l ∷ rest) w) ≡ failed e (with_stack rest w))
      × (handle_mul (with_stack (r ∷ l ∷ rest) w) ≡ failed e (with_stack rest w))
      × (handle_div (with_stack (r ∷ l ∷ rest) w) ≡ failed e (with_stack rest w))
arithmetic_throws w l r rest e h = (
  unfold handle_add in binary-bad_operand _ _ w l r rest e h,
  unfold handle_sub in binary-bad_operand _ _ w l r rest e h,
  unfold handle_mul in binary-bad_operand _ _ w l r rest e h,
  unfold handle_div in binary-bad_operand _ _ w l r rest e h,
)

-- What `stoi` says of the first operand that it does not read, the left one first.
abbrev pub first_failure : Parsed → Parsed → Parsed
first_failure (parsed z) other = other
first_failure failure other = failure

-- Where `stoi` fails at one of the two operands, of which the left one comes first, the four handlers
-- throw an `OperationException`, which tells a text that is no integer from a number that is out of
-- range, and leave both operands off the stack.
pub arithmetic_bad_operand :
    (w : World) (l r : Str) (rest : List Str) (text : Str)
    → ((first_failure (stoi l) (stoi r) ≡ invalid_argument)
        × (text ≡ codes "Invalid operand, not an integer"))
      ⊎ ((first_failure (stoi l) (stoi r) ≡ out_of_range)
          × (text ≡ codes "Invalid operand, number is out of range"))
    → (handle_add (with_stack (r ∷ l ∷ rest) w)
        ≡ (raised (operation_exception text), with_stack rest w))
      × (handle_sub (with_stack (r ∷ l ∷ rest) w)
          ≡ (raised (operation_exception text), with_stack rest w))
      × (handle_mul (with_stack (r ∷ l ∷ rest) w)
          ≡ (raised (operation_exception text), with_stack rest w))
      × (handle_div (with_stack (r ∷ l ∷ rest) w)
          ≡ (raised (operation_exception text), with_stack rest w))
arithmetic_bad_operand w l r rest text (inl (h, e)) =
    arithmetic_throws w l r rest (operation_exception text)
      (rw e (not_an_integer (stoi l) (stoi r) h))
  where
    not_an_integer :
        (p q : Parsed)
        → first_failure p q ≡ invalid_argument
        → bind_result (operand p) (λ a. operand q)
          ≡ throw (operation_exception (codes "Invalid operand, not an integer"))
    not_an_integer (parsed a) q h = rw h refl
    not_an_integer invalid_argument q h = refl
    not_an_integer out_of_range q h = absurd (ground (arith, h))
arithmetic_bad_operand w l r rest text (inr (h, e)) =
    arithmetic_throws w l r rest (operation_exception text) (rw e (too_large (stoi l) (stoi r) h))
  where
    too_large :
        (p q : Parsed)
        → first_failure p q ≡ out_of_range
        → bind_result (operand p) (λ a. operand q)
          ≡ throw (operation_exception (codes "Invalid operand, number is out of range"))
    too_large (parsed a) q h = rw h refl
    too_large invalid_argument q h = absurd (ground (arith, h))
    too_large out_of_range q h = refl

-- On the texts of two `int`s, with the left one pushed first, ADD leaves the text of their sum where
-- it is an `int`.
pub add_of_printed :
    (a b : ℤ) (rest : List Str) (w : World)
    → in_range a ≡ true
    → in_range b ≡ true
    → in_range (a +ℤ b) ≡ true
    → handle_add (with_stack (to_string b ∷ to_string a ∷ rest) w)
      ≡ (returned tt, with_text (codes "OK" ++ 10 ∷ []) (with_stack (to_string (a +ℤ b) ∷ rest) w))
add_of_printed a b rest w ha hb h =
    (arithmetic_results w (to_string a) (to_string b) rest a b (stoi-to_string a ha)
      (stoi-to_string b hb)).0
    ∙ rw h
