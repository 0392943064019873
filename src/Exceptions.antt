-- ===== src/Exceptions.antt =====
-- exceptions.h: the exceptions of the program, and the results of code that may throw one.
use a_multi_threaded_key_val.Text.{Str}

-- Each constructor is a class of exceptions.h, with what `what()` returns.
pub data Exception : Type 0 where
  invalid_message : Str → Exception
  comm_exception : Str → Exception
  operation_exception : Str → Exception
  failed_transaction : Str → Exception

-- Code that throws, or gives a value.
pub data Result {ℓ} (V : Type ℓ) : Type ℓ where
  throw : Exception → Result V
  ok : V → Result V

-- What follows is not reached once an exception is thrown.
module _ {ℓ κ} {V : Type ℓ} {W : Type κ} where
  infixl 5 ◌>>=◌
  abbrev pub ◌>>=◌ : Result V → (V → Result W) → Result W
  throw thrown >>= rest = throw thrown
  ok value >>= rest = rest value
