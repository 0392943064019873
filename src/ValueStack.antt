-- ===== src/ValueStack.antt =====
-- value_stack.h and value_stack.cpp: the operand stack. `m_vector` is kept with its last element
-- first, so `push_back` is `∷`.
use a_multi_threaded_key_val.Prelude.{ℕ, Bool, List, [], ◌∷◌, length, is_empty as is_nil}
use a_multi_threaded_key_val.Text.{Str, codes}
use a_multi_threaded_key_val.Exceptions.{Result, ok, throw, operation_exception}

pub record ValueStack : Type 0 where
  pub m_vector : List Str

abbrev pub new_stack : ValueStack
new_stack = record { m_vector = [] }

unfoldable pub is_empty : ValueStack → Bool
is_empty s = is_nil s.m_vector

unfoldable pub push : Str → ValueStack → ValueStack
push value s = record s { m_vector = value ∷ s.m_vector }

abbrev back : List Str → Result Str
back [] = throw (operation_exception (codes "fail to get top: The stack is empty"))
back (v ∷ vs) = ok v

unfoldable pub get_top : ValueStack → Result Str
get_top s = back s.m_vector

abbrev pop_back : List Str → Result ValueStack
pop_back [] = throw (operation_exception (codes "fail to pop: The stack is empty"))
pop_back (v ∷ vs) = ok (record { m_vector = vs })

unfoldable pub pop : ValueStack → Result ValueStack
pop s = pop_back s.m_vector

unfoldable pub get_num_of_stack : ValueStack → ℕ
get_num_of_stack s = length s.m_vector
