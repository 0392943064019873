-- ===== src/Database/Arithmetic.antt =====
-- client_connection.cpp: ADD, SUB, MUL and DIV, against the database.
use a_multi_threaded_key_val.Prelude.{
  ℕ, zero, suc, ◌<◌, ◌≡◌, refl, Bool, true, Option, none, some, List, [], ◌∷◌, length, arith,
  Bool-cases, inl, inr,
}
use a_multi_threaded_key_val.Prelude.Int.{ℤ, pos, negsuc}
use a_multi_threaded_key_val.Text.{Str, codes}
use a_multi_threaded_key_val.Exceptions.{Exception, throw, operation_exception}
use a_multi_threaded_key_val.Message.{MessageType}
use a_multi_threaded_key_val.Serialization.{encode}
use a_multi_threaded_key_val.Number.{
  Parsed, parsed, invalid_argument, out_of_range, stoi, to_string, in_range,
}
use a_multi_threaded_key_val.Server.{Server}
use a_multi_threaded_key_val.Connection.{World, Action, Outcome, gets, pure, ◌>>=◌}
use a_multi_threaded_key_val.Connection.Handlers.{handle_add, handle_sub, handle_mul, handle_div}
use a_multi_threaded_key_val.Connection.Chat.{dispatch, serve}
use a_multi_threaded_key_val.Connection.Arithmetic.{
  with_stack, int_outcome, failed, operands, arithmetic_results, arithmetic_too_few,
  arithmetic_throws,
}
use a_multi_threaded_key_val.Database.{
  Operator, failure, replied, add, sub, mul, div, too_few, calculate, calculated, compute_top,
  perform, answer,
}
use a_multi_threaded_key_val.Database.Abstraction.{database, client}
use a_multi_threaded_key_val.Database.Rounds.{
  concluded, Refines, Meets, world, served, recover-failure,
}

abbrev pub computing : Operator → MessageType
computing add = MessageType.add
computing sub = MessageType.sub
computing mul = MessageType.mul
computing div = MessageType.div

abbrev handler : Operator → Action (Unit {0})
handler add = handle_add
handler sub = handle_sub
handler mul = handle_mul
handler div = handle_div

abbrev outcome : Option ℤ → List Str → World → Outcome (Unit {0}) × World
outcome none rest w = failed (operation_exception (codes "the division is 0")) (with_stack rest w)
outcome (some z) rest w = int_outcome z rest w

served-computing :
    (op : Operator) (args : List Str) (w : World) (x : Outcome (Unit {0}) × World)
    → w.conn.m_logged_in ≡ true
    → handler op w ≡ x
    → served (computing op) args w ≡ concluded x
unfolding serve dispatch ◌>>=◌ gets
served-computing add args w x user e = simp (user, e)
served-computing sub args w x user e = simp (user, e)
served-computing mul args w x user e = simp (user, e)
served-computing div args w x user e = simp (user, e)

module _ (w : World) (l r : Str) (rest : List Str) where
  handler-results :
      (op : Operator) (a b : ℤ)
      → stoi l ≡ parsed a
      → stoi r ≡ parsed b
      → handler op (with_stack (r ∷ l ∷ rest) w) ≡ outcome (calculate op a b) rest w
  handler-results add a b ea eb = (arithmetic_results w l r rest a b ea eb).0
  handler-results sub a b ea eb = (arithmetic_results w l r rest a b ea eb).1
  handler-results mul a b ea eb = (arithmetic_results w l r rest a b ea eb).2
  handler-results div a (pos zero) ea eb = (arithmetic_results w l r rest a (pos 0) ea eb).3
  handler-results div a (pos (suc n)) ea eb =
      ground (arith, (arithmetic_results w l r rest a (pos (suc n)) ea eb).3)
  handler-results div a (negsuc n) ea eb = (arithmetic_results w l r rest a (negsuc n) ea eb).3

  handler-bad :
      (op : Operator) (e : Exception)
      → operands l r ≡ throw e
      → handler op (with_stack (r ∷ l ∷ rest) w) ≡ failed e (with_stack rest w)
  handler-bad add e h = (arithmetic_throws w l r rest e h).0
  handler-bad sub e h = (arithmetic_throws w l r rest e h).1
  handler-bad mul e h = (arithmetic_throws w l r rest e h).2
  handler-bad div e h = (arithmetic_throws w l r rest e h).3

handler-few :
    (op : Operator) (vs : List Str) (w : World)
    → length vs < 2
    → handler op (with_stack vs w) ≡ failed (operation_exception (too_few op)) (with_stack vs w)
handler-few add vs w h = (arithmetic_too_few vs w h).0
handler-few sub vs w h = (arithmetic_too_few vs w h).1
handler-few mul vs w h = (arithmetic_too_few vs w h).2
handler-few div vs w h = (arithmetic_too_few vs w h).3

module _ (srv : Server) (i : ℕ) (busy : Bool) (ps : List ℕ) (texts : List Str) where
  abbrev holding : List Str → World
  holding vs = world srv i vs true busy ps texts

  concluded-Refines :
      (o : Option ℤ) (rest : List Str)
      → Refines texts
          (calculated o (database srv) (client (holding rest).conn))
          (concluded (outcome o rest (holding rest)))
  unfolding pure encode
  concluded-Refines none rest = (holding rest, recover-failure _ _, refl, refl, refl)
  concluded-Refines (some z) rest = elim (Bool-cases (in_range z)) [
    | inl fits ↦ rw fits (holding (to_string z ∷ rest), refl, refl, refl, refl)
    | inr out ↦ rw out refl
  ]

  bad-Refines :
      (op : Operator) (l r what : Str) (rest : List Str)
      → operands l r ≡ throw (operation_exception what)
      → Refines texts
          (replied (failure what) true (database srv) (client (holding rest).conn))
          (concluded (handler op (holding (r ∷ l ∷ rest))))
  bad-Refines op l r what rest h =
      rw (handler-bad (holding []) l r rest op _ h)
        (holding rest, recover-failure _ _, refl, refl, refl)

  good-Refines :
      (op : Operator) (l r : Str) (a b : ℤ) (rest : List Str)
      → stoi l ≡ parsed a
      → stoi r ≡ parsed b
      → Refines texts
          (calculated (calculate op a b) (database srv) (client (holding rest).conn))
          (concluded (handler op (holding (r ∷ l ∷ rest))))
  good-Refines op l r a b rest ea eb =
      rw (handler-results (holding rest) l r rest op a b ea eb)
        (concluded-Refines (calculate op a b) rest)

  compute-Refines :
      (op : Operator) (vs : List Str)
      → Refines texts
          (compute_top op vs (database srv) (client (holding vs).conn))
          (concluded (handler op (holding vs)))
  compute-Refines op [] =
      rw (handler-few op [] (holding []) (omega arith))
        (holding [], recover-failure _ _, refl, refl, refl)
  compute-Refines op (v ∷ []) =
      rw (handler-few op (v ∷ []) (holding []) (omega arith))
        (holding (v ∷ []), recover-failure _ _, refl, refl, refl)
  compute-Refines op (r ∷ l ∷ rest) = go (stoi l) (stoi r) refl refl
    where
      go :
          (x y : Parsed)
          → stoi l ≡ x
          → stoi r ≡ y
          → Refines texts
              (compute_top op (r ∷ l ∷ rest) (database srv) (client (holding (r ∷ l ∷ rest)).conn))
              (concluded (handler op (holding (r ∷ l ∷ rest))))
      go (parsed a) (parsed b) el er = rw (el, er) (good-Refines op l r a b rest el er)
      go (parsed a) invalid_argument el er =
          rw (el, er) (bad-Refines op l r _ rest (rw (el, er) refl))
      go (parsed a) out_of_range el er = rw (el, er) (bad-Refines op l r _ rest (rw (el, er) refl))
      go invalid_argument y el er = rw el (bad-Refines op l r _ rest (rw el refl))
      go out_of_range y el er = rw el (bad-Refines op l r _ rest (rw el refl))

  pub compute-Meets : (op : Operator) (vs args : List Str) → Meets (computing op) args (holding vs)
  unfolding answer perform
  compute-Meets add vs args =
      rw (served-computing add args (holding vs) _ refl refl) (compute-Refines add vs)
  compute-Meets sub vs args =
      rw (served-computing sub args (holding vs) _ refl refl) (compute-Refines sub vs)
  compute-Meets mul vs args =
      rw (served-computing mul args (holding vs) _ refl refl) (compute-Refines mul vs)
  compute-Meets div vs args =
      rw (served-computing div args (holding vs) _ refl refl) (compute-Refines div vs)
