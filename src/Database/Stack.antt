-- ===== src/Database/Stack.antt =====
-- client_connection.cpp: the requests that touch no table, against the database.
use a_multi_threaded_key_val.Prelude.{ℕ, ◌≡◌, refl, Bool, true, false, List, [], ◌∷◌, All}
use a_multi_threaded_key_val.Text.{Str}
use a_multi_threaded_key_val.Message.{MessageType, get_value}
use a_multi_threaded_key_val.Serialization.{encode}
use a_multi_threaded_key_val.ValueStack
use a_multi_threaded_key_val.Server.{Server}
use a_multi_threaded_key_val.Connection.{
  World, lift, gets, modify, pure, raise, checked, ◌>>=◌, respond, stack_top, stack_pop, stack_push,
}
use a_multi_threaded_key_val.Connection.Handlers.{
  handle_login, handle_push, handle_pop, handle_top, handle_bye,
}
use a_multi_threaded_key_val.Connection.Chat.{dispatch, serve, needs_login}
use a_multi_threaded_key_val.Connection.Values.{IsFitting}
use a_multi_threaded_key_val.System.Values.{encode-data}
use a_multi_threaded_key_val.Database.{perform, answer, needs_user}
use a_multi_threaded_key_val.Database.Rounds.{request_of, Meets, world, recover-failure}

needs_user-request_of :
    (t : MessageType) (args : List Str) → needs_user (request_of t args) ≡ needs_login t
needs_user-request_of MessageType.create [] = refl
needs_user-request_of MessageType.create (a ∷ args) = refl
needs_user-request_of MessageType.push [] = refl
needs_user-request_of MessageType.push (a ∷ args) = refl
needs_user-request_of MessageType.get [] = refl
needs_user-request_of MessageType.get (a ∷ []) = refl
needs_user-request_of MessageType.get (a ∷ b ∷ args) = refl
needs_user-request_of MessageType.set [] = refl
needs_user-request_of MessageType.set (a ∷ []) = refl
needs_user-request_of MessageType.set (a ∷ b ∷ args) = refl
needs_user-request_of _ args = refl

module _ (srv : Server) (i : ℕ) (vs : List Str) (busy : Bool) (ps : List ℕ) (texts : List Str) where
  abbrev at : Bool → World
  at user = world srv i vs user busy ps texts

  -- Any request but LOGIN and BYE before the user has logged in.
  pub refused-Meets :
      (t : MessageType) (args : List Str) → needs_login t ≡ true → Meets t args (at false)
  unfolding answer serve ◌>>=◌ gets raise
  refused-Meets t args need =
      rw (needs_user-request_of t args, need) (at false, recover-failure _ _, refl, refl, refl)

  pub login-Meets : (user : Bool) (args : List Str) → Meets MessageType.login args (at user)
  unfolding answer perform serve dispatch handle_login ◌>>=◌ gets pure modify respond lift encode
      raise
  login-Meets true args = (at true, recover-failure _ _, refl, refl, refl)
  login-Meets false args = (at true, refl, refl, refl, refl)

  pub bye-Meets : (user : Bool) (args : List Str) → Meets MessageType.bye args (at user)
  unfolding answer perform serve dispatch handle_bye ◌>>=◌ gets pure modify respond lift encode
  bye-Meets user args = (at user, refl, refl, refl, refl)

  pub push-Meets : (v : Str) (args : List Str) → Meets MessageType.push (v ∷ args) (at true)
  unfolding answer perform serve dispatch handle_push ◌>>=◌ gets pure modify respond lift encode
      checked stack_push ValueStack.push get_value
  push-Meets v args = (world srv i (v ∷ vs) true busy ps texts, refl, refl, refl, refl)

module _ (srv : Server) (i : ℕ) (busy : Bool) (ps : List ℕ) (texts : List Str) where
  abbrev holding : List Str → World
  holding vs = world srv i vs true busy ps texts

  pub pop-Meets : (vs args : List Str) → Meets MessageType.pop args (holding vs)
  unfolding answer perform serve dispatch handle_pop ◌>>=◌ gets pure modify respond lift encode
      stack_pop ValueStack.pop
  pop-Meets [] args = (holding [], recover-failure _ _, refl, refl, refl)
  pop-Meets (v ∷ vs) args = (holding vs, refl, refl, refl, refl)

  pub top-Meets : (vs args : List Str) → All IsFitting vs → Meets MessageType.top args (holding vs)
  unfolding answer perform serve dispatch handle_top ◌>>=◌ gets pure lift stack_top
      ValueStack.get_top respond modify
  top-Meets [] args fit = (holding [], recover-failure _ _, refl, refl, refl)
  top-Meets (v ∷ vs) args fit = (holding (v ∷ vs), rw (encode-data v fit.0) refl, refl, refl, refl)
