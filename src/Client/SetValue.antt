-- ===== src/Client/SetValue.antt =====
-- set_value.cpp
use a_multi_threaded_key_val.Prelude.{ℕ, Option, List, [], ◌∷◌}
use a_multi_threaded_key_val.Text.{Str, codes}
use a_multi_threaded_key_val.Message.{MessageType, message}
use a_multi_threaded_key_val.Client.{
  Peer, Process, Client, ◌>>◌, finished, usage_error, send, request, connect,
}

module _ {S : Type 0} (peer : Peer S) where
  -- The body of the `try`.
  unfoldable pub session : Str → Str → Str → Str → Str → Str → Client S (Unit {0})
  session hostname port username table key value = do
    connect peer hostname port
    request peer (message MessageType.login (username ∷ [])) (codes "LOGIN")
    request peer (message MessageType.push (value ∷ [])) (codes "PUSH")
    request peer (message MessageType.set (table ∷ key ∷ [])) (codes "SET")
    send peer (message MessageType.bye [])

  -- `main`, for the arguments behind the program's name.
  unfoldable pub main : List Str → Process S → Option ℕ × Process S
  unfolding session
  main (hostname ∷ port ∷ username ∷ table ∷ key ∷ value ∷ []) p =
      finished (session hostname port username table key value p)
  main _ p =
      usage_error
        (codes "Usage: ./set_value <hostname> <port> <username> <table> <key> <value>" ∷ []) p
