-- ===== src/Client/GetValue.antt =====
-- get_value.cpp
use a_multi_threaded_key_val.Prelude.{ℕ, Option, List, [], ◌∷◌, if◌then◌else◌}
use a_multi_threaded_key_val.Text.{Str, codes}
use a_multi_threaded_key_val.Message.{MessageType, message, get_value}
use a_multi_threaded_key_val.Client.{
  Peer, Process, Client, ◌>>=◌, ◌>>◌, pure, fail, checked, print, is_data, finished, usage_error,
  send, receive, request, connect,
}

module _ {S : Type 0} (peer : Peer S) where
  -- The body of the `try`.
  unfoldable pub session : Str → Str → Str → Str → Str → Client S (Unit {0})
  session hostname port username table key = do
    connect peer hostname port
    request peer (message MessageType.login (username ∷ [])) (codes "LOGIN")
    request peer (message MessageType.get (table ∷ key ∷ [])) (codes "GET")
    send peer (message MessageType.top [])
    top_resp ← receive peer
    if is_data top_resp.m_message_type
        then pure tt
        else fail (codes "Error: Expected DATA response, but received something else.")
    text ← checked (get_value top_resp)
    print text
    send peer (message MessageType.bye [])

  -- `main`, for the arguments behind the program's name.
  unfoldable pub main : List Str → Process S → Option ℕ × Process S
  unfolding session
  main (hostname ∷ port ∷ username ∷ table ∷ key ∷ []) p =
      finished (session hostname port username table key p)
  main _ p =
      usage_error (codes "Usage: ./get_value <hostname> <port> <username> <table> <key>" ∷ []) p
