-- ===== src/Client/IncrValue.antt =====
-- incr_value.cpp
use a_multi_threaded_key_val.Prelude.{ℕ, Bool, true, false, Option, List, [], ◌∷◌, if◌then◌else◌}
use a_multi_threaded_key_val.Text.{Str, codes, ◌=str◌}
use a_multi_threaded_key_val.Message.{MessageType, message}
use a_multi_threaded_key_val.Client.{
  Peer, Process, Client, ◌>>◌, pure, finished, usage_error, send, request, connect,
}

abbrev usage : List Str
usage =
    codes "  -t      execute the increment as a transaction"
    ∷ codes "Options:"
    ∷ codes "Usage: ./incr_value [-t] <hostname> <port> <username> <table> <key>"
    ∷ []

module _ {S : Type 0} (peer : Peer S) where
  -- The body of the `try`.
  unfoldable pub session : Bool → Str → Str → Str → Str → Str → Client S (Unit {0})
  session use_transaction hostname port username table key = do
    connect peer hostname port
    request peer (message MessageType.login (username ∷ [])) (codes "LOGIN")
    if use_transaction then request peer (message MessageType.begin []) (codes "BEGIN") else pure tt
    request peer (message MessageType.get (table ∷ key ∷ [])) (codes "GET")
    request peer (message MessageType.push (codes "1" ∷ [])) (codes "PUSH")
    request peer (message MessageType.add []) (codes "ADD")
    request peer (message MessageType.set (table ∷ key ∷ [])) (codes "SET")
    if use_transaction
        then request peer (message MessageType.commit []) (codes "COMMIT")
        else pure tt
    send peer (message MessageType.bye [])

  -- `main`, for the arguments behind the program's name.
  unfoldable pub main : List Str → Process S → Option ℕ × Process S
  unfolding session ◌=str◌
  main (hostname ∷ port ∷ username ∷ table ∷ key ∷ []) p =
      finished (session false hostname port username table key p)
  main (flag ∷ hostname ∷ port ∷ username ∷ table ∷ key ∷ []) p =
      if flag =str codes "-t"
      then finished (session true hostname port username table key p)
      else usage_error usage p
  main _ p = usage_error usage p
