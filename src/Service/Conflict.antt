-- ===== src/Service/Conflict.antt =====
-- incr_value.cpp: the client program against the server, while another connection has the table.
use a_multi_threaded_key_val.Prelude.{
  ℕ, ◌+◌, ◌≤◌, ◌≡◌, refl, ◌∙◌, true, some, [], ◌∷◌, ◌++◌, length, arith,
}
use a_multi_threaded_key_val.Text.{Str, codes, ◌=str◌}
use a_multi_threaded_key_val.Map.{find}
use a_multi_threaded_key_val.Exceptions.{ok, failed_transaction}
use a_multi_threaded_key_val.Message.{
  MessageType, message, is_valid, is_identifier, get_table, get_key, get_quoted_text,
}
use a_multi_threaded_key_val.Serialization.{encode, decode}
use a_multi_threaded_key_val.Table.Laws.{trylock_taken}
use a_multi_threaded_key_val.Server.{Server, find_table}
use a_multi_threaded_key_val.Connection.{
  World, returned, raised, lift, gets, modify, pure, checked, ◌>>=◌, join_transaction,
  end_transaction, for_each_table, disconnect,
}
use a_multi_threaded_key_val.Connection.Handlers.{server_find_table, handle_get}
use a_multi_threaded_key_val.Connection.Chat.{c_string, dispatch, serve, recover, chat_step}
use a_multi_threaded_key_val.Connection.Endings.{conflict}
use a_multi_threaded_key_val.Connection.Rounds.{
  chat_step-serve, failed_text, respond-eq, encode-failed,
}
use a_multi_threaded_key_val.Connection.Autocommit.{ok_text}
use a_multi_threaded_key_val.Client
use a_multi_threaded_key_val.Client.{Process, failure, request, send, receive, fail, connect}
use a_multi_threaded_key_val.Client.IncrValue
use a_multi_threaded_key_val.System.{close}
use a_multi_threaded_key_val.Service.{accepted, server_peer, process, server_after}
use a_multi_threaded_key_val.Service.Bare.{encode-begin, begin-Arrives}
use a_multi_threaded_key_val.Service.Requests.{client, request-eq, login-eq}
use a_multi_threaded_key_val.Service.Transactions.{begin_round}
use a_multi_threaded_key_val.Service.Lines.{
  Delivers, newline, get_line, encode-get_line, get_arrives, arrives, identifier-is_inner,
}
use a_multi_threaded_key_val.Service.Rounds.{working, state}

conflict_round :
    (buf table key : Str) (srv : Server) (i p j : ℕ)
    → decode (c_string buf) ≡ ok (message MessageType.get (table ∷ key ∷ []))
    → find table srv.set_of_table ≡ some p
    → (srv.cell p).table_mutex ≡ some j
    → length (conflict table) ≤ 1016
    → chat_step buf (working true [] srv i [] [])
      ≡ (returned true, state srv i [] (failed_text (conflict table) ∷ []))
conflict_round buf table key srv i p j d found taken short =
    chat_step-serve buf (working true [] srv i [] []) (working true [] srv i [] []) _
      (raised (failed_transaction (conflict table))) d
      (unfold serve dispatch handle_get ◌>>=◌ gets checked get_table get_key server_find_table
          find_table lift join_transaction find in
        rw (found, trylock_taken i (srv.cell p) j taken) refl)
    ∙ (unfold recover ◌>>=◌ modify end_transaction for_each_table pure in
        rw (respond-eq _ _ (state srv i [] []) (encode-failed (conflict table) short)) refl)

module _ (deliver : Str → Str) (delivers : Delivers deliver) (table : Str)
    (table_name : is_identifier table ≡ true) (table_short : length table ≤ 983) where
  -- The answer reaches the client.
  conflict_arrives :
      decode (c_string (deliver (failed_text (conflict table))))
      ≡ ok (message MessageType.failed (conflict table ∷ []))
  unfolding is_valid
  conflict_arrives =
      arrives deliver delivers _ (codes "FAILED " ++ conflict table) refl
        (encode-failed (conflict table) (omega (arith, table_short)))
        (identifier-is_inner table table_name) (omega (arith, table_short))

  -- The message of the exception that the client throws.
  abbrev refusal : Str
  refusal =
      codes "Error: " ++ (codes "GET" ++ (codes " failed. Server response: " ++ conflict table))

  refused-eq :
      (key line buf : Str) (w : World) (srv : Server) (i : ℕ)
      → encode (message MessageType.get (table ∷ key ∷ [])) ≡ ok line
      → chat_step (deliver line) w
        ≡ (returned true, state srv i [] (failed_text (conflict table) ∷ []))
      → request
          (server_peer deliver)
          (message MessageType.get (table ∷ key ∷ []))
          (codes "GET")
          (client buf w)
        ≡ (failure refusal, client (deliver (failed_text (conflict table))) (state srv i [] []))
  unfolding request send receive Client.◌>>=◌ Client.lift fail get_quoted_text
  refused-eq key line buf w srv i e round = rw (e, round, conflict_arrives) refl

module _ (deliver : Str → Str) (delivers : Delivers deliver) (username table key : Str)
    (user_name : is_identifier username ≡ true) (table_name : is_identifier table ≡ true)
    (key_name : is_identifier key ≡ true) (user_short : length username ≤ 1016)
    (table_short : length table ≤ 983) (short : length table + length key ≤ 1017)
    (hostname port : Str) (srv : Server) (p i j : ℕ) (found : find table srv.set_of_table ≡ some p)
    (taken : (srv.cell p).table_mutex ≡ some j) where
  -- Against the server, with lines that reach the other end as they are: where the table is locked,
  -- incr_value -t exits with code 1, prints that it could not acquire the lock, and leaves the server
  -- as it was. The names are identifiers that fit a line, and the table's name fits the answer.
  pub incr_value_meets_a_lock :
      let r =
        IncrValue.main
          (server_peer deliver)
          (codes "-t" ∷ hostname ∷ port ∷ username ∷ table ∷ key ∷ [])
          (process (accepted i srv)) in
      (r.0 ≡ some 1)
      × (r.1.stderr
          ≡ (codes "Error: GET failed. Server response: Could not acquire lock on table " ++ table)
            ∷ [])
      × (server_after r.1 ≡ srv)
  unfolding IncrValue.main IncrValue.session connect Client.◌>>=◌ Client.pure close disconnect
      ◌=str◌
  incr_value_meets_a_lock =
      rw
        (
          login-eq deliver delivers username user_name user_short srv i,
          request-eq deliver delivers _ _ (codes "BEGIN") (deliver ok_text) encode-begin (
              begin_round (deliver (newline (codes "BEGIN"))) srv i []
                (begin-Arrives deliver delivers)),
          refused-eq deliver delivers table table_name table_short key (get_line table key)
              (deliver ok_text) (working true [] srv i [] []) srv i
              (encode-get_line table key short)
              (conflict_round (deliver (get_line table key)) table key srv i p j
                (get_arrives deliver delivers table key table_name key_name short) found taken
                (omega (arith, table_short))),
        )
        (refl, refl, refl)
