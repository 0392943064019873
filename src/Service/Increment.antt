-- ===== src/Service/Increment.antt =====
-- incr_value.cpp: the client program against the server.
use a_multi_threaded_key_val.Prelude.{
  ℕ, ◌+◌, ◌≤◌, ◌≡◌, refl, sym, ap, ◌∙◌, Bool, true, false, Option, some, List, [], ◌∷◌, length,
  arith, ==_refl,
}
use a_multi_threaded_key_val.Prelude.Int.{ℤ, pos, ◌+ℤ◌}
use a_multi_threaded_key_val.Number.{to_string, in_range, digits}
use a_multi_threaded_key_val.Text.{Str, codes, ◌=str◌}
use a_multi_threaded_key_val.Exceptions.{ok}
use a_multi_threaded_key_val.Message.{MessageType, message, is_identifier, is_value}
use a_multi_threaded_key_val.Serialization.{decode}
use a_multi_threaded_key_val.Table
use a_multi_threaded_key_val.Server.{Server, set_cell}
use a_multi_threaded_key_val.Connection.{returned, disconnect, commit_and_unlock}
use a_multi_threaded_key_val.Connection.Autocommit.{ok_text, stored, set-stored}
use a_multi_threaded_key_val.Connection.Chat.{c_string, chat_step}
use a_multi_threaded_key_val.Client.{Process, ◌>>=◌, pure, connect}
use a_multi_threaded_key_val.Client.IncrValue
use a_multi_threaded_key_val.Service.{Session, accepted, server_peer, process, server_after}
use a_multi_threaded_key_val.Service.Lines.{
  Delivers, newline, push_line, set_line, get_line, encode-push_line, encode-set_line,
  encode-get_line, push_arrives, set_arrives, get_arrives,
}
use a_multi_threaded_key_val.Service.Bare.{
  encode-add, encode-begin, encode-commit, add-Arrives, begin-Arrives, commit-Arrives,
}
use a_multi_threaded_key_val.Service.Rounds.{
  working, state, push_round, get_round, set_round, add_round,
}
use a_multi_threaded_key_val.Service.Requests.{request-eq, login-eq, said_bye}
use a_multi_threaded_key_val.Service.Transactions.{
  begin_round, joining_get_round, locked_set_round, commit_round,
}
use a_multi_threaded_key_val.Service.Programs.{Ready}
use a_multi_threaded_key_val.System.{close}

one : to_string (pos 1) ≡ codes "1"
unfolding to_string digits
one = refl

one-is_value : is_value (codes "1") ≡ true
unfolding is_value
one-is_value = refl

-- ADD after PUSH 1.
add_one_round :
    (buf : Str) (srv : Server) (i : ℕ) (busy : Bool) (ps : List ℕ) (a : ℤ)
    → decode (c_string buf) ≡ ok (message MessageType.add [])
    → in_range a ≡ true
    → in_range (a +ℤ pos 1) ≡ true
    → chat_step buf (working busy ps srv i (codes "1" ∷ to_string a ∷ []) [])
      ≡ (returned true, working busy ps srv i (to_string (a +ℤ pos 1) ∷ []) (ok_text ∷ []))
add_one_round buf srv i busy ps a d fits fits' =
    ap (λ t. chat_step buf (working busy ps srv i (t ∷ to_string a ∷ []) [])) (sym one)
    ∙ add_round buf srv i busy ps a (pos 1) [] d fits refl fits'

module _ (deliver : Str → Str) (delivers : Delivers deliver) (username table key : Str)
    (user_name : is_identifier username ≡ true) (table_name : is_identifier table ≡ true)
    (key_name : is_identifier key ≡ true) (user_short : length username ≤ 1016)
    (short : length table + length key ≤ 1017) (hostname port : Str) (srv : Server) (p i : ℕ)
    (ready : Ready srv table p) (a : ℤ) (held : Table.get key (srv.cell p) ≡ ok (to_string a))
    (fits : in_range a ≡ true) (fits' : in_range (a +ℤ pos 1) ≡ true) where
  abbrev arguments : List Str
  arguments = hostname ∷ port ∷ username ∷ table ∷ key ∷ []

  abbrev sum : Str
  sum = to_string (a +ℤ pos 1)

  abbrev plain : Option ℕ × Process Session
  plain = IncrValue.main (server_peer deliver) arguments (process (accepted i srv))

  abbrev transactional : Option ℕ × Process Session
  transactional =
      IncrValue.main (server_peer deliver) (codes "-t" ∷ arguments) (process (accepted i srv))

  push_one_round :
      (v : Server) (busy : Bool) (ps : List ℕ)
      → chat_step (deliver (push_line (codes "1"))) (working busy ps v i (to_string a ∷ []) [])
        ≡ (returned true, working busy ps v i (codes "1" ∷ to_string a ∷ []) (ok_text ∷ []))
  push_one_round v busy ps =
      push_round (deliver (push_line (codes "1"))) v i busy ps (codes "1") (to_string a ∷ [])
        (push_arrives deliver delivers (codes "1") one-is_value refl (omega arith))

  -- What the program does, where GET and SET are served in this way.
  plain-run :
      (read after : Server)
      → chat_step (deliver (get_line table key)) (state srv i [] [])
        ≡ (returned true, state read i (to_string a ∷ []) (ok_text ∷ []))
      → chat_step (deliver (set_line table key)) (state read i (sum ∷ []) [])
        ≡ (returned true, state after i [] (ok_text ∷ []))
      → (plain.0 ≡ some 0) × ((server_after plain.1).cell p ≡ after.cell p)
  unfolding IncrValue.main IncrValue.session connect ◌>>=◌ pure close disconnect
  plain-run read after get_served set_served =
      rw
        (
          login-eq deliver delivers username user_name user_short srv i,
          request-eq deliver delivers _ _ (codes "GET") (deliver ok_text)
              (encode-get_line table key short) get_served,
          request-eq deliver delivers _ _ (codes "PUSH") (deliver ok_text)
              (encode-push_line (codes "1") (omega arith)) (push_one_round read false []),
          request-eq deliver delivers _ _ (codes "ADD") (deliver ok_text) encode-add (
              add_one_round (deliver (newline (codes "ADD"))) read i false [] a
                (add-Arrives deliver delivers) fits fits'),
          request-eq deliver delivers _ _ (codes "SET") (deliver ok_text)
              (encode-set_line table key short) set_served,
          said_bye deliver delivers (deliver ok_text) false [] after i [],
        )
        (refl, refl)

  plain-stores : (plain.0 ≡ some 0) × ((server_after plain.1).cell p ≡ stored key sum (srv.cell p))
  plain-stores =
      let (read, e, found, cell) =
        get_round (deliver (get_line table key)) srv i table key p ready.found ready.free
          (to_string a) [] (get_arrives deliver delivers table key table_name key_name short)
          held in
      let (after, e', found', cell') =
        set_round (deliver (set_line table key)) read i table key p found
          (ap (λ t. t.table_mutex) cell ∙ unfold Table.unlock in refl) sum []
          (set_arrives deliver delivers table key table_name key_name short)
          (ap (λ t. t.key_value_temp) cell ∙ unfold Table.unlock in ready.clean) in
      let (exits, run_cell) = plain-run read after e e' in
      (exits, run_cell ∙ cell' ∙ ap (stored key sum) cell ∙ unfold Table.unlock in refl)

  -- The server behind GET, behind SET and behind COMMIT.
  abbrev joined_server : Server
  joined_server = set_cell p (record (srv.cell p) { table_mutex = some i }) srv

  abbrev changed_server : Server
  changed_server = set_cell p (Table.set key sum (joined_server.cell p)) joined_server

  abbrev committed_server : Server
  committed_server = set_cell p (commit_and_unlock (changed_server.cell p)) changed_server

  committed-stored : committed_server.cell p ≡ stored key sum (srv.cell p)
  unfolding commit_and_unlock
  committed-stored = rw (==_refl p) (set-stored i key sum (srv.cell p) ready.clean)

  -- What the program does, where GET, SET and COMMIT are served in this way.
  transactional-run :
      (joined changed committed : Server)
      → chat_step (deliver (get_line table key)) (working true [] srv i [] [])
        ≡ (returned true, working true (p ∷ []) joined i (to_string a ∷ []) (ok_text ∷ []))
      → chat_step (deliver (set_line table key)) (working true (p ∷ []) joined i (sum ∷ []) [])
        ≡ (returned true, working true (p ∷ []) changed i [] (ok_text ∷ []))
      → chat_step (deliver (newline (codes "COMMIT"))) (working true (p ∷ []) changed i [] [])
        ≡ (returned true, state committed i [] (ok_text ∷ []))
      → (transactional.0 ≡ some 0) × ((server_after transactional.1).cell p ≡ committed.cell p)
  unfolding IncrValue.main IncrValue.session connect ◌>>=◌ pure close disconnect ◌=str◌
  transactional-run joined changed committed get_served set_served commit_served =
      rw
        (
          login-eq deliver delivers username user_name user_short srv i,
          request-eq deliver delivers _ _ (codes "BEGIN") (deliver ok_text) encode-begin (
              begin_round (deliver (newline (codes "BEGIN"))) srv i []
                (begin-Arrives deliver delivers)),
          request-eq deliver delivers _ _ (codes "GET") (deliver ok_text)
              (encode-get_line table key short) get_served,
          request-eq deliver delivers _ _ (codes "PUSH") (deliver ok_text)
              (encode-push_line (codes "1") (omega arith)) (push_one_round joined true (p ∷ [])),
          request-eq deliver delivers _ _ (codes "ADD") (deliver ok_text) encode-add (
              add_one_round (deliver (newline (codes "ADD"))) joined i true (p ∷ []) a
                (add-Arrives deliver delivers) fits fits'),
          request-eq deliver delivers _ _ (codes "SET") (deliver ok_text)
              (encode-set_line table key short) set_served,
          request-eq deliver delivers _ _ (codes "COMMIT") (deliver ok_text) encode-commit
              commit_served,
          said_bye deliver delivers (deliver ok_text) false [] committed i [],
        )
        (refl, refl)

  transactional-stores :
      (transactional.0 ≡ some 0)
      × ((server_after transactional.1).cell p ≡ stored key sum (srv.cell p))
  transactional-stores =
      let (exits, cell) =
        transactional-run joined_server changed_server committed_server
          (joining_get_round (deliver (get_line table key)) srv i table key p ready.found
            (to_string a) [] (get_arrives deliver delivers table key table_name key_name short)
            ready.free held)
          (locked_set_round (deliver (set_line table key)) joined_server i table key p ready.found
            sum [] (set_arrives deliver delivers table key table_name key_name short))
          (commit_round (deliver (newline (codes "COMMIT"))) changed_server i p []
            (commit-Arrives deliver delivers)) in
      (exits, cell ∙ committed-stored)

  -- Against the server, with lines that reach the other end as they are: where the key of a free table
  -- without pending entries holds the text of an `int`, incr_value exits with code 0 and leaves the
  -- text of that `int` plus one, which is an `int` too. It does so with -t and without it. The names
  -- are identifiers that fit a line.
  pub incr_value_adds_one :
      ((IncrValue.main
          (server_peer deliver)
          (hostname ∷ port ∷ username ∷ table ∷ key ∷ [])
          (process (accepted i srv))).0
        ≡ some 0)
      × ((server_after
              (IncrValue.main
                (server_peer deliver)
                (hostname ∷ port ∷ username ∷ table ∷ key ∷ [])
                (process (accepted i srv))).1).cell
            p
          ≡ stored key (to_string (a +ℤ pos 1)) (srv.cell p))
      × ((IncrValue.main
            (server_peer deliver)
            (codes "-t" ∷ hostname ∷ port ∷ username ∷ table ∷ key ∷ [])
            (process (accepted i srv))).0
          ≡ some 0)
      × ((server_after
              (IncrValue.main
                (server_peer deliver)
                (codes "-t" ∷ hostname ∷ port ∷ username ∷ table ∷ key ∷ [])
                (process (accepted i srv))).1).cell
            p
          ≡ stored key (to_string (a +ℤ pos 1)) (srv.cell p))
  incr_value_adds_one =
      (plain-stores.0, plain-stores.1, transactional-stores.0, transactional-stores.1)
