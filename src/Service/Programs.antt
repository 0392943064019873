-- ===== src/Service/Programs.antt =====
-- set_value.cpp, get_value.cpp: the client programs against the server.
use a_multi_threaded_key_val.Prelude.{
  ℕ, ◌+◌, ◌≤◌, ◌≡◌, refl, ap, ◌∙◌, true, false, Option, none, some, [], ◌∷◌, length, all, arith,
}
use a_multi_threaded_key_val.Text.{Str, codes, =str_refl}
use a_multi_threaded_key_val.Map.{find, find-assign}
use a_multi_threaded_key_val.Exceptions.{ok}
use a_multi_threaded_key_val.Message.{is_identifier, is_value, get_value}
use a_multi_threaded_key_val.Table
use a_multi_threaded_key_val.Server.{Server}
use a_multi_threaded_key_val.Connection.{disconnect}
use a_multi_threaded_key_val.System.{close}
use a_multi_threaded_key_val.Connection.Buffer.{is_inner}
use a_multi_threaded_key_val.Connection.Autocommit.{ok_text, stored}
use a_multi_threaded_key_val.Client.{
  Process, ◌>>=◌, pure, lift, send, receive, connect, print, checked,
}
use a_multi_threaded_key_val.Client.SetValue
use a_multi_threaded_key_val.Client.GetValue
use a_multi_threaded_key_val.Service.{Session, accepted, server_peer, process, server_after}
use a_multi_threaded_key_val.Service.Lines.{
  Delivers, newline, push_arrives, set_arrives, get_arrives, data_arrives, push_line, set_line,
  get_line, encode-push_line, encode-set_line, encode-get_line,
}
use a_multi_threaded_key_val.Service.Bare.{encode-bye, encode-top, top-Arrives}
use a_multi_threaded_key_val.Service.Requests.{request-eq, login-eq, said_bye}
use a_multi_threaded_key_val.Service.Rounds.{push_round, set_round, get_round, top_round}

-- The tables of a server, of which one has this name; it is free, and has no pending entry.
pub record Ready (srv : Server) (table : Str) (p : ℕ) : Type 0 where
  pub found : find table srv.set_of_table ≡ some p
  pub free : (srv.cell p).table_mutex ≡ none
  pub clean : (srv.cell p).key_value_temp ≡ []

module _ (deliver : Str → Str) (delivers : Delivers deliver) (username table key : Str)
    (user_name : is_identifier username ≡ true) (table_name : is_identifier table ≡ true)
    (key_name : is_identifier key ≡ true) (user_short : length username ≤ 1016)
    (short : length table + length key ≤ 1017) (hostname port : Str) where
  module _ (value : Str) (valid : is_value value ≡ true) (inner : all is_inner value ≡ true)
      (value_short : length value ≤ 1017) (srv : Server) (p i : ℕ) (ready : Ready srv table p) where
    abbrev set_run : Option ℕ × Process Session
    set_run =
        SetValue.main (server_peer deliver) (hostname ∷ port ∷ username ∷ table ∷ key ∷ value ∷ [])
          (process (accepted i srv))

    pub set_value_stores :
        (set_run.0 ≡ some 0)
        × (set_run.1.stderr ≡ [])
        × (find table (server_after set_run.1).set_of_table ≡ some p)
        × ((server_after set_run.1).cell p ≡ stored key value (srv.cell p))
    unfolding SetValue.main SetValue.session connect ◌>>=◌ pure close disconnect
    set_value_stores =
        let (after, e, found, cell) =
          set_round (deliver (set_line table key)) srv i table key p ready.found ready.free value []
            (set_arrives deliver delivers table key table_name key_name short) ready.clean in
        rw
          (
            login-eq deliver delivers username user_name user_short srv i,
            request-eq deliver delivers _ _ (codes "PUSH") (deliver ok_text)
                (encode-push_line value value_short)
                (push_round (deliver (push_line value)) srv i false [] value []
                  (push_arrives deliver delivers value valid inner value_short)),
            request-eq deliver delivers _ _ (codes "SET") (deliver ok_text)
                (encode-set_line table key short) e,
            said_bye deliver delivers (deliver ok_text) false [] after i [],
          )
          (refl, refl, found, cell)

  module _ (value : Str) (valid : is_value value ≡ true) (inner : all is_inner value ≡ true)
      (value_short : length value ≤ 1017) (srv : Server) (p i : ℕ)
      (found : find table srv.set_of_table ≡ some p) (free : (srv.cell p).table_mutex ≡ none)
      (held : Table.get key (srv.cell p) ≡ ok value) where
    abbrev get_run : Option ℕ × Process Session
    get_run =
        GetValue.main (server_peer deliver) (hostname ∷ port ∷ username ∷ table ∷ key ∷ [])
          (process (accepted i srv))

    pub get_value_shows : (get_run.0 ≡ some 0) × (get_run.1.stdout ≡ value ∷ [])
    unfolding GetValue.main GetValue.session connect send receive ◌>>=◌ lift pure print checked
        get_value
    get_value_shows =
        let (after, e, found', cell) =
          get_round (deliver (get_line table key)) srv i table key p found free value []
            (get_arrives deliver delivers table key table_name key_name short) held in
        rw
          (
            login-eq deliver delivers username user_name user_short srv i,
            request-eq deliver delivers _ _ (codes "GET") (deliver ok_text)
                (encode-get_line table key short) e,
            encode-top,
            top_round (deliver (newline (codes "TOP"))) after i value []
                (top-Arrives deliver delivers) (valid, omega (arith, value_short)),
            data_arrives deliver delivers value valid inner value_short,
            encode-bye,
          )
          (refl, refl)

  -- Against the server, with lines that reach the other end as they are: set_value of a value that is
  -- valid, fits a line and has no NUL, and then get_value of the same table and key by another client
  -- both exit with code 0, and get_value prints the value. The names are identifiers that fit a line;
  -- the table exists, is free and has no pending entry.
  pub get_value_after_set_value :
      (value : Str)
      → is_value value ≡ true
      → all is_inner value ≡ true
      → length value ≤ 1017
      → (srv : Server) (p i j : ℕ) → Ready srv table p
      → let set_process =
          SetValue.main
            (server_peer deliver)
            (hostname ∷ port ∷ username ∷ table ∷ key ∷ value ∷ [])
            (process (accepted i srv)) in
        let get_process =
          GetValue.main
            (server_peer deliver)
            (hostname ∷ port ∷ username ∷ table ∷ key ∷ [])
            (process (accepted j (server_after set_process.1))) in
        (set_process.0 ≡ some 0) × (get_process.0 ≡ some 0) × (get_process.1.stdout ≡ value ∷ [])
  unfolding Table.get find
  get_value_after_set_value value valid inner value_short srv p i j ready =
      let (exits, quiet, found, cell) =
        set_value_stores value valid inner value_short srv p i ready in
      let (exits', prints) =
        get_value_shows value valid inner value_short
          (server_after (set_run value valid inner value_short srv p i ready).1) p j found
          (ap (λ t. t.table_mutex) cell)
          (ap (Table.get key) cell
            ∙ rw (find-assign key key value (srv.cell p).key_value, =str_refl key) refl) in
      (exits, exits', prints)
