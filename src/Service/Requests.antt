-- ===== src/Service/Requests.antt =====
-- What `request` of a client does where the server answers with OK.
use a_multi_threaded_key_val.Prelude.{length, ◌≤◌, ℕ, ◌≡◌, refl, Bool, true, false, List, [], ◌∷◌}
use a_multi_threaded_key_val.Text.{Str, codes}
use a_multi_threaded_key_val.Exceptions.{ok}
use a_multi_threaded_key_val.Message.{MessageType, Message, message, is_identifier}
use a_multi_threaded_key_val.Serialization.{encode}
use a_multi_threaded_key_val.Server.{Server}
use a_multi_threaded_key_val.Connection.{World, returned}
use a_multi_threaded_key_val.Connection.Autocommit.{ok_text}
use a_multi_threaded_key_val.Connection.Stops.{bye_round}
use a_multi_threaded_key_val.Connection.Chat.{chat_step}
use a_multi_threaded_key_val.Client.{Process, value, ◌>>=◌, pure, lift, request, send, receive}
use a_multi_threaded_key_val.Service.{Session, accepted, server_peer}
use a_multi_threaded_key_val.Service.Lines.{
  Delivers, newline, login_line, encode-login_line, login_arrives,
}
use a_multi_threaded_key_val.Service.Bare.{ok-Arrives, bye-Arrives, encode-bye}
use a_multi_threaded_key_val.Service.Rounds.{working, state, login_round}

-- A client that is served in this world, with what its buffer holds.
abbrev pub client : Str → World → Process Session
client buf w = record {
  peer = record { world = w; active = true };
  buf = buf;
  stdout = [];
  stderr = [];
}

module _ (deliver : Str → Str) (delivers : Delivers deliver) where
  pub request-eq :
      {line : Str} {busy : Bool} {ps : List ℕ} {srv : Server} {i : ℕ} {vs : List Str}
      (msg : Message) (w : World) (label buf : Str)
      → encode msg ≡ ok line
      → chat_step (deliver line) w ≡ (returned true, working busy ps srv i vs (ok_text ∷ []))
      → request (server_peer deliver) msg label (client buf w)
        ≡ (value tt, client (deliver ok_text) (working busy ps srv i vs []))
  unfolding request send receive ◌>>=◌ lift pure
  request-eq msg w label buf e round = rw (e, round, ok-Arrives deliver delivers) refl

  -- The first request of every client.
  pub login-eq :
      (username : Str)
      → is_identifier username ≡ true
      → length username ≤ 1016
      → (srv : Server) (i : ℕ)
      → request
          (server_peer deliver)
          (message MessageType.login (username ∷ []))
          (codes "LOGIN")
          (client [] (accepted i srv).world)
        ≡ (value tt, client (deliver ok_text) (state srv i [] []))
  login-eq username name short srv i =
      request-eq _ _ (codes "LOGIN") [] (encode-login_line username short) (
        login_round (deliver (login_line username)) srv i username
          (login_arrives deliver delivers username name short))

  -- The last request, after which the client reads nothing.
  pub said_bye :
      (buf : Str) (busy : Bool) (ps : List ℕ) (srv : Server) (i : ℕ) (vs : List Str)
      → send
          (server_peer deliver)
          (message MessageType.bye [])
          (client buf (working busy ps srv i vs []))
        ≡ (
          value tt,
          record (client buf (working busy ps srv i vs [])) {
            peer = record { world = working busy ps srv i vs (ok_text ∷ []); active = false };
          },
        )
  unfolding send ◌>>=◌ lift
  said_bye buf busy ps srv i vs =
      rw
        (
          encode-bye,
          bye_round (deliver (newline (codes "BYE"))) (working busy ps srv i vs []) _
              (bye-Arrives deliver delivers) refl,
        )
        refl
