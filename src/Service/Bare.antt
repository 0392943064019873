-- ===== src/Service/Bare.antt =====
-- message_serialization.cpp and csapp.c: the lines without arguments.
use a_multi_threaded_key_val.Prelude.{◌≡◌, refl, [], arith}
use a_multi_threaded_key_val.Text.{Str, codes}
use a_multi_threaded_key_val.Exceptions.{ok}
use a_multi_threaded_key_val.Message.{MessageType, message, valid_args}
use a_multi_threaded_key_val.Serialization.{encode, decode}
use a_multi_threaded_key_val.Connection.Chat.{c_string}
use a_multi_threaded_key_val.Service.Lines.{Delivers, newline, bare_arrives}

pub encode-bye : encode (message MessageType.bye []) ≡ ok (newline (codes "BYE"))
unfolding encode
encode-bye = refl

pub encode-ok : encode (message MessageType.ok []) ≡ ok (newline (codes "OK"))
unfolding encode
encode-ok = refl

pub encode-top : encode (message MessageType.top []) ≡ ok (newline (codes "TOP"))
unfolding encode
encode-top = refl

pub encode-add : encode (message MessageType.add []) ≡ ok (newline (codes "ADD"))
unfolding encode
encode-add = refl

pub encode-begin : encode (message MessageType.begin []) ≡ ok (newline (codes "BEGIN"))
unfolding encode
encode-begin = refl

pub encode-commit : encode (message MessageType.commit []) ≡ ok (newline (codes "COMMIT"))
unfolding encode
encode-commit = refl

module _ (deliver : Str → Str) (delivers : Delivers deliver) where
  abbrev pub Arrives : MessageType → Str → Type 0
  Arrives t command = decode (c_string (deliver (newline command))) ≡ ok (message t [])

  pub bye-Arrives : Arrives MessageType.bye (codes "BYE")
  unfolding valid_args
  bye-Arrives = bare_arrives deliver delivers _ (codes "BYE") refl encode-bye refl (omega arith)

  pub ok-Arrives : Arrives MessageType.ok (codes "OK")
  unfolding valid_args
  ok-Arrives = bare_arrives deliver delivers _ (codes "OK") refl encode-ok refl (omega arith)

  pub top-Arrives : Arrives MessageType.top (codes "TOP")
  unfolding valid_args
  top-Arrives = bare_arrives deliver delivers _ (codes "TOP") refl encode-top refl (omega arith)

  pub add-Arrives : Arrives MessageType.add (codes "ADD")
  unfolding valid_args
  add-Arrives = bare_arrives deliver delivers _ (codes "ADD") refl encode-add refl (omega arith)

  pub begin-Arrives : Arrives MessageType.begin (codes "BEGIN")
  unfolding valid_args
  begin-Arrives =
      bare_arrives deliver delivers _ (codes "BEGIN") refl encode-begin refl (omega arith)

  pub commit-Arrives : Arrives MessageType.commit (codes "COMMIT")
  unfolding valid_args
  commit-Arrives =
      bare_arrives deliver delivers _ (codes "COMMIT") refl encode-commit refl (omega arith)
