-- ===== src/Connection/Values.antt =====
-- client_connection.cpp: the values that a server holds, and the texts that it sends.
use mathlib.Core.Path.{subst}
use a_multi_threaded_key_val.Prelude.{
  ◌≤◌, ◌≡◌, refl, ap, ◌∙◌, true, some, List, [], ◌∷◌, ◌++◌, length, length-append, All, Bool-cases,
  Option-cases, inl, inr, arith, ltb, ltb-false→le,
}
use a_multi_threaded_key_val.Text.{Str, codes, ◌=str◌}
use a_multi_threaded_key_val.Map.{Map, find, assign}
use a_multi_threaded_key_val.Exceptions.{ok}
use a_multi_threaded_key_val.Message.{
  MessageType, Message, message, is_valid, is_value, get_value, get_arg, max_encoded_len,
  valid_args,
}
use a_multi_threaded_key_val.Serialization.{encode, decode, encode_args}
use a_multi_threaded_key_val.Serialization.RoundTrip.{decode-encode}
use a_multi_threaded_key_val.Serialization.Canonical.{decode-canonical}
use a_multi_threaded_key_val.Number.RoundTrip.{to_string_bounds}
use a_multi_threaded_key_val.Table
use a_multi_threaded_key_val.Table.{Table, assign_all, commit_changes, rollback_changes}
use a_multi_threaded_key_val.Connection.{Connection}
use a_multi_threaded_key_val.Connection.Upkeep.{Upkeep, Reply, done, refused, rejected, shown}

-- A value of the protocol that fits a PUSH or DATA message.
abbrev pub IsFitting : Str → Type 0
IsFitting value = (is_value value ≡ true) × (length value ≤ 1018)

abbrev pub FittingMap : Map Str → Type 0
FittingMap m = All (λ e. IsFitting e.1) m

some-eq : (w v : Str) → some w ≡ some v → w ≡ v
some-eq w v e = cc

ok-eq : (w v : Str) → ok w ≡ ok v → w ≡ v
ok-eq w v e = cc

pub assign-FittingMap :
    (k v : Str) (m : Map Str) → IsFitting v → FittingMap m → FittingMap (assign k v m)
unfolding assign
assign-FittingMap k v [] g h = (g, tt)
assign-FittingMap k v ((j, w) ∷ m) g h = elim (Bool-cases (j =str k)) [
  | inl same ↦ rw same (g, h.1)
  | inr other ↦ rw other (h.0, assign-FittingMap k v m g h.1)
]

pub assign_all-FittingMap :
    (p m : Map Str) → FittingMap p → FittingMap m → FittingMap (assign_all p m)
unfolding assign_all
assign_all-FittingMap [] m hp hm = hm
assign_all-FittingMap ((k, v) ∷ p) m hp hm =
    assign_all-FittingMap p (assign k v m) hp.1 (assign-FittingMap k v m hp.0 hm)

find-FittingMap : (k v : Str) (m : Map Str) → FittingMap m → find k m ≡ some v → IsFitting v
unfolding find
find-FittingMap k v [] h e = absurd (ground arith)
find-FittingMap k v ((j, w) ∷ m) h e = elim (Bool-cases (j =str k)) [
  | inl same ↦ subst IsFitting (some-eq w v (rw same at e)) h.0
  | inr other ↦ find-FittingMap k v m h.1 (rw other at e)
]

abbrev pub FittingTable : Table → Type 0
FittingTable t = FittingMap t.key_value × FittingMap t.key_value_temp

pub get-FittingTable : (k v : Str) (t : Table) → FittingTable t → Table.get k t ≡ ok v → IsFitting v
unfolding Table.get
get-FittingTable k v t h e = elim (Option-cases (find k t.key_value_temp)) [
  | inr (w, pending) ↦
      find-FittingMap k v t.key_value_temp h.1 (pending ∙ ap some (ok-eq w v (rw pending at e)))
  | inl missing ↦ elim (Option-cases (find k t.key_value)) [
    | inr (w, stored) ↦
        find-FittingMap k v t.key_value h.0
          (stored ∙ ap some (ok-eq w v (rw (missing, stored) at e)))
    | inl absent ↦ absurd (let no = rw (missing, absent) at e in ground arith)
  ]
]

pub set-FittingTable :
    (k v : Str) (t : Table) → IsFitting v → FittingTable t → FittingTable (Table.set k v t)
unfolding Table.set
set-FittingTable k v t g h = (h.0, assign-FittingMap k v t.key_value_temp g h.1)

pub commit_changes-FittingTable : (t : Table) → FittingTable t → FittingTable (commit_changes t)
unfolding commit_changes
commit_changes-FittingTable t h = (assign_all-FittingMap t.key_value_temp t.key_value h.1 h.0, tt)

pub rollback_changes-FittingTable : (t : Table) → FittingTable t → FittingTable (rollback_changes t)
unfolding rollback_changes
rollback_changes-FittingTable t h = (h.0, tt)

push-IsFitting :
    (args : List Str) (text value : Str)
    → valid_args MessageType.push args ≡ true
    → encode (message MessageType.push args) ≡ ok text
    → get_arg args 0 ≡ some value
    → IsFitting value
unfolding valid_args encode
push-IsFitting [] text value v e g = absurd (ground arith)
push-IsFitting (a ∷ []) text value v e g =
    elim (Bool-cases
      (ltb max_encoded_len (length (codes "PUSH" ++ (encode_args (a ∷ []) ++ 10 ∷ []))))) [
        | inl long ↦ absurd (let k = rw long at e in ground arith)
        | inr short ↦ subst IsFitting (some-eq a value g) (
          v,
          omega (
            arith,
            ltb-false→le _ _ short,
            length-append (a ++ []) (10 ∷ []),
            length-append a [],
          ),
        )
      ]
push-IsFitting (a ∷ b ∷ args) text value v e g = absurd (ground arith)

pub Reply-is_valid : {msg : Message} → Reply IsFitting msg → is_valid msg ≡ true
unfolding is_valid
Reply-is_valid done = refl
Reply-is_valid (refused what) = refl
Reply-is_valid (rejected what) = refl
Reply-is_valid (shown value g) = g.0

-- The text is read back as a response: OK, FAILED, ERROR, or DATA with a value that fits.
pub record IsAnswer (text : Str) : Type 0 where
  pub msg : Message
  pub reply : Reply IsFitting msg
  pub decodes : decode text ≡ ok msg

abbrev pub FittingConnection : Connection → Type 0
FittingConnection c = All IsFitting c.m_stack.m_vector × All IsAnswer c.written

pub read-IsFitting :
    (line value : Str) (msg : Message)
    → decode line ≡ ok msg
    → msg.m_message_type ≡ MessageType.push
    → get_value msg ≡ some value
    → IsFitting value
unfolding get_value is_valid
read-IsFitting line value msg d e g =
    let (valid, text, written, short, again) = decode-canonical line msg d in
    push-IsFitting msg.m_args text value (rw e at valid)
      (subst (λ t. encode (message t msg.m_args) ≡ ok text) e written) g

abbrev pub fitting : Upkeep
fitting = record {
  Good = IsFitting;
  TableOk = FittingTable;
  ConnOk = FittingConnection;
  NamesOk = λ m n. Unit;
  new_ok = λ i. (tt, tt);
  created_ok = λ name. (tt, tt);
  no_names_ok = tt;
  named_ok = λ name m n absent h. tt;
  mutex_ok = λ t o h. h;
  set_ok = set-FittingTable;
  get_ok = get-FittingTable;
  commit_ok = commit_changes-FittingTable;
  rollback_ok = rollback_changes-FittingTable;
  flags_ok = λ c l b ps h. h;
  stack_ok = λ c vs g h. (g, h.1);
  stack_good = λ c h. h.0;
  spoken_ok = λ c msg text r e h. (
    h.0,
    (record { msg = msg; reply = r; decodes = decode-encode msg text (Reply-is_valid r) e }, h.1),
  );
  number_good = λ z h. let (short, value) = to_string_bounds z h in (value, omega (arith, short));
  read_good = read-IsFitting;
}
