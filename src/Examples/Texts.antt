-- ===== src/Examples/Texts.antt =====
-- The theorems on texts, numbers and tables at concrete inputs.
use a_multi_threaded_key_val.Prelude.{◌≡◌, ◌≤◌, refl, true, none, [], ◌∷◌, length}
use a_multi_threaded_key_val.Text.{Str, codes}
use a_multi_threaded_key_val.Exceptions.{ok, throw, invalid_message}
use a_multi_threaded_key_val.Message.{MessageType, Message, message, is_valid}
use a_multi_threaded_key_val.Serialization.{encode, decode}
use a_multi_threaded_key_val.Serialization.RoundTrip.{decode-encode}
use a_multi_threaded_key_val.Serialization.Canonical.{decode-canonical}
use a_multi_threaded_key_val.Serialization.Throws.{decode-throws, IsInvalid}
use a_multi_threaded_key_val.Table
use a_multi_threaded_key_val.Table.{Table, has_key, commit_changes, rollback_changes}
use a_multi_threaded_key_val.Table.Refinement.{
  IsWellFormed, spec, spec_set, spec_commit, spec_rollback, spec_lookup, or_failure, is_some,
  table_refines_spec,
}
use a_multi_threaded_key_val.Scenarios.{line, run}

abbrev set_message : Message
set_message = message MessageType.set (codes "t" ∷ codes "k" ∷ [])

valid : is_valid set_message ≡ true
unfolding run
valid = refl

encodes : encode set_message ≡ ok (line "SET t k")
unfolding run
encodes = refl

decode-encode_example : decode (line "SET t k") ≡ ok set_message
decode-encode_example = decode-encode set_message (line "SET t k") valid encodes

spaced : decode (line "  SET   t k") ≡ ok set_message
unfolding run
spaced = refl

decode-canonical_example :
    (is_valid set_message ≡ true)
    × (t : Str) × (encode set_message ≡ ok t)
    × (length t ≤ length (line "  SET   t k"))
    × (decode t ≡ ok set_message)
decode-canonical_example = decode-canonical (line "  SET   t k") set_message spaced

malformed : decode (line "HELLO") ≡ throw (invalid_message (codes "Unknown command"))
unfolding run
malformed = refl

decode-throws_example : IsInvalid (invalid_message (codes "Unknown command"))
decode-throws_example =
    decode-throws (line "HELLO") (invalid_message (codes "Unknown command")) malformed

-- One committed entry, and a pending entry of another key.
abbrev table : Table
table = record {
  m_name = codes "t";
  key_value = (codes "k", codes "41") ∷ [];
  key_value_temp = (codes "j", codes "7") ∷ [];
  table_mutex = none;
}

well_formed : IsWellFormed table
unfolding run
well_formed = ((refl, tt), (refl, tt))

table_refines_spec_example :
    (spec (Table.set (codes "k") (codes "42") table)
      ≡ spec_set (codes "k") (codes "42") (spec table))
    × (spec (commit_changes table) ≡ spec_commit (spec table))
    × (spec (rollback_changes table) ≡ spec_rollback (spec table))
    × (Table.get (codes "k") table ≡ or_failure (spec_lookup (codes "k") (spec table)))
    × (has_key (codes "k") table ≡ is_some (spec_lookup (codes "k") (spec table)))
table_refines_spec_example = table_refines_spec table (codes "k") (codes "42") well_formed
