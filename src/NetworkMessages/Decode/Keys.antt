-- ===== src/NetworkMessages/Decode/Keys.antt =====
-- `decode_network_key_publish_request` of src/protocol/network_messages.cpp: the envelopes of one
-- size each, after their number.
use lan_link.Prelude.{
  ℕ, zero, suc, ◌+◌, ◌*◌, not, ◌||◌, List, [], ◌∷◌, ltb, leb, ◌==◌, Result, ok, ◌>>=◌, ◌>>◌,
  Exception, runtime_error, require, length, take, drop,
}
use lan_link.Bytes.{read_integer}
use lan_link.NetworkMessages.{NetworkKeyEnvelope, max_network_peer_entries}
use lan_link.NetworkMessages.Decode.{key_envelope_size, decode_network_key_envelope}

unfoldable pub decode_envelopes : ℕ → List ℕ → Result Exception (List NetworkKeyEnvelope)
decode_envelopes zero payload = ok []
decode_envelopes (suc count) payload = do
  envelope ← decode_network_key_envelope (take key_envelope_size payload)
  others ← decode_envelopes count (drop key_envelope_size payload)
  ok (envelope ∷ others)

unfoldable pub decode_network_key_publish_request :
    List ℕ → Result Exception (List NetworkKeyEnvelope)
decode_network_key_publish_request payload = do
  require (leb 2 (length payload)) runtime_error
  let count = read_integer 2 payload 0
  require
      (not (
        count == 0
        || ltb max_network_peer_entries count
        || not (length payload == 2 + count * key_envelope_size)))
      runtime_error
  decode_envelopes count (drop 2 payload)
