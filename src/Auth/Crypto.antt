-- ===== src/Auth/Crypto.antt =====
-- What src/auth/packet_crypto.cpp and src/auth/identity.cpp call of OpenSSL, as a record of operations,
-- and what they make of it: the transcript of a signed key and the key of a sender. An operation that
-- fails is `none`.
use lan_link.Prelude.{
  ℕ, ◌≡◌, Bool, false, not, ◌||◌, Option, none, some, List, [], ◌∷◌, ◌++◌, if◌then◌else◌, Result,
  ok, throw, Exception, runtime_error, bytes_eq,
}
use lan_link.Bytes.{append_integer}
use lan_link.PeerState.{SignedDeviceKey}
use lan_link.Protocol.Packet.{all_zero}

-- `seal` and `open_sealed` are AES-256-GCM, with a key, a nonce and associated data; `seal` gives the
-- ciphertext and its tag. What was sealed opens.
pub record Crypto : Type 0 where
  pub sha256 : List ℕ → List ℕ
  pub hkdf : List ℕ → List ℕ → List ℕ → Option (List ℕ)
  pub verify_signature : List ℕ → List ℕ → List ℕ → Result Exception Bool
  pub seal : List ℕ → List ℕ → List ℕ → List ℕ → Option (List ℕ × List ℕ)
  pub open_sealed : List ℕ → List ℕ → List ℕ → List ℕ → List ℕ → Option (List ℕ)
  pub open_sealed-seal :
      (key nonce aad plaintext ciphertext tag : List ℕ)
      → seal key nonce aad plaintext ≡ some (ciphertext, tag)
      → open_sealed key nonce aad ciphertext tag ≡ some plaintext

-- "lanlink-auth-v2"
abbrev transcript_prefix : List ℕ
transcript_prefix =
    108 ∷ 97 ∷ 110 ∷ 108 ∷ 105 ∷ 110 ∷ 107 ∷ 45 ∷ 97 ∷ 117 ∷ 116 ∷ 104 ∷ 45 ∷ 118 ∷ 50 ∷ []

-- "lanlink-virtual-packet-key-v1"
abbrev key_domain : List ℕ
key_domain =
    108 ∷ 97 ∷ 110 ∷ 108 ∷ 105 ∷ 110 ∷ 107 ∷ 45 ∷ 118 ∷ 105 ∷ 114 ∷ 116 ∷ 117 ∷ 97 ∷ 108 ∷ 45 ∷ 112
    ∷ 97 ∷ 99 ∷ 107 ∷ 101 ∷ 116 ∷ 45 ∷ 107 ∷ 101 ∷ 121 ∷ 45 ∷ 118 ∷ 49 ∷ []

abbrev make_auth_transcript : List ℕ → List ℕ → List ℕ → List ℕ → List ℕ
make_auth_transcript identity_key encryption_key client_nonce server_nonce =
    transcript_prefix ++ (identity_key ++ (encryption_key ++ (client_nonce ++ server_nonce)))

-- A call that fails throws.
abbrev pub or_throw {ℓ} : {A : Type ℓ} → Option A → Result Exception A
or_throw none = throw runtime_error
or_throw (some value) = ok value

module _ (c : Crypto) where
  abbrev make_device_id : List ℕ → List ℕ
  make_device_id identity_key = c.sha256 identity_key

  unfoldable pub verify_signed_device_key : SignedDeviceKey → List ℕ → Result Exception Bool
  verify_signed_device_key key device_id =
      if all_zero device_id
        || all_zero key.encryption_public_key
        || not (bytes_eq (make_device_id key.identity_public_key) device_id)
      then ok false
      else c.verify_signature key.identity_public_key
          (make_auth_transcript key.identity_public_key key.encryption_public_key key.client_nonce
            key.server_nonce)
          key.signature

  unfoldable pub derive_sender_key :
      List ℕ → List ℕ → ℕ → List ℕ → List ℕ → Result Exception (List ℕ)
  derive_sender_key network_key network_id epoch sender_id session_public_key = or_throw (
      c.hkdf (network_id ++ append_integer 8 epoch) network_key
        (key_domain ++ (sender_id ++ session_public_key)))
