-- ===== src/Protocol/Packet.antt =====
-- src/protocol/packet_messages.cpp: encrypted packets, and the same with their sender.
pub mod RoundTrip
pub mod Forwarded
use lan_link.Prelude.{
  ℕ, ◌+◌, ◌-◌, ◌*◌, ◌/◌, ◌%◌, ◌^◌, ◌≤◌, ◌<◌, ◌≡◌, ◌≢◌, ◌↔◌, ◌⊎◌, ◌∙◌, Bool, true, false, not, ◌&&◌,
  ◌||◌, List, [], ◌∷◌, ◌++◌, ltb, leb, ◌==◌, ==_iff, if◌then◌else◌, Result, ok, throw, ◌>>=◌, ◌>>◌,
  Exception, invalid_argument, runtime_error, require, >>=-inv, length, take, drop, bytes_eq,
  bytes_eq→eq,
}
use lan_link.Bytes.{append_integer, read_integer}

-- A fixed-size array is a list whose length is a hypothesis where it matters.
pub record EncryptedNetworkPacket : Type 0 where
  pub network_id : List ℕ
  pub destination_ipv4 : ℕ
  pub key_epoch : ℕ
  pub sequence : ℕ
  pub nonce : List ℕ
  pub ciphertext : List ℕ
  pub tag : List ℕ

pub record ForwardedNetworkPacket : Type 0 where
  pub sender_device_id : List ℕ
  pub packet : EncryptedNetworkPacket

abbrev pub network_id_size : ℕ
network_id_size = 16

abbrev pub packet_nonce_size : ℕ
packet_nonce_size = 12

abbrev pub packet_tag_size : ℕ
packet_tag_size = 16

abbrev pub device_id_size : ℕ
device_id_size = 32

abbrev pub min_virtual_ipv4_packet_size : ℕ
min_virtual_ipv4_packet_size = 20

abbrev pub max_virtual_ipv4_packet_size : ℕ
max_virtual_ipv4_packet_size = 65_535

abbrev pub header_size : ℕ
header_size = 46

abbrev pub fixed_size : ℕ
fixed_size = header_size + packet_tag_size

-- `std::all_of` of the bytes being zero.
unfoldable pub all_zero : List ℕ → Bool
all_zero [] = true
all_zero (b ∷ bs) = b == 0 && all_zero bs

-- The last four bytes of the nonce repeat the sequence number.
abbrev pub nonce_matches : EncryptedNetworkPacket → Bool
nonce_matches p = bytes_eq (take 4 (drop 8 p.nonce)) (append_integer 4 p.sequence)

unfoldable pub valid_packet : EncryptedNetworkPacket → Bool
valid_packet p =
    if all_zero p.network_id
      || p.destination_ipv4 == 0
      || (leb 0xf000_0000 p.destination_ipv4 && not (p.destination_ipv4 == 0xffff_ffff))
      || p.key_epoch == 0
      || p.sequence == 0
      || ltb (length p.ciphertext) min_virtual_ipv4_packet_size
      || ltb max_virtual_ipv4_packet_size (length p.ciphertext)
    then false
    else nonce_matches p

abbrev header_bytes : EncryptedNetworkPacket → List ℕ
header_bytes p =
    p.network_id
    ++ (append_integer 4 p.destination_ipv4
        ++ (append_integer 8 p.key_epoch
            ++ (append_integer 4 p.sequence
                ++ (p.nonce ++ append_integer 2 (length p.ciphertext)))))

unfoldable pub encode_encrypted_network_packet_header :
    EncryptedNetworkPacket → Result Exception (List ℕ)
encode_encrypted_network_packet_header p = do
  require (valid_packet p) invalid_argument
  ok (header_bytes p)

unfoldable pub encode_encrypted_network_packet : EncryptedNetworkPacket → Result Exception (List ℕ)
unfolding encode_encrypted_network_packet_header
encode_encrypted_network_packet p = do
  header ← encode_encrypted_network_packet_header p
  ok (header ++ (p.ciphertext ++ p.tag))

-- `read_integer` of this file checks its bounds.
read_checked : ℕ → List ℕ → ℕ → Result Exception ℕ
read_checked width payload offset =
    if ltb (length payload) offset || ltb (length payload - offset) width
    then throw runtime_error
    else ok (read_integer width payload offset)

-- The fields in the order of the wire.
abbrev packet_at : List ℕ → ℕ → ℕ → ℕ → ℕ → EncryptedNetworkPacket
packet_at payload size destination epoch sequence = record {
  network_id = take network_id_size payload;
  destination_ipv4 = destination;
  key_epoch = epoch;
  sequence = sequence;
  nonce = take packet_nonce_size (drop 32 payload);
  ciphertext = take size (drop header_size payload);
  tag = take packet_tag_size (drop (header_size + size) payload);
}

unfoldable pub decode_encrypted_network_packet : List ℕ → Result Exception EncryptedNetworkPacket
unfolding read_checked
decode_encrypted_network_packet payload = do
  require
      (not (
        ltb (length payload) (fixed_size + min_virtual_ipv4_packet_size)
        || ltb (fixed_size + max_virtual_ipv4_packet_size) (length payload)))
      runtime_error
  size ← read_checked 2 payload (header_size - 2)
  require (length payload == fixed_size + size) runtime_error
  destination ← read_checked 4 payload network_id_size
  epoch ← read_checked 8 payload (network_id_size + 4)
  sequence ← read_checked 4 payload (network_id_size + 12)
  require (valid_packet (packet_at payload size destination epoch sequence)) runtime_error
  ok (packet_at payload size destination epoch sequence)

unfoldable pub encode_forwarded_network_packet : ForwardedNetworkPacket → Result Exception (List ℕ)
encode_forwarded_network_packet f = do
  require (not (all_zero f.sender_device_id)) invalid_argument
  encrypted ← encode_encrypted_network_packet f.packet
  ok (f.sender_device_id ++ encrypted)

unfoldable pub decode_forwarded_network_packet : List ℕ → Result Exception ForwardedNetworkPacket
decode_forwarded_network_packet payload = do
  require (not (ltb (length payload) (device_id_size + fixed_size + min_virtual_ipv4_packet_size)))
      runtime_error
  require (not (all_zero (take device_id_size payload))) runtime_error
  packet ← decode_encrypted_network_packet (drop device_id_size payload)
  ok (record { sender_device_id = take device_id_size payload; packet = packet })
