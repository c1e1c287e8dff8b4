-- ===== src/Protocol/Packet/RoundTrip.antt =====
-- Packets to bytes and back.
use lan_link.Bytes.{
  field_at, split_at, IsBytes, append_integer, read_integer, read_integer-append_integer,
  length-append_integer, take_here, drop_next,
}
use lan_link.Protocol.Packet.{
  encode_encrypted_network_packet, EncryptedNetworkPacket, valid_packet, header_bytes, packet_at,
  fixed_size, decode_encrypted_network_packet,
}
use lan_link.Prelude.{
  ℕ, ◌+◌, ◌^◌, ◌≤◌, ◌<◌, ◌≡◌, refl, sym, ap, ◌∙◌, subst, true, List, ◌++◌, append_assoc, arith, ok,
  length, take, drop, length-append, length-take, length-drop, take-length,
}

-- The sizes of the arrays and the ranges of the integers.
pub record IsTyped (p : EncryptedNetworkPacket) : Type 0 where
  pub network_size : length p.network_id ≡ 16
  pub nonce_size : length p.nonce ≡ 12
  pub tag_size : length p.tag ≡ 16
  pub destination_fits : p.destination_ipv4 < 2 ^ 32
  pub epoch_fits : p.key_epoch < 2 ^ 64
  pub sequence_fits : p.sequence < 2 ^ 32

abbrev pub packet_bytes : EncryptedNetworkPacket → List ℕ
packet_bytes p = header_bytes p ++ (p.ciphertext ++ p.tag)

pub valid_size :
    (p : EncryptedNetworkPacket)
    → valid_packet p ≡ true
    → (20 ≤ length p.ciphertext) × (length p.ciphertext ≤ 65_535)
unfolding valid_packet
valid_size p h = (ground arith, ground arith)

pub length-packet_bytes :
    (p : EncryptedNetworkPacket)
    → IsTyped p
    → length (packet_bytes p) ≡ fixed_size + length p.ciphertext
unfolding append_integer
length-packet_bytes p t =
    simp (length-append) (omega (arith, t.network_size, t.nonce_size, t.tag_size))

-- A payload with the fields of a valid packet is decoded to it.
decode_read :
    (payload : List ℕ) (p : EncryptedNetworkPacket)
    → valid_packet p ≡ true
    → length payload ≡ fixed_size + length p.ciphertext
    → read_integer 2 payload 44 ≡ length p.ciphertext
    → read_integer 4 payload 16 ≡ p.destination_ipv4
    → read_integer 8 payload 20 ≡ p.key_epoch
    → read_integer 4 payload 28 ≡ p.sequence
    → packet_at payload (length p.ciphertext) p.destination_ipv4 p.key_epoch p.sequence ≡ p
    → decode_encrypted_network_packet payload ≡ ok p
unfolding decode_encrypted_network_packet
decode_read payload p valid size n destination epoch sequence all =
    let bounds = valid_size p valid in
    rw (size, n, destination, epoch, sequence) (ground (arith, valid, bounds, all))

-- What stands at each offset of an encoded packet.
module _ (p : EncryptedNetworkPacket) where
  abbrev from_46 : List ℕ
  from_46 = p.ciphertext ++ p.tag

  abbrev from_44 : List ℕ
  from_44 = append_integer 2 (length p.ciphertext) ++ from_46

  abbrev from_32 : List ℕ
  from_32 = p.nonce ++ from_44

  abbrev from_28 : List ℕ
  from_28 = append_integer 4 p.sequence ++ from_32

  abbrev from_20 : List ℕ
  from_20 = append_integer 8 p.key_epoch ++ from_28

  abbrev from_16 : List ℕ
  from_16 = append_integer 4 p.destination_ipv4 ++ from_20

module _ (p : EncryptedNetworkPacket) (t : IsTyped p) where
  abbrev wire : List ℕ
  wire = packet_bytes p

  at_0 : drop 0 wire ≡ p.network_id ++ from_16 p
  at_0 = simp append_assoc

  at_16 : drop 16 wire ≡ from_16 p
  at_16 = drop_next 0 16 wire p.network_id (from_16 p) at_0 t.network_size

  at_20 : drop 20 wire ≡ from_20 p
  at_20 = drop_next 16 4 wire _ (from_20 p) at_16 (length-append_integer 4 _)

  at_28 : drop 28 wire ≡ from_28 p
  at_28 = drop_next 20 8 wire _ (from_28 p) at_20 (length-append_integer 8 _)

  at_32 : drop 32 wire ≡ from_32 p
  at_32 = drop_next 28 4 wire _ (from_32 p) at_28 (length-append_integer 4 _)

  at_44 : drop 44 wire ≡ from_44 p
  at_44 = drop_next 32 12 wire p.nonce (from_44 p) at_32 t.nonce_size

  at_46 : drop 46 wire ≡ from_46 p
  at_46 = drop_next 44 2 wire _ (from_46 p) at_44 (length-append_integer 2 _)

  at_tag : drop (46 + length p.ciphertext) wire ≡ p.tag
  at_tag = drop_next 46 (length p.ciphertext) wire p.ciphertext p.tag at_46 refl

  -- The fields that a decoder reads.
  packet_read : packet_at wire (length p.ciphertext) p.destination_ipv4 p.key_epoch p.sequence ≡ p
  packet_read =
      let network : take 16 wire ≡ p.network_id =
        take_here 0 16 wire p.network_id (from_16 p) at_0 t.network_size in
      let nonce : take 12 (drop 32 wire) ≡ p.nonce =
        take_here 32 12 wire p.nonce (from_44 p) at_32 t.nonce_size in
      let body : take (length p.ciphertext) (drop 46 wire) ≡ p.ciphertext =
        take_here 46 _ wire p.ciphertext p.tag at_46 refl in
      let tag : take 16 (drop (46 + length p.ciphertext) wire) ≡ p.tag =
        rw at_tag (rw (← t.tag_size) (take-length p.tag)) in
      cc (network, nonce, body, tag)

  pub decode-packet_bytes : valid_packet p ≡ true → decode_encrypted_network_packet wire ≡ ok p
  decode-packet_bytes valid =
      let size = length-packet_bytes p t in
      let bounds = valid_size p valid in
      let destination : read_integer 4 wire 16 ≡ p.destination_ipv4 =
        read_integer-append_integer 4 16 _ wire (from_20 p) (omega (arith, t.destination_fits))
          at_16 in
      let epoch : read_integer 8 wire 20 ≡ p.key_epoch =
        read_integer-append_integer 8 20 _ wire (from_28 p) (omega (arith, t.epoch_fits)) at_20 in
      let sequence : read_integer 4 wire 28 ≡ p.sequence =
        read_integer-append_integer 4 28 _ wire (from_32 p) (omega (arith, t.sequence_fits))
          at_28 in
      let n : read_integer 2 wire 44 ≡ length p.ciphertext =
        read_integer-append_integer 2 44 _ wire (from_46 p) (omega (arith, bounds)) at_44 in
      decode_read wire p valid size n destination epoch sequence packet_read

encode-inv :
    (p : EncryptedNetworkPacket) (bytes : List ℕ)
    → encode_encrypted_network_packet p ≡ ok bytes
    → (valid_packet p ≡ true) × (bytes ≡ packet_bytes p)
unfolding encode_encrypted_network_packet
encode-inv p bytes e = (ground arith, ground arith)

pub encode_valid :
    (p : EncryptedNetworkPacket)
    → valid_packet p ≡ true
    → encode_encrypted_network_packet p ≡ ok (packet_bytes p)
unfolding encode_encrypted_network_packet
encode_valid p valid = ground (arith, valid)

-- A packet that was encoded, its arrays and integers of their sizes, is decoded.
pub decode-encode_packet :
    (p : EncryptedNetworkPacket) (bytes : List ℕ)
    → IsTyped p
    → encode_encrypted_network_packet p ≡ ok bytes
    → decode_encrypted_network_packet bytes ≡ ok p
decode-encode_packet p bytes t e =
    let (valid, same) = encode-inv p bytes e in rw same (decode-packet_bytes p t valid)

-- What `decode_encrypted_network_packet` has checked.
decode-inv :
    (payload : List ℕ) (p : EncryptedNetworkPacket)
    → decode_encrypted_network_packet payload ≡ ok p
    → (length payload ≡ fixed_size + read_integer 2 payload 44)
      × (valid_packet p ≡ true)
      × (p
          ≡ packet_at payload
              (read_integer 2 payload 44)
              (read_integer 4 payload 16)
              (read_integer 8 payload 20)
              (read_integer 4 payload 28))
unfolding decode_encrypted_network_packet
decode-inv payload p e = (ground arith, ground arith, ground arith)

-- The bytes of the packet at the front of a payload are the payload.
spelled_bytes :
    (payload : List ℕ) (n : ℕ)
    → IsBytes payload
    → length payload ≡ fixed_size + n
    → n ≡ read_integer 2 payload 44
    → packet_bytes (
        packet_at payload n
          (read_integer 4 payload 16)
          (read_integer 8 payload 20)
          (read_integer 4 payload 28))
      ≡ payload
spelled_bytes payload n h size e =
    let body_size : length (take n (drop 46 payload)) ≡ n =
      omega (arith, length-take n (drop 46 payload), length-drop 46 payload) in
    let network = split_at 16 0 payload in
    let destination = field_at 4 16 _ payload h (omega arith) refl in
    let epoch = field_at 8 20 _ payload h (omega arith) refl in
    let sequence = field_at 4 28 _ payload h (omega arith) refl in
    let nonce = split_at 12 32 payload in
    let count = field_at 2 44 n payload h (omega arith) (sym e) in
    let body = split_at n 46 payload in
    let last = drop (46 + n) payload in
    let tag_size : length last ≡ 16 = omega (arith, length-drop (46 + n) payload) in
    let tag : last ≡ take 16 last =
      sym (subst (λ m. take m last ≡ last) tag_size (take-length last)) in
    rw body_size
      (simp append_assoc (cc (network, destination, epoch, sequence, nonce, count, body, tag)))

-- Bytes that were decoded to a packet are the encoding of that packet.
pub encode-decode_packet :
    (payload : List ℕ) (p : EncryptedNetworkPacket)
    → IsBytes payload
    → decode_encrypted_network_packet payload ≡ ok p
    → encode_encrypted_network_packet p ≡ ok payload
encode-decode_packet payload p h e =
    let (size, valid, same) = decode-inv payload p e in
    encode_valid p valid ∙ ap ok (ap packet_bytes same ∙ spelled_bytes payload _ h size refl)
