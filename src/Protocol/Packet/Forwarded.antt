-- ===== src/Protocol/Packet/Forwarded.antt =====
-- Packets with their sender, to bytes and back.
use lan_link.Prelude.{
  ℕ, ◌≤◌, ◌≡◌, refl, ap, true, false, List, ◌++◌, arith, ok, length, take, drop, length-append,
  take-append-drop, All-drop,
}
use lan_link.Bytes.{IsByte, IsBytes, take_here, drop_next}
use lan_link.Protocol.Packet.{
  ForwardedNetworkPacket, all_zero, valid_packet, encode_forwarded_network_packet,
  decode_forwarded_network_packet, encode_encrypted_network_packet, decode_encrypted_network_packet,
}
use lan_link.Protocol.Packet.RoundTrip.{
  IsTyped, packet_bytes, decode-packet_bytes, encode-decode_packet, valid_size, length-packet_bytes,
}

forwarded_bytes-inv :
    (f : ForwardedNetworkPacket) (bytes : List ℕ)
    → encode_forwarded_network_packet f ≡ ok bytes
    → (all_zero f.sender_device_id ≡ false)
      × (valid_packet f.packet ≡ true)
      × (bytes ≡ f.sender_device_id ++ packet_bytes f.packet)
unfolding encode_forwarded_network_packet encode_encrypted_network_packet
forwarded_bytes-inv f bytes e = (ground arith, ground arith, ground arith)

decode_forwarded_read :
    (payload : List ℕ) (f : ForwardedNetworkPacket)
    → 114 ≤ length payload
    → all_zero f.sender_device_id ≡ false
    → take 32 payload ≡ f.sender_device_id
    → decode_encrypted_network_packet (drop 32 payload) ≡ ok f.packet
    → decode_forwarded_network_packet payload ≡ ok f
unfolding decode_forwarded_network_packet
decode_forwarded_read payload f size sender front packet =
    rw (packet, front) (ground (arith, sender, size))

-- A packet with its sender that was encoded, its arrays and integers of their sizes, is decoded.
pub decode-encode_forwarded :
    (f : ForwardedNetworkPacket) (bytes : List ℕ)
    → length f.sender_device_id ≡ 32
    → IsTyped f.packet
    → encode_forwarded_network_packet f ≡ ok bytes
    → decode_forwarded_network_packet bytes ≡ ok f
decode-encode_forwarded f bytes n t e =
    let (sender, valid, same) = forwarded_bytes-inv f bytes e in
    let wire = packet_bytes f.packet in
    let whole = f.sender_device_id ++ wire in
    let front : take 32 whole ≡ f.sender_device_id =
      take_here 0 32 whole f.sender_device_id wire refl n in
    let back : drop 32 whole ≡ wire = drop_next 0 32 whole f.sender_device_id wire refl n in
    let size : 114 ≤ length whole = omega (
      arith,
      length-append f.sender_device_id wire,
      length-packet_bytes f.packet t,
      valid_size f.packet valid,
    ) in
    rw same (
      decode_forwarded_read whole f size sender front
        (rw back (decode-packet_bytes f.packet t valid)))

decode_forwarded-inv :
    (payload : List ℕ) (f : ForwardedNetworkPacket)
    → decode_forwarded_network_packet payload ≡ ok f
    → (all_zero f.sender_device_id ≡ false)
      × (f.sender_device_id ≡ take 32 payload)
      × (decode_encrypted_network_packet (drop 32 payload) ≡ ok f.packet)
unfolding decode_forwarded_network_packet
decode_forwarded-inv payload f e = (ground arith, ground arith, ground arith)

-- Bytes that were decoded to a packet with its sender are the encoding of the two.
pub encode-decode_forwarded :
    (payload : List ℕ) (f : ForwardedNetworkPacket)
    → IsBytes payload
    → decode_forwarded_network_packet payload ≡ ok f
    → encode_forwarded_network_packet f ≡ ok payload
unfolding encode_forwarded_network_packet
encode-decode_forwarded payload f h e =
    let (sender, front, packet) = decode_forwarded-inv payload f e in
    let encoded =
      encode-decode_packet (drop 32 payload) f.packet (All-drop IsByte 32 payload h) packet in
    rw (sender, encoded) (ap ok (rw front (take-append-drop 32 payload)))
