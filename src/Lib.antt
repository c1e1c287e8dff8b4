-- ===== src/Lib.antt =====
-- LanLink joins machines over a relay into virtual local networks. This library is about what its
-- programs say to each other: the framing of a byte stream (include/lanlink/protocol/codec.hpp,
-- stream_decoder.hpp), the messages in the frames (network_messages.hpp, packet_messages.hpp), and
-- the policy of a network, which travels in a peer state and decides who may send to whom
-- (network_policy.hpp), all in src/protocol; and about the parts that carry the packets: the cipher
-- between members (src/auth), the search for a direct path (src/p2p), and the limits on what is sent
-- (src/transport).
--
-- A connection pushes what it receives into a `FrameStreamDecoder`, which hands out frames. The type
-- of a frame says which decoder reads its payload; a peer state ends with a policy.
--
-- - Prelude: lists over the native numbers, `Result` for code that throws, casts to enumerations.
-- - Bytes: integers in network order, `append_integer` and `read_integer` of src/protocol/codec.cpp.
-- - Wire: `Reader` of src/protocol/network_messages.cpp and `BinaryReader` of
--   include/lanlink/protocol/binary.hpp, as one reader over the bytes that are left. Wire.Laws is how
--   it reads what was written, Wire.Lists the same for a list of items.
-- - Protocol.Message, Protocol.Codec, Protocol.Stream: src/protocol/codec.cpp and
--   src/protocol/stream_decoder.cpp. Protocol.Stream.Spec says how bytes divide into frames.
-- - Protocol.Packet: src/protocol/packet_messages.cpp.
-- - NetworkMessages: src/protocol/network_messages.cpp, with Name for `valid_network_name`, Encode and
--   Decode for the messages but the peer state, and PeerState for that.
-- - Policy: src/protocol/network_policy.cpp, with Encode and Decode for its codec, Access, Routes
--   and Subnets for its decisions.
-- - Capabilities: src/protocol/capabilities.cpp, by which two sides agree on a version and on
--   features. It uses the integers of Bytes alone.
--
-- - Auth: src/auth/packet_crypto.cpp, which seals the packets between members. Auth.Crypto is what it
--   calls of OpenSSL, as a record of operations with the law that what was sealed opens; Auth.Window the
--   window against replays; Auth.PacketCipher the class, with Methods, Runs for the sequences of
--   its calls, and PeerKeys and Keys for the keys that a cipher has after them. It uses the policy, the peer state and the packets above; Protocol.Fanout is
--   include/lanlink/protocol/ipv4_fanout.hpp.
-- - Protocol.Ipv4: src/protocol/ipv4.cpp, with Words and Checksum for the checksum, Options for the
--   options that fragments copy, and Fields, Fragments, Reassembly and Placement for the fragments.
-- - P2P: src/p2p/connectivity.cpp, the search for a direct path. `next` is `next_check`, and `next_`
--   is `next_at`. Connectivity.Runs has its calls as steps, at times that do not run backwards, and
--   Connectivity.Mirror sets the pairs of the two sides against each other.
-- - Transport: `SendBudget` of src/transport/resource_limits.cpp, with its tickets in SendBudget.System,
--   and `ReconnectBackoff` of src/transport/reconnect.cpp.
--
-- A byte is a number below 256, an array or a vector a list. What a C++ type says of sizes and ranges
-- is a hypothesis where it matters (`IsTyped` and its kin). Every field that is written is cut to its
-- width. `Exception` has the class that is thrown and not the message. A value of an enumeration type
-- that has no enumerator is `unnamed`.
--
-- Both loops of `FrameStreamDecoder::push` run on fuel, the number of bytes that are left or one more: a round of
-- the outer loop takes one byte at least, a frame sixteen. An exhausted fuel is a value of its own,
-- `ran_out` and `unfinished`. `valid_network_name` runs on the length of the name, since a round takes
-- a byte. The loops of Protocol.Ipv4 run on the length of the header and on that of the packet; where
-- the fuel ran out they would throw `logic_error`.
--
-- Not modelled: floating-point numbers, and with them `ControlRateLimit`; time but as a number;
-- allocation that fails, `std::set` but as the items it has, the text of exceptions, the
-- primitives of cryptography, the database, transports, the platforms and the user interface.
pub mod Prelude
pub mod Bytes
pub mod Wire
pub mod NetworkMessages
pub mod Protocol
pub mod Policy
pub mod PeerState
pub mod Capabilities
pub mod Auth
pub mod Transport
pub mod P2P
