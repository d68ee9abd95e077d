-- ===== src/Lib.antt =====
-- A verification library of the Go server SDK of LiveKit. It models the parts of the SDK that compute
-- on bytes and on state of their own, and proves what makes them correct.
--
-- The parts and their files
--   PacketTrailer: packet_trailer.go, packet_trailer_h264_parser.go and packet_trailer_h265_parser.go.
--     The SDK's media tracks append a trailer of timestamp and frame id to a frame and parse it from
--     one (appendPacketTrailer, parsePacketTrailer, stripPacketTrailer, parseSEIUserData,
--     parseH264SEIPacketTrailer, parseH265SEIPacketTrailer; here the same names with underscores).
--   Datatrack: internal/datatrack. A local data track gets a handle (Handle, for handle.go), stamps
--     its frames (Clock, for clock.go) and cuts them into packets (Packetizer, for packetizer.go, over
--     the markers and extensions of Packet, for packet.go). A remote one puts the packets together
--     (Depacketizer, for depacketizer.go). Schema (schema.go) has the encodings that go together, and
--     Proto (proto.go and info.go) the descriptions of tracks in the protocol's messages. Stream is the
--     buffer between a remote track and its reader (the type Stream of remote.go). Local is the manager
--     of published tracks (local.go): Methods has its methods, each as the part under the lock and the
--     tasks behind it, Machine the steps of all callers in any order, Pipeline and Carried what a frame goes
--     through (TryPush). Remote is the rest of remote.go: Pipeline takes packets back to frames, Track
--     has the subscription of one track, Routes and Assigned the manager's handles, Publications and
--     Participants the updates of participants (handlePublicationUpdates), and EndToEnd puts the senders'
--     pipeline and the receivers' together.
--   E2ee: the package e2ee and encryption.go. Video (e2ee/codec_video.go, codec_h264.go and
--     codec_h265.go, over Nalu and Rbsp) and Audio (encryption.go) seal samples; FrameCryptor
--     (e2ee/frameencryptor.go) puts caches of cipher blocks in front of them, DataCryptor
--     (e2ee/datacryptor.go) seals data messages, and Keys (e2ee/keyprovider.go) holds the keys of both.
--   Nack: pkg/interceptor/nackgenerator.go, which lost packets a stream reports.
--   Failover: failover.go and regionurlprovider.go. The retries of an API request (RoundTrip and
--     failover, here round_trip and attempt_loop), over Hosts, Regions for nextRegion, MaxAge for the
--     header, and Cache for the regions (regionCache).
--   Streams: streams.go. Bytes and text cut into chunks (chunkBytes, chunkUtf8String), their writer and
--     their reader.
--   StartGate: pkg/synchronizer/start_gate.go. The gate that holds packets back until they arrive at
--     their pace (burstEstimatorGate and Push, here StartGate and push).
--   Rpc: rpc.go and utils.go. The errors of RPC (NewRpcError, truncateBytes) and compareVersions.
--   Prelude: the names that all files share, with lists, Go maps and bits.
--
-- How the code is modelled
--   A byte slice is a list of numbers below 256, and a nil slice that the code tells from an empty one
--   is `none`. An unsigned word of w bits is a number with `% 2 ^ w` where the code wraps round. A
--   method that changes its receiver returns the new state beside its result. A Go pair of a value and
--   an error is a data type with a constructor for each, and a panic of the runtime is a constructor of
--   its own. Go maps are association lists in which a key stands once. A method that holds a lock, or
--   that one goroutine calls, is one step. The interleavings of several goroutines are modelled for the
--   manager of local data tracks alone (Datatrack.Local.Machine).
--   What is not in the repository is a parameter: the packet format of the protocol module (the record
--   Dtp, with DtpLaws for what it is documented to do), AES and GCM (Gcm, with GcmLaws), the protobuf
--   codec and the key derivation (arguments), the clock's instants and the random bytes (arguments).
--
-- Bounds and fuel
--   The loop of parsePacketTrailer has the length of the trailer as fuel, since a round moves on by two
--   bytes at least. The loop of chunkPayload has the payload's length, since a round takes a byte at
--   least. The eviction loop of beginPartial has the number of partial frames and one more, since a
--   round removes one. The loop of finalize has the number of payloads and one more. The loop of the
--   NACK generator has 65536, more than any distance of two numbers of 16 bits. The loop of failover
--   counts the attempts that are left, as in the code. The loops that cut data streams have the length
--   and one more, since a round takes a byte at least where the text is valid.
--
-- Not modelled
--   The engine, the room, the transports and the signalling drive WebRTC and websockets by goroutines
--   and callbacks. The service clients wrap generated code. The media readers, the rest of the
--   synchronizer and the sample builder are timing, input and output, or a copy of another library. Key derivation only
--   checks its arguments and calls a library. Of RPC the registration of methods and the calls
--   are left out, and so is the merging of callbacks.
pub mod Prelude
pub mod PacketTrailer
pub mod Datatrack
pub mod E2ee
pub mod Nack
pub mod Failover
pub mod Streams
pub mod StartGate
pub mod Rpc
