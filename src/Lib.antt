-- ===== src/Lib.antt =====
-- Verification of mulsigo: a relay that broadcasts the messages of a channel among its clients, the
-- client library that runs a distributed key generation over such channels, and the network and event
-- packages under both.
--
-- How the parts interact: a `network.Router` (Network.Router) keeps one connection for each address
-- (Network.Frame and Network.Listener for TCP, Network.Local inside one process), decodes what
-- arrives (Network.Encoding) and hands it to a dispatcher (Network.Dispatch). The relay
-- (Relay.Server) is a processor of that dispatcher and puts each request into a queue of its
-- channel (Relay.Channel), whose goroutine answers through the router. It also listens to the
-- events of the router (Event). On the other side a client's multiplexer (Relay.Multiplexer) shares
-- one connection among channels; a reliable stream (Client.Stream) runs over a noise stream
-- (Client.Noise) on a channel between two participants, whose name comes from their identities
-- (Client.Identity); the client's router (Client.Router) sends and dispatches over streams, and the
-- key generation (Client.Dkg) is its processor. A command (Cmd) makes an identity (Client.Keys) and
-- saves it (Util.Config).
--
-- Which file models what; paths are from the repository's root, and an operation has the name of its
-- Go function in snake case:
--   Event.antt               event/event.go: simpleDispatcher
--   Relay/Message.antt       relay/relay.pb.go: RelayMessage and its parts
--   Relay/Channel.antt       relay/relay.go: channel; `select_case` is one case of the select of
--                            `process`, which has a goroutine of its own
--   Relay/Channel/Room.antt  what a channel promises: its clients and what each is told
--   Relay/Server.antt        relay/relay.go: Relay; an `Action` is one atomic step of a call or of a
--                            goroutine, and `run` is a schedule of them
--   Relay/Multiplexer.antt   relay/channel.go: Multiplexer and clientChannel; `Channel` is
--                            `enter_channel`, `join_outcome` and `finish_channel`
--   Relay/Multiplexer/Blocking.antt  the same, by steps, at the lock `chanMut`
--   Relay/Joining.antt       `Channel` of a client together with the relay's answer to its JOIN
--   Relay/Delivery.antt      the way of a message from one client through the relay to another
--   Client/Stream.antt       client/stream.go: reliableStream; `stateMachine` is `machine_receive`
--                            and `machine_push`
--   Client/Stream/Link.antt  two such streams over a network that loses, repeats and reorders
--   Client/Stream/Completes.antt  what a send does on that network when its packets come through
--   Client/Noise.antt        client/stream.go: noiseStream, and newStream of the factory for channels;
--                            `machine_round` is a round of the reliable stream over it
--   Client/Keys.antt         client/keys.go: Identity, Private, GroupConfig
--   Client/Identity.antt     client/keys.go: Identity.ID; client/router.go: channelID
--   Client/Files.antt        client/file.go
--   Client/Router.antt       client/router.go: Router, seqDispatcher
--   Client/Dkg.antt          client/dkg.go: DKG; kyber's generator is the parameter `Generator`
--   Client/Dkg/Share.antt    the same: Run and the handlers, by steps, at the channel of the share
--                            and at the wait of a broadcast
--   Network/Frame.antt       network/tcp.go: TCPConn
--   Network/Listener.antt    network/tcp.go: TCPListener
--   Network/Address.antt     network/address.go: Address
--   Network/Dispatch.antt    network/dispatch.go: BlockingDispatcher
--   Network/Dispatch/Locked.antt  the same and RoutineDispatcher, by steps, at their lock
--   Network/Dispatch/Calls.antt   their histories, and the calls that are expected of them
--   Network/Encoding.antt    network/encoding.go: idRegistry and the two encoders
--   Network/Router.antt      network/router.go: Router
--   Network/Conn.antt        network/tcp.go and network/local.go: `Send`, `Receive` and the counters of
--                            network/struct.go
--   Network/Host.antt        the retries of NewTCPListener, TCPHost and LocalHost; GlobalBind
--   Network/Local.antt       network/local.go: LocalManager, LocalConn, LocalListener
--   Util/Base64.antt         encoding/base64 of Go, as client/keys.go uses it
--   Util/Hex.antt            util/encoding.go: the hexadecimal forms; a point and a scalar are alike
--   Util/Buffers.antt        util.go
--   Util/Config.antt         util/config.go: Config
--   Util/Config/Listing.antt  the same: List and ListDir
--   Cmd.antt                 cmd/local.go, and the body of the loop of cmd/list.go
--   Cmd/Listing.antt         cmd/list.go, and the flags of cmd/root.go
--   Pgp.antt                 old/pgp/keys.go, which nothing uses
--   Slog.antt                slog/log.go; a `Call` is a call of one of its functions
-- Prelude and the files below it hold what the components share: lists, association lists for Go's
-- maps, results, and Boolean tests. Examples holds tests and runs at concrete inputs.
--
-- Conventions: strings and byte slices are lists of natural numbers; a Go map is an association
-- list, whose order stands for the order of a range loop; a buffered Go channel is the list of what
-- it holds, oldest first. A lock makes a call atomic, except in Relay.Server,
-- Relay.Multiplexer.Blocking, Network.Listener, Network.Local, Network.Dispatch.Locked and
-- Client.Dkg.Share, where a call that holds the lock can block. A result `none` of a step says that
-- it blocks or is not ready; panics are spelt out where the code can meet them. Numbers of type
-- uint32 and uint64 wrap at 2 ^ 32 and 2 ^ 64; an int is a natural number, since no length here
-- comes near 2 ^ 63.
--
-- No definition needs fuel: the loops on input run over the list of what wakes them (reads, writes,
-- results, timers) and end in `waiting` when the list is used up before the code would return, and the
-- retries count down as the code does. A list is long enough with 100 wakeups for `send` of a stream,
-- with 100 arrivals for a handshake, and with one call for each byte for the framing.
--
-- Parameters, as code outside this repository: kyber's key generator and the encoding of its
-- elements, the noise library, ed25519 signatures, SHA-256 and SHA-512, the HTTP client, the
-- protobuf encoding of a value, the printer and the parser of TOML, the package fmt, gpg and the
-- parser of its packets, the parsers of hosts, ports and numbers, the paths, the answers of the
-- operating system and of the network. The hexadecimal and base64 encodings, the comparison of
-- strings and the byte order of sizes are Go's standard library and are written out.
--
-- Not modelled: the generation of keys and their conversion to Curve25519, the reading of elements
-- in base64 through the group library, the reading of the commands' flags, the choice of the one
-- hash, and the generator of names (a copy from another project). The time is modelled by timers
-- that can fire at any point.
mod Prelude
pub mod Event
pub mod Relay
pub mod Slog
pub mod Network
pub mod Client
pub mod Util
pub mod Cmd
pub mod Pgp
mod Examples
