-- ===== src/Lib.antt =====
-- netcode.go: a connection-based protocol over UDP, its packets, tokens, server and client.
--
-- A web backend seals a private connect token with a key that the servers share, and wraps it in a
-- public token for the client (token.go). The client (client.go) turns to the token's servers one
-- after another: it sends connection requests (packet.go) that carry the private token; the server
-- (server.go) checks it against the history of tokens seen (token_entries.go), adds an encryption
-- mapping for the sender's address (encryption.go) and answers with a challenge token. A client that
-- returns the challenge under the mapping's keys gets a slot and is connected. Payloads pass the
-- replay window (replay.go) into the receiver's queue (queue.go). For tests, a network simulator
-- (simulator.go) stands between the two in place of the sockets.
--
-- The files and the code:
--   Address          address.go: Address and Equal; Address/Parse for ParseAddress, parsePort and the
--                    conversions from and to net/netip
--   Buffer           buffer.go: writer and reader, with a panic where a slice is out of range
--   Crypto           crypto.go: packetNonce, and the in-place calls of the ciphers
--   Packet           packet.go: the packet types; Packet/Write for writePacket and its parts,
--                    Packet/Read for readPacket and its parts
--   Replay           replay.go: reset, alreadyReceived, advanceSequence
--   Queue            queue.go: clear, push, pop
--   TokenEntries     token_entries.go: connectTokenEntriesReset, FindOrAdd and Consume
--   Encryption       encryption.go: all operations of the encryption manager
--   Token            token.go: the private connect token and the challenge token; Token/Connect for
--                    the public connect token, Token/Generate for GenerateConnectToken
--   Server           server.go: the state, slots and searches; Server/Send for packets sent and
--                    disconnectClientInternal, Server/Handshake for the two handshake handlers and
--                    connectClient, Server/Process for received packets and Update, Server/Api for
--                    the public operations
--   Client           client.go: the state and its resets; Client/Send for packets sent and
--                    disconnectInternal, Client/Process for received packets, Client/Update for
--                    Update, Client/Api for the other public operations
--   Simulator        simulator.go: the state, random numbers and SendPacket; Simulator/Deliver for
--                    ReceivePackets and Update
-- The other files below these hold lemmas and theorems; Server/Roster is the abstract view of the
-- server's slots and Client/Link that of the client's connection, Server/Refine and Client/Refine set
-- the operations against them, and Server/Calls/Promises and Client/Refine/Promises say what each
-- public operation promises to do to them. Prelude and Float are shared, and Tests applies the theorems
-- to concrete inputs.
--
-- How the code is modelled. An operation on a struct is a function from the old struct to the new
-- one. A call that may fail returns an Option or a Result, whose `panics` is a Go panic: an index or
-- a slice out of range, and the panics that the code raises. Bytes and
-- words are natural numbers, with the wrap of uint64 counters written out, and an int32 is its 32-bit
-- pattern. The float64 unit is a parameter: times are bit patterns; so is the simulator's float32
-- unit. The ciphers of golang.org/x/crypto are a parameter too, with the laws that Open undoes Seal,
-- that a sealed message is 16 bytes longer, and that a key of 32 bytes is accepted; of net/netip,
-- ParseAddr and Unmap are parameters. The arrays over the client slots are one list of 256 records.
-- The wall clock, random bytes and received packets are arguments, and one reading of the clock stands
-- for all that a call makes; packets sent and callbacks are a
-- list of events. Loops over fixed arrays are recursions on the list or on the number of rounds left,
-- so that none needs fuel.
--
-- Not modelled: the String form of addresses, sockets, state names and logging, which are output of
-- the standard library and the operating system, and the programs of cmd, which call the library.
pub mod Prelude
pub mod Float
pub mod Address
pub mod TokenEntries
pub mod Encryption
pub mod Replay
pub mod Buffer
pub mod Crypto
pub mod Packet
pub mod Queue
pub mod Token
pub mod Server
pub mod Client
pub mod Simulator
pub mod Tests
