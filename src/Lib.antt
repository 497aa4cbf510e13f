-- ===== src/Lib.antt =====
-- NexTalk: a messenger that encrypts between two ends, and to groups by fan-out over such pairs.
--
-- The parts and their files:
-- - Crypto: the frames of crypto/kex_hybrid.go and kex_hybrid_nanopack.go (Crypto/SecureMessage), and
--   the double ratchet of kex_hybrid.go and ratchet.go (Crypto/Ratchet). A method of *SecurePeer is a
--   function from a session to its result and the session as it leaves it, on an error too. Sync
--   relates the two ends of a session, Conversation follows them through a frame and Turns through
--   turns whose frames may be read late, but do not cross those of the other end. Rejects is about what a session refuses. Crypto/Handshake is the handshake of kex_hybrid.go, which
--   makes the first keys of a session.
-- - Core: core/models.go (Core/Wire), the offers and answers, and core/engine.go (Core/Engine), the
--   three steps of a handshake. The engine keeps nothing: it gets and returns a peer.
-- - Relay: the type byte and the recipient's key of internal/relay/relay.go.
-- - Client: the sessions, the handshake and SaveClient of client/client.go. One session can stand under
--   two keys there, so a table gives each key an address, and a write goes through the address. It
--   calls the engine for a handshake and the session for a message.
-- - Multimsg: internal/multimsg. Types is types.go, Wire is wire.go with the framing functions of
--   fanout.go, Contexts and Deliveries are the two file stores of store.go, Memory its
--   two stores without files, and Fanout is fanout.go
--   with its sending half (Fanout/Send) and receiving half (Fanout/Receive). A fan-out owns a client and
--   both stores; a send encrypts for each recipient in that client's sessions, saves, and hands
--   frames to the relay; a receive decrypts, checks the binding, dedupes and learns contexts.
-- - Mailbox: internal/mailbox/store.go. Mailbox/Forms has the messages and their record form, and
--   Mailbox the conversations and the record file.
-- - Binstore: the record files of internal/binstore/binstore.go, over the envelope of nanopack.
-- - Contacts: internal/contacts/store.go, the book of names; its file is one of Binstore.
-- - Filetransfer: internal/filetransfer. Filetransfer/Manifests has the manifest, Filetransfer the
--   encryption and the chunks of a file, which goes through a client's session, and
--   Filetransfer/Ticket is ticket.go.
-- - Frame: internal/frame/frame.go, the frames of Relay as containers that people carry.
-- - Proquint: crypto/encoding_proquint.go, bytes as words that can be spoken.
-- - Shell: internal/shellcmd. Shell/Lexer is lexer.go, Shell/Parameters is Parse of flags.go, and
--   Shell/Distance the edit distance of suggest.go.
-- - Std: the parts of Go's standard library that the above computes with (big-endian words, decimal
--   and base64 text). External: the third-party packages, as a record of functions with the laws
--   the code relies on. Base: helpers for lists, byte strings and maps. Examples: runs.
--
-- Names are those of the source in lower case, so Fanout.Send.send_multi_message is SendMultiMessage.
-- Strings and byte slices are lists of numbers; a Go map is an association list, so the order of an
-- iteration over a map is one order of the many that Go may take. Numbers are natural: a uint64
-- keeps its wrap-around (update_stored), and the counters of a session are ints below 2^63. A nil
-- slice is none where the code tells it from an empty one. Loops are structural; the loop that
-- fills a gap in a chain runs for the difference of its bounds, which is exactly as far as it goes.
-- The loop that cuts a file into chunks runs for at most a round for each byte, which is enough
-- since a chunk has a byte. A uvarint has at most ten bytes, as in encoding/binary.
-- Random IDs, fresh keys and the clock are arguments. The relay is a function that says whether it
-- takes a frame, and an outbox of the frames it was given.
--
-- Not modelled: JSON forms and their migration (the engine's reader of old JSON and the form of a
-- container are arguments), logging, locks (each method holds its lock throughout), the transports,
-- the commands and completion of the shell, and the user interfaces.
mod Base
pub mod Std
pub mod External
pub mod Relay
pub mod Crypto
pub mod Core
pub mod Client
pub mod Multimsg
pub mod Mailbox
pub mod Binstore
pub mod Contacts
pub mod Filetransfer
pub mod Proquint
pub mod Shell
pub mod Frame
pub mod Examples
