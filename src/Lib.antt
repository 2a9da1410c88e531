-- ===== src/Lib.antt =====
-- A model of Lan Runner, a peer-to-peer chat for a local network, written in Go.
--
-- The parts and the files that model them:
--   * Guest: the gateway for guests, guest.go. Guest/Replay is the window against replayed frames
--     (replayWindow), Guest/Throttle the timeouts for failed handshakes (authThrottle),
--     Guest/Session one browser tab (guestSession) and its stream (handleEvents), and Guest/Hub the state they share (GuestHub):
--     Hub/Handoff its QR codes, Hub/Invites the life of an invite, Hub/Sessions the two session
--     maps, Hub/Hello admission (guestGate, handleHello), Hub/Frames what a guest sends (readFrame,
--     handleSend, handleTyping, handleBye), Hub/Join the way of a phone (JoinURL, handleJoin), and
--     Hub/Reach the runs of all of these operations, with restarts. Hub/*/Listed and Hub/*/Keeps hold
--     what each operation keeps.
--   * Peers: the peers and their sessions (main.go maintenanceLoop, transport.go register, the end
--     of runConn, closeAllConns), Peers/Discovery and Peers/Outbound their announcements and our own (discovery.go),
--     Peers/Handshake the signed key exchange (transport.go verifyHello, handshake), Peers/Dial the
--     ways into and out of a session (transport.go dialPeer, acceptLoop, runConn), and
--     Peers/Dispatch the frames of a session (transport.go handleFrame, heartbeat).
--   * Chat: the send path to peers and guests (transport.go Send, sendToGuest, SendTyping), and
--     Operator the requests of the operator's page that use it (httpui.go).
--   * Identity: the keys of this device (identity.go LoadOrCreateIdentity); Certs: the certificate of
--     the gateway and its scheme guard (tlscert.go); Diag: the diagnosis of the network (diag.go);
--     Runtime: log ring, fan-out, idle limit, local addresses (main.go).
--   * Secure: the encrypted channel between peers (crypto.go).
--   * Trust: the pinned keys (identity.go TrustStore).
--   * History: the transcripts in memory (store.go) and validConversationID (httpui.go).
--   * Sanitize: cleaning of names and bodies (main.go sanitizeNick, sanitizeBody).
--   * Qr: the QR encoder (qr.go) up to its matrix.
--   * Common: lists, strings, maps, bits and Boolean tests that the parts share. Tests: witnesses.
--
-- A guest's request passes the gate (Hello), whose throttle failed handshakes feed; a handshake
-- opens a session (Sessions) on an invite (Invites); a frame passes the replay window and the rate
-- limit of the session and is appended to the transcripts (History), cleaned (Sanitize). A peer is
-- met by a signed announcement (Discovery), which the pinned keys judge (Trust), and its sessions
-- carry frames of the channel (Secure), which a handshake keys (Handshake) and whose messages go into
-- the transcripts (Dispatch). The operator's page (Operator) sends through Chat, which picks the
-- sessions of peers or the queues of guests.
--
-- State is passed explicitly; a handler under a lock is one step, and so is a whole request of a
-- guest. Shared pointers are stored once: sessions stand in one map, the other holds their ids. A
-- Go map is a list of entries, of which operations look at the first with a key; the order of a
-- range over it is the order of the list. The clock, random values, HMAC, AES-GCM, base64,
-- hashes, signatures, key agreement, JSON and case folding are arguments; a file
-- that this program alone writes is what the JSON library reads back of it. Numbers are natural; a
-- word of 64 bits wraps where the code can reach its end (the replay window, the shift of the
-- timeouts, the frame counters). Loops recurse on lists or count down from the bound that the code
-- writes, except HKDF's, which has as many rounds as bytes are asked for (a round gives 32), and the
-- padding of a QR code, which has a round for each bit or codeword that can be missing.
--
-- Not modelled: sockets and timers, the text of pages and kits, the generation of certificates, flags
-- and start-up, log texts, UI events, counters that are only shown. An operation of the gateway is one step of a run even where the source gives its mutex back
-- in between; the findings of the manifest name what an interleaving there can do. A Go string is
-- taken to be valid UTF-8.
pub mod Common
pub mod Certs
pub mod Chat
pub mod Diag
pub mod Guest
pub mod History
pub mod Identity
pub mod Operator
pub mod Peers
pub mod Qr
pub mod Runtime
pub mod Sanitize
pub mod Secure
mod Tests
pub mod Trust
