-- ===== src/Lib.antt =====
-- APGO is a mesh VPN: each node runs client/, which dials its peers, moves packets between the
-- overlay and the sessions, and floods records that an administrator signed.
--
-- Files and what they model (paths from the repository's root):
--   Replay      the anti-replay window of a session and the order of recvPacket:
--               client/sessions.go (replayCheck, replayMark, shiftWindow), client/main.go
--   SessionTable  the sessions of a node and the routes they carry: client/sessions.go (set,
--               evictStale, Evict, TouchLastSeen, NoteDecryptFailure, NudgeRediscovery)
--   Backoff     when an endpoint is dialled again: client/sessions.go (RecordFailure,
--               RecordSuccess, ResetBackoff, ShouldSkip, the pruning in evictStale)
--   Bencode     the reader and the writer: client/bencode.go, client/bencode_encode.go
--   Signed      the signed bytes of the administrator's records and their verification:
--               client/revocation.go, approvals.go, policy.go, provision.go, netconfig.go
--   Gossip      what the stores of such records share: one record for each key, replaced by a
--               newer one
--   Revocation  the store of revocations and the blocked addresses: client/revocation.go
--   Admission   approvals, the data-plane gate and policies: client/approvals.go, client/policy.go
--   Provision   address assignments and the ledger of their sequences: client/provstore.go, with
--               provAddrIP's helpers in client/provision.go and client/control.go
--   LoginThrottle  the back-off of the dashboard login: admin/loginthrottle.go
--   Rendezvous  the registry of live endpoints: rendezvous/main.go (announce, sweep)
--   RoutingTable  the Kademlia table of the DHT: client/dht.go (dhtCommonPrefix, Add, fail)
--   Dht         a DHT node: client/dht.go (dhtHandlePacket, handleQuery, the tokens, the peer store,
--               the compact forms, the transactions, Closest), on top of RoutingTable and Bencode
--   IpLearning  which endpoint an overlay IP is routed to: client/ip_learning.go
--   AddressClaims  who gives up an overlay address that two nodes claim: client/ipclaim.go
--               (overlayIPClaims, yieldsTo, resolveOverlayIPCollision), with client/roster.go
--   RelayPolicy when a peer is punched and when it is reached over a relay: client/relaypolicy.go,
--               with the gate of punchCandidates and the end of myConnectCandidates in client/main.go
--   AddressBindings  which key holds an overlay address: client/ipbinding.go (owns, releaseOthers,
--               Forget), on what AddressClaims knows
--   PubExit     public exits: client/pubexit_proto.go (pxChannel, pxParse, pxChecksum, pxAdjust,
--               pxRewrite, pxIsPublicIPv4); its channel keeps the window of E2e
--   ExitServer  the sessions of a public exit: client/pubexit_server.go (onHello, onFinish,
--               handleData, allocLocked, remove, closeAll, the janitor's round, fromClient with
--               pxAllowedDestination and flowAllowed), on top of PubExit
--   Window      what a replay window promises, as an interface; Replay and E2e fill it
--   E2e         the end-to-end relay: client/e2erelay.go (e2eWindow, e2eOpener, e2eSealer);
--               E2e/Once is on replays, E2e/Nonces on the sealer's counters
--   Prelude     lists, maps, bits, texts and numbers that all parts use
-- Revocation, Admission and Provision verify with Signed; Revocation and Admission converge by
-- Gossip; Replay and E2e are clients of Window, and E2e shares the word lemmas of Replay; Dht
-- handles packets with RoutingTable and Bencode; SessionTable prunes the entries of Backoff,
-- moves and forgets the routes of IpLearning, and answers what Learn asks of it; AddressClaims
-- reads Provision, Revocation, Admission, SessionTable and IpLearning; ExitServer forwards with
-- the packets and channels of PubExit; LoginThrottle, RelayPolicy and Rendezvous stand alone.
--
-- Representation: a Go map is an association list, whose order stands for one run of `range`; a
-- key that is only compared is a number, with 0 for the empty text; a text is the list of its
-- bytes; an int64 is an integer that is bounded where the bound matters; times are nanoseconds,
-- with the clock an argument. The words of the replay window wrap at 2 ^ 64 as uint64 does.
-- The rounds of allocLocked, newSessionID and nextFreeDerivedAddress are those of the source.
-- The bencode reader's budget is the source's nesting limit; its loops carry one more than the
-- number of bytes left as fuel; Bencode/Total is on that fuel.
-- Parameters: the answers of the session table in IpLearning (SessionTable fills them), the
-- tests on an endpoint's IP in SessionTable, X25519 and the key derivation, the random source,
-- the rate limiters (floating point), the Noise and ML-KEM handshake of a public exit, the
-- overlay's range and the host's addresses in ExitServer, the texts of keys and the salted
-- derivation of addresses in AddressClaims and AddressBindings, the AEAD, LZ4 unframing, base64,
-- signature verification, the resolver of overlay addresses, strings.TrimSpace, the overlay's
-- mask length, and the truncated HMAC of announce tokens. RoutingTable takes dhtRoutableAddr as
-- a parameter, which Dht fills.
-- The loop of dhtParseNodes has one round for each byte as fuel, of which a round takes 26, and
-- pxChecksum folds in two rounds, enough for a uint32.
-- Not modelled: sockets, files, logs, locks (each operation is one step), the Noise handshake,
-- packet devices, user interfaces, and the mobile copy of the client in ios/core.
pub mod AddressBindings
pub mod AddressClaims
pub mod Admission
pub mod Backoff
pub mod Bencode
pub mod Dht
pub mod E2e
pub mod ExitServer
pub mod Gossip
pub mod IpLearning
pub mod LoginThrottle
pub mod Prelude
pub mod Provision
pub mod PubExit
pub mod RelayPolicy
pub mod Rendezvous
pub mod Replay
pub mod Revocation
pub mod RoutingTable
pub mod SessionTable
pub mod Signed
pub mod Window
