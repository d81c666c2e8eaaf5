-- ===== src/Lib.antt =====
-- auth_kademlia: the core of an authenticated Kademlia node.
--
-- The program keeps contacts in a routing table of k-buckets (src/routing.rs), measures distances by
-- XOR on a 128-bit fold of 160-bit identifiers and collects lookup candidates in a bounded heap
-- (src/node.rs), cuts messages into datagrams (src/fragmentation.rs), sends them and puts them
-- together again (src/protocol.rs), and stores values with a time to live (src/storage.rs). A request
-- of a peer is dispatched to its handler (src/protocol.rs). The server (src/network.rs) finds, sets,
-- updates and deletes records by iterative lookups (src/crawling.rs) and calls of peers.
--
-- Which file models which part:
--   Node, Node/Fold, Node/Metric: `Node`, `id_to_u128`, `distance_to`, `same_home_as`, `address`.
--   NodeHeap and its children: `NodeHeap`. The `BinaryHeap` is a list whose `pop` takes the greatest
--     entry by `Ord for HeapEntry`; `HashSet` is a list.
--   Routing/Bucket: `KBucket`, one function per method; a `VecDeque` is a list from front to back.
--   Routing/Table: `RoutingTable`. `insert` recurses on fuel: 129 calls are enough, since each split
--     halves the range of the bucket, and `Outcome` tells a return, a panic and a lack of fuel apart.
--   Routing/Neighbors: `TableTraverser` and `find_neighbors`; `Step` is what one run of `next` does
--     before it returns or calls itself, and `walk` needs fuel for each bucket and each contact.
--   Routing/Known: predicates of all nodes of a table.
--   Fragmentation: constants, `encode_fragments`, `parse_fragment` and `ReassemblyEntry`.
--   Reassembly: of src/protocol.rs the map of reassembly buffers, the first half of
--     `handle_datagram`, `gc_reassembly` and the part of `send_frame` that cuts a frame.
--   Crawling: `RPCFindResponse`, `SpiderCrawl`, `NodeSpiderCrawl` and `ValueSpiderCrawl`. What a peer
--     answers is a function of the peer, since a lookup asks no identifier twice; the hash maps of a
--     round are read in an order that is a parameter. One round is one unit of fuel, and one more
--     than there are nodes are enough, since each round asks a node that was not asked.
--   Protocol: the handlers `rpc_ping`, `rpc_store`, `rpc_update`, `rpc_update_status_list`,
--     `rpc_delete`, `rpc_leave`, and `verify_for_key`. The trait `SignatureVerifierHandler` of
--     src/auth_handler.rs is a record of its operations; the third-party cache behind
--     `SignatureCache` is a parameter with laws. Spawned tasks are part of the reply.
--   Protocol/Message, Protocol/Requests: `RpcMessage`, `WireNode`, `rpc_find_node`, `rpc_find_value`
--     and `dispatch_request`. Protocol/Welcome: `welcome_if_new`, `get_refresh_ids`, and
--     Protocol/Replicated: which records a new node is sent.
--   Protocol/Calls: `call_ping_addr`, the `call_*_rpc` and the `SpiderProtocol` methods, over what
--     `call` gives for an address and a request. Protocol/Pending: the table of pending calls, `call`
--     and the second half of `handle_datagram`; the steps of any interleaving are the relation `Step`.
--   Protocol/Chain: calls of the routing table in a row, with the fuel that each needs: a search is
--     given one unit for each bucket and each contact.
--   Auth: of src/auth_handler.rs `DIDSignatureVerifierHandler`, which fills the trait's record, and of
--     src/crypto the resolving of algorithms, the factory of verifiers and the checks of lengths; the
--     signature schemes, JSON, base64 and the issuer's key file are parameters. Auth/Text: what the
--     source uses of `str`, on bytes.
--   Network: `Server`. `World` has what the server does not decide: SHA-1, the answers of peers, the
--     orders of hash maps, the fuel of lookups, and in which order the calls of peers in a lookup, and
--     the tasks that they spawn, call the router: `route_all` makes these calls, with the operations
--     of the routing table. Network/Settled has what each of them needs.
--   Storage: `ForgetfulStorage`. Each call is one atomic step on an association list.
--     Refinement has the abstract store.
--   Prelude: lists over the native numbers, byte strings and big-endian numbers, XOR, sorting, and
--     association lists.
--
-- Times are arguments, in seconds or nanoseconds as the source reads them. `u16`, `u32` and `u128`
-- are numbers; where the source cuts or may overflow, the model writes `% 2 ^ w` out. The local node
-- of a table is the `node` field. A node's twins are contacts with another identifier and the same
-- fold; a bucket's worth of them is the case in which `insert` need not end.
--
-- Not modelled: sockets, the receive workers, locks, serialization and cryptography (third-party code),
-- the signers, saving of the state, the statistics log, the Python
-- bindings, key files, random nodes, and display code. An operation of the server reads the clock once,
-- and calls of several peers at once are made one after the other.
pub mod Prelude
pub mod Node
pub mod NodeHeap
pub mod Fragmentation
pub mod Reassembly
pub mod Routing
pub mod Storage
pub mod Protocol
pub mod Auth
pub mod Crawling
pub mod Network
