-- ===== src/Lib.antt =====
-- PrismDB: a single-node engine with one log, one buffer pool and one transaction manager under SQL
-- tables, documents and key-value pairs. This library models parts of its Rust crates.
--
-- `Common` holds what the components share: tests and lists over native numbers, results, bounded
-- readers, little-endian integers, maps, two's complement, and the checksum crate as a parameter.
--
-- `Wal` is crates/prism-wal. `Wal/Payload`, `Fields`, `Reader` and `Record` are src/record.rs: the
-- payloads of log records, the helpers `put_*` and `Reader`, `encode_body`, `assemble_frame`,
-- `encode_record`, `decode_body` and `decode_record`. Bytes are numbers below 256 in lists, and a
-- reader's state is the slice it has not consumed. An index past the end, where Rust panics, reads
-- zeros; `decode_record` checks the length before it reads. `Wal/Segment` is the segment header of
-- src/segment.rs, a buffer of which is its bytes at each offset, and `Segment/Names` the file names.
-- `Wal/Scan` is `scan_active` of src/wal.rs, on fuel of one more than the bytes, which is enough as
-- a frame takes 36 bytes. `Wal/Device` is `append`, `rotate` and `flush_through` of src/wal.rs over
-- the calls of the file system, which are a parameter with no law. The durable LSN is the counter of
-- that name; what a disk keeps after a crash is not modelled.
--
-- `Core` is crates/prism-core. `Core/Record` is src/record.rs. `Core/CommitLog`, `Core/Visibility`
-- and `Core/Txn` are src/txn.rs and src/visibility.rs: a function for each operation of
-- `TxnManager`, over the manager's state; what runs under one mutex is one function, so that
-- `begin` is `allocate` and then `register`, and `commit_internal` is `publish_commit` and then
-- `retire`. The log enters through the interface `Core/LogDevice`, which `Wal/Device` fills: an
-- append gives an LSN, which is then the last one, or an error, and a flush through an LSN that is
-- not above the last one reports success only when the log is durable up to it. The system clock is
-- an argument. `Core/Txn/Isolation` interleaves the parts as a step relation, with
-- the assumption that the 64-bit counter of transaction ids does not wrap, and that only the owner
-- of an active transaction ends it.
-- `Core/Lock` is src/lock.rs: a round of the loop of `acquire` under the shard's mutex is one
-- event, and the wait between two rounds is the choice of the next event. The search of the graph
-- runs on fuel, one more than the number of edges, which is enough since each edge is pushed once
-- at most. The set of edges of a transaction is a list, in any order.
--
-- `Storage` is crates/prism-storage. `Storage/Bytes` is the page buffer, a value at each offset;
-- `Storage/Page` is src/page.rs and src/checksum.rs: the header fields, the slots, and a function
-- for each operation of `SlottedPage`, by the same bytes at the same offsets. `get_mut`, which lends
-- the bytes of a record to its caller, is not modelled.
--
-- `Buffer` is crates/prism-buffer. `Buffer/Pool` and `Buffer/Paging` are src/pool.rs: what runs under
-- the mutex of the directory is one function, and `flush_matching`, which does not hold it, is made
-- of a look at a frame, a write and the clearing of a mark. The log enters as above, the disk manager
-- through `Buffer/Devices`: a page that was written is read back, and a write, also one that fails,
-- touches no other page. A content latch is a flag of the frame, set while a writer holds it, and a
-- set of page ids is a list.
--
-- `Index` is crates/prism-index, src/btree.rs. `Index/Node` is a node in memory and what is done to
-- it, `Index/Tree` the methods of `BTree` over the interface `NodeStore`: a node can be read, written
-- and allocated, a write touches no other node, and a page that is allocated had none. `Index/Body` is
-- `encode_body`, `put_node` and `decode_node`, and `Index/Pages` fills the interface by encoded pages
-- and the log. The tree's lock makes a method one step. A method gives a value or an error, with the
-- pages as it leaves them, or a panic; a loop runs on fuel, and more than the height is enough, for a
-- range also more than the number of leaves. `Index/Subtree` says which pages hold a tree: sorted keys
-- between their separators, no page twice, leaves linked in order, all at one depth. `Index/Forest`,
-- `Placing` and `Separation` are about the subtrees of one node, `Grown` about a change below it.
--
-- `Sql` is parts of crates/prism-sql. `Sql/Like` is `like_match` of src/lib.rs: an index is the list
-- that begins there, and the loop runs on fuel, which is enough as each backtrack moves the start of
-- the last `%` on and no pattern is gone through twice between two backtracks. `Sql/SetOps` is
-- `set_union`, `set_intersect` and `set_except` over any rows with a test of equality, which
-- `SetOps/Rows` gives for the values of src/types.rs. `Sql/Value` is `value_cmp` and `compare`, with
-- the comparison of doubles and their conversion from integers as a parameter on bits, `Sql/Keys` is
-- `encode_index_key`, and `Keys/Ranges` the bounds of `pk_range_seek_rids`, with `Type` under the
-- name `ColumnType`.
--
-- `Protocol` is crates/prism-protocol. `Protocol/Codec` is src/codec.rs: a writer is a function from
-- the bytes written so far, with the error of a field that is too long, and a reader's state is what
-- is left of its slice. `Protocol/Value`, `Commands`, `KvResult`, `Update` and `Query` are parts of
-- src/data.rs, `Protocol/Frame` is src/frame.rs. `Protocol/Encodes` is the relation between
-- a writer and a reader that agree, with its combinators. A string is its bytes with the test of
-- `Protocol/Utf8`, a double the 64 bits of its representation. A query is decoded on fuel, one more
-- than its bytes, which is enough as each level of nesting takes one.
-- `Protocol/Rows` is the rows of src/data.rs, where a bit of the bitmap is a digit of its byte.
-- `Protocol/MessageType` and `Protocol/Message` are src/message.rs: `Message` writes bodies,
-- `Message/Bodies` reads them and has the packets.
--
-- Not modelled: files and sockets, the disk manager, the record store and its recovery,
-- the rest of the SQL engine, the other two data models, the server and the clients.
pub mod Common
pub mod Wal
pub mod Storage
pub mod Core
pub mod Protocol
pub mod Buffer
pub mod Index
pub mod Sql
