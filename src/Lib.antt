-- ===== src/Lib.antt =====
-- A model of parts of fast-socket-rs, sockets that bypass the kernel's network stack, and the
-- theorems that make these parts correct.
--
-- The parts and how they interact:
-- - crates/poptrie is the longest-prefix-match table of the router: a builder collects prefixes in
--   a binary trie, `build` emits compressed arrays, `lookup` reads them. Poptrie holds the read side
--   (`Poptrie::lookup` is lookup, its loop is descend), Poptrie/Key the trait `IpKey`,
--   Poptrie/Builder the builder (`insert`, `intern`, `compact_live_values`), Poptrie/Emitter the
--   struct `Emitter` and `PoptrieBuilder::build`. Poptrie/Walk has the reference, the trie read bit
--   by bit; Poptrie/Longest says what a table is to answer. Poptrie/Builder/* are the proofs about
--   the builder, Poptrie/Emitter/* those about the emitter, Poptrie/Correct/* those about the whole.
-- - crates/fast-socket-xdp-rs/src/ring.rs has the cursors over the rings shared with the kernel:
--   Ring, Ring/Producer, Ring/Consumer. A System module has the kernel as further steps.
-- - crates/fast-socket-xdp-rs/src/umem.rs addresses the frames that ring descriptors name: Umem.
-- - crates/fast-socket-xdp-rs/src/egress.rs writes the link-layer header of what is sent: Egress.
-- - crates/fast-socket-xdp-ebpf/src/main.rs decides in the kernel which received packets go to a
--   ring: Filter. Filter/Udp says by the bytes of a packet which those are, Filter/Datagram joins it to
--   Egress.
-- - crates/fast-socket-xdp-rs/src/socket.rs writes and parses packet headers: Headers/Write is
--   `write_ipv4_udp_headers`, Headers/Parse and Headers/Frame are the parsers of received frames,
--   Headers/Endpoint is the header cache of a prepared endpoint (`build_cache` is
--   `build_xdp_udp_endpoint_cache`, `patch_lengths` is `patch_xdp_udp_endpoint_header_lengths`),
--   Headers/Ports the ports that a socket accepts. Headers/Filtered joins the parser to Filter.
-- - crates/fast-socket-xdp-rs/src/route.rs resolves destinations: Routes. Routes/Table and Routes/Index
--   join it to Poptrie, Routes/Lookup to Egress; Routes/Snapshot has the operations that change a
--   snapshot. Routes/Local and Routes/Monitor (crates/fast-socket-xdp-rs/src/route_monitor.rs) hand
--   new snapshots to a queue.
-- - crates/fast-socket-xdp-rs/src/buffer.rs keeps the free frames of a pool, Reclaim, and a packet in a
--   frame, PacketBuf. Headers/Transmit writes a send's headers into that frame.
-- - crates/fast-socket-rs/src/route.rs reads and writes the text of a link-layer address: LinkText.
-- - crates/fast-socket-rs/src/batch.rs has the receive batches that sockets fill: Batch.
-- - crates/fast-socket-xdp-rs/src/aggregate.rs receives from several queues in turn into one
--   batch: Aggregate. Aggregate/Turns says which member has its turn when.
--
-- How code becomes definitions: a struct is a record, an enum a data type, a method a function of
-- the state that returns the new one, `Option`, a panic or a failed check `none`. Numbers are
-- unbounded, and what a machine word cuts off is written out (Prelude/Words). The native array of
-- trie nodes is a list, with the indexes of the source.
--
-- Bounds and fuel: the width of a key and the number of direct bits are parameters, for IPv4 and
-- IPv6 alike. `descend` and `fill` recurse on the number of strides left below the direct bits,
-- which is what the key has, so no walk needs more.
-- A `u32` sum has no carry left after two rounds, so the checksum's loop has fuel for three tests of it;
-- the walk through IPv6 extension headers has a round for each byte of the packet, and each goes on by
-- eight at least; draining a queue has a round for each frame in it. Each of these is proved enough.
-- The router's width is 32 and it has 14 direct bits; Routes takes both as parameters.
-- `usize` and `u64` have 64 bits. The hypotheses that sizes stay below 2^32 are those under which
-- the casts to `u32` in the source lose nothing.
--
-- Parameters: `XskMap::redirect` of the eBPF library, `mmap` and the page size of the system, equality of
-- route values, the members' sockets of an aggregate, the router of a prepared endpoint, and crossbeam's bounded queue
-- (Reclaim.ArrayQueue). The hash map of `intern` is the list of its entries.
--
-- Not modelled: system calls (mmap, NUMA placement, socket options), the debug-only
-- `validate_invariants`, the batches of a socket over its rings, the pools that hand buffers out,
-- netlink, the async driver, examples and benchmarks.
pub mod Prelude
pub mod Aggregate
pub mod Batch
pub mod Egress
pub mod Filter
pub mod Headers
pub mod LinkText
pub mod PacketBuf
pub mod Poptrie
pub mod Reclaim
pub mod Ring
pub mod Routes
pub mod Umem
