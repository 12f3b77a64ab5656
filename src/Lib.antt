-- ===== src/Lib.antt =====
-- A verification library of go-cask, a content-addressable object store in Go. An object is encoded by
-- the client's codec, framed in an envelope, hashed by the client's hasher and stored in a backend under
-- the digest of its frame; maintenance walks the graph of references, verifies what is stored and sweeps
-- what is not reachable.
--
-- The parts, their files here and their code in the repository:
-- - Digest, Digest/Text: cas/digest.go (NewDigest, String, ParseDigest, UnmarshalText, Equal, Prefix). A
--   digest is its bytes; the absent digest is the empty list.
-- - Errors: cas/errors.go, and error values as errors.Is sees them: the sentinels on the chain, no message
--   text. `io.EOF` compared by == is the same sentinel.
-- - Reader, Varint: io.Reader, io.ReadAll, io.LimitReader, io.ReadFull and encoding/binary's varints, as
--   far as the code uses them. A stream is the bytes that it gives, the error that ends it, and what its
--   Close returns.
-- - Envelope, Envelope/Peek, Header: cas/envelope.go. encodeEnvelope is `frame`, decodeEnvelopeHeader is
--   `decode_header`, decodeEnvelope `decode_envelope`, PeekHeader, PeekType and PeekVersion are
--   `peek_header`, `peek_type` and `peek_version`; the proofs are in Envelope/RoundTrip, Damage, Extend,
--   Fields and Streams.
-- - ReadClose: cas/readclose.go, readThenClose with its two orders.
-- - Backend, Hasher: cas/backend.go, cas/stats.go, cas/hasher.go as records of operations on a state.
--   `BackendLaws` and `HasherLaws` are their documented contracts: a backend is a map from digests to
--   bytes, a put or delete changes it at one digest, and a failing put changes nothing. They leave out
--   failing devices: on a live context a backend in a valid state answers, as the memory backend does.
-- - Mem: cas/backend/mem/mem.go with the reads of cas/backend/stream.go, one function per method. Mem/Laws
--   and Mem/Contents prove the invariant, Mem/Contract that the backend keeps the contract (`mem_laws`).
-- - Mem/Snapshot: cas/backend/mem/snapshot.go, Snapshot and Restore as bytes and back.
-- - Archive: cas/backend/snapshot/snapshot.go, Export and Import over any two backends. Archive/Writing is
--   about the records of the listed objects, Archive/Reading about the loop that puts them.
-- - Store: cas/store.go over any backend, codec and hasher. `Config` is the type parameter with its codec,
--   `encoded` the shared front of the write paths, `unmarshal` what Get does once the bytes are read.
-- - Walk: cas/reachability.go and cas/walker.go. WalkDigests is `walk_digests`, on fuel: one step for each
--   digest that is popped, so the roots and the references of all objects together, and one more, are
--   enough (`pending`); Walk/Correct proves that.
-- - Sweep, Verify, Stream: cas/sweep.go, cas/verifier.go, cas/stream.go over any backend. Times are numbers
--   of nanoseconds; the temporary file of PutStream is a parameter. The context of a sweep may end between
--   any two steps of its deletions, and a delete may fail (`KeepsOthers`).
-- - Pack: cas/pack/pack.go, Split, Join and Count. The loop of Split has as much fuel as the payload has
--   bytes, and each turn moves on by at least one.
-- - Batch: cas/batch.go, GetMany over any backend, whose own batch is a parameter; the caller's function
--   works on a state of its own.
-- - Guard: cas/bloom/guard.go over any backend and filter; Guard/Blooms puts both filters behind it,
--   and Guard/Removal is about a filter that can remove, over Bloom/Counting/Accounts.
-- - Bloom, Bits: cas/bloom/standard/filter.go with its 64-bit words and cas/bloom/counting/filter.go with
--   its packed counters; `Words` and `Slots` treat one bit and one counter, `Holds` and `Balance` the
--   probes. The sizes that floating-point logarithms give and the hash are parameters.
-- - BloomHeader: cas/bloom/persistent/header.go, the header of a filter that is kept in a file; the CRC-64 is
--   a parameter.
-- - Cache: cas/cache/mem/cached.go, and Cache/Lru: cas/cache/lru/lru.go. The element of a key is the key in
--   the list; the loop of `note` has the length of the list as fuel and drops one key each time.
-- - RefName, RefLog, Refs: cas/refs/refs.go, that is ValidateName, the text of a log with parseLog, and the
--   operations of the store over a record of the system calls that it makes (`System`, `SystemLaws`).
--   Times are int64 and not before 1970. Names that differ may name one file, on a file system that
--   ignores case: what is proved of another reference asks that its file is another (`IsApart`).
-- - Capabilities: cas/capabilities.go.
-- - Cbor: cas/codec/cbor/cbor.go. The encoder is in Cbor, the decoder in Cbor/Decoding, the codec that owns
--   or delegates in Cbor/Codec; `decode_one` recurses on MaxDepth + 1 less the depth. A float is its bits.
-- - BigEndian: encoding/binary's big-endian numbers, for Cbor, Mem/Snapshot and Archive.
-- - BinaryCodec: cas/codec/binary/binary.go and ComposeTag of cas/codec/internal/bounded/bounded.go.
-- - Common: byte strings, tests on numbers, lists, association lists for Go maps (Common/Assoc) and the
--   sorting of byte strings (Common/Sort) and of maps by their keys (Common/Keys).
-- - Tests: inputs, tests at fixed inputs, and the results below applied to them.
--
-- An operation is one step on an explicit state: the mutexes make it so, and interleavings inside one
-- operation are not modelled. A context is what ctx.Err() returns while an operation runs, in a walk at
-- each check. Lengths fit an int; where a sum could wrap around it is written out (Pack, the varints, the
-- snapshot's totals). Nil arguments that the code refuses with an error are left out.
--
-- Not modelled: the file-system and pack-file backends and their tools, the preloads of the caches, the
-- file of a persistent Bloom filter behind its header, the codecs that call libraries (JSON, gob,
-- compression), the cross-type repository, the hash functions, the command line, the web viewer and the
-- build tooling.
pub mod Common
pub mod Errors
pub mod Digest
pub mod Reader
pub mod Varint
pub mod Envelope
pub mod Archive
pub mod BigEndian
pub mod Bits
pub mod Bloom
pub mod BloomHeader
pub mod Cbor
pub mod Backend
pub mod ReadClose
pub mod Mem
pub mod Hasher
pub mod Store
pub mod Walk
pub mod Sweep
pub mod Verify
pub mod Pack
pub mod Stream
pub mod Header
pub mod Tests
pub mod Batch
pub mod BinaryCodec
pub mod Guard
pub mod RefName
pub mod RefLog
pub mod Refs
pub mod Capabilities
pub mod Cache
