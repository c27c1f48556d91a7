-- ===== src/Lib.antt =====
-- ducklake-serverless keeps a catalog as immutable generations in an object store. A commit is the
-- creation of a marker, `roots/<generation>`, by a conditional write; the payload that it names is
-- stored before it, whole or as a manifest over packs of deduplicated chunks.
--
-- The files model src/ducklake_serverless:
--   Models       models.py: keys (Models/Keys), markers and hints (Models/RootDoc), changesets
--   Errors       errors.py, and computations that raise: `Exec W A` takes a world to a result and a
--                later world; Errors/Outcome has their postconditions
--   Rebase       rebase.py: `decide_rebase`, replay or abort after a lost race
--   Store        objectstore.py: the protocol as a record of calls; Store/Markers says what the calls
--                keep of the markers; Store/Memory is `InMemoryObjectStore`, Store/Keeps composes calls
--                that keep the markers, Store/Probe is the capability probe, Store/S3 is
--                `S3ObjectStore` over boto3's client, and Store/S3/Compat
--                scripts/compat_probe.py
--   Root         root.py: markers, the hint, `_gallop_discover` (Root/Gallop), the forward probe
--                (Root/Forward) and `resolve_head` (Root/Head)
--   Chunk        chunk.py: manifests, `choose_chunk_size`, `build_manifest`, the transfer of packs,
--                `reconstruct` (Chunk/Reconstruct)
--   Commit       commit.py: publishing, the creation of the marker and the driver
--   Recorder     recorder.py: the classification of statements
--   Generation   generation.py: the cache of pristine files, and hygiene
--   Session      session.py: `Transaction`, `Lake` and its `CommitContext`; readers
--                (Session/Streams), and engine.py (Session/Duckdb)
--   Blob         blob.py: `BlobStore`
--   Fsspec       fsspec_fs.py: the filesystem; its paths (Fsspec/Paths) and its range readers
--                (Fsspec/Reader)
--   Lease        lease.py: the time-limited lease of the maintenance
--   Gc           gc.py: the pure decision of the pack sweep (Gc/Decide), the ledger (Gc/Ledger), the
--                deletes (Gc/Deletes), what is retained (Gc/Resolve), a cycle (Gc/Collect) and
--                the maintenance of data (Gc/Maintain)
-- Base has the numbers, lists and texts that they share, and Tests the theorems at concrete
-- inputs. Gc calls Lease, Root, Chunk, Store and Session. Session and Blob call Generation and
-- the commit driver, with hooks of their own; the driver calls Chunk, Root and Store; the hooks
-- of Session call Rebase; Fsspec calls Root, Chunk and Store; Root and Chunk call Store; all read
-- Models.
--
-- A store is a parameter, over a type of worlds: each call takes one world to a later one, in
-- which other clients may have acted. `KeepsMarkers` is what the calls promise: markers are
-- neither changed nor removed, no client leaves a gap between them, a GET sees the object as it
-- is when the call ends, and a create-only PUT never overwrites. `Fails` is a type without
-- elements where the transport never fails. `Drawn` is any predicate that holds of each UUID that
-- `uuid4` returns during one commit, and so tells that commit from those of others.
--
-- Parameters: the store, and boto3's client below Store/S3; fsspec's own `_strip_protocol`;
-- `JsonBytes`, the bytes that pydantic writes and reads (which fields are written and accepted is
-- modelled); SHA-256; the decimal digits of Python's Unicode tables; sqlglot; the DuckDB
-- connection, and duckdb below engine.py; the working directory; for a commit the clock, `uuid4`,
-- the host, the sleep of `_backoff`, and the hooks of `CommitContext`.
--
-- Loops on fuel: `bracket` has MAX_GENERATION + 1 rounds, as each moves `lo` on; `binary_search`
-- has the length of its interval, which each round shrinks; `forward` counts PROBE_CAP down as
-- the source does; `read_runs` has a round for each entry; `grow` has the payload's size, and the
-- size doubles each round; `add_chunks` has a round for each byte; the rounds and the phases of a
-- commit count attempts; `acquire` is given how often it may call itself. The theorems on the
-- discovery, `resolve_head`, the marker, the lease, chunk sizes, manifests and ranges show that
-- this is enough there.
--
-- Choices: a generation is a natural number, so the check for negative ones has no case. Times
-- are whole units of one clock. Sets are lists whose order is not used. 0.4 is the fraction 2/5.
-- The text of a message is left out. Packs are sent and fetched one after the other. A file on
-- disk is its bytes, so that removing a work copy is nothing; of the working directory the
-- pristine files are kept. The contenders of a probe are a list, in the order in which their
-- requests take effect. The block of a transaction is the list of its statements, but for that of
-- `maintain_data`, which uses the lease too. The memo of readers of the filesystem is without its
-- lock.
--
-- Not modelled: DuckDB, fsspec's buffering, boto3 and `make_s3_client`; `snapshot_ids` of
-- engine.py; logging, configuration and the other scripts.
pub mod Base
pub mod Errors
pub mod Models
pub mod Rebase
pub mod Store
pub mod Root
pub mod Chunk
pub mod Commit
pub mod Lease
pub mod Gc
pub mod Blob
pub mod Fsspec
pub mod Generation
pub mod Recorder
pub mod Session
pub mod Tests
