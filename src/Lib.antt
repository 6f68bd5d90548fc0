-- ===== src/Lib.antt =====
-- inoxset: an embedded store of bitmap sets, one bitmap for an event and a period.
--
-- The program. A write (src/lib.rs) checks the event name (src/error.rs) and the period
-- (src/period.rs), ORs the bitmap into the write buffer (src/mempart.rs) under the key of event and
-- period and, for events with rollup, under the coarser periods above (src/rollup.rs). A remove
-- records the bits in a delete-delta of the buffer. A flush writes the buffer to part files and
-- registers them in an LMDB catalog (src/catalog.rs); reads overlay the buffer on what is flushed;
-- compaction merges the part files of a period (src/merge.rs).
--
-- The files.
--   Types            src/types.rs: granularities, periods and their derived order, configurations,
--                    parts, memberships, set expressions. Types.Codes and Types.Order: lemmas.
--   Error            src/error.rs: the errors, `Result`, `validate_event_name`.
--   Period           src/period.rs. Period.Calendar has the calendar arithmetic, Period.Parse the
--                    parser of keys; Period.Valid, Period.Closing, Period.CatalogKey: lemmas.
--   Range            src/lib.rs: `next_period`, `enumerate_periods`, `checked_write_range`.
--   Codec            src/catalog.rs: the byte formats. Codec.Part has the format of part metadata,
--                    Codec.Cursor the reading at a position.
--   Roaring          what the sources call of the `roaring` crate: a record of operations and of
--                    their laws. Roaring.Instance: bitmaps as lists.
--   MemPart          src/mempart.rs: the write buffer. MemPart.Content: its bits.
--   Rollup           src/rollup.rs, and what `put_bitmap`, `remove_bits` and their range versions of
--                    src/lib.rs do to the buffer under the write lock (`put_buffer`,
--                    `remove_buffer`, `put_range_buffer`, `remove_range_buffer`).
--   Merge            src/merge.rs: the fold of data and delta parts in the order of their ids.
--   Read             src/lib.rs: `get` on a cached bitmap, `contains_bit`, `query`.
--   Dict             src/dict.rs: the dictionary of external ids, its two LMDB tables and counter as
--                    the state. Dict.Bijection: the invariant.
--                    Dict.Batch: `batch_assign_or_get`. Dict.Uuid: UUIDs, which are kept as texts.
--   Dictionary       src/dictionary.rs: the standalone dictionary.
--   Bloom            src/bloom.rs: the Bloom filter.
--   Catalog          src/catalog.rs: the operations on the LMDB databases. Catalog.Txn has the helpers
--                    inside a transaction, Catalog.Delete the deletion of events and periods.
--   PartStore        src/part_store.rs: the paths of part files. PartStore.Search has
--                    `serialized_contains`, PartStore.Orphans `scan_orphans`.
--   Inverted         src/inverted.rs: the builder of the frozen index and the lookups. Inverted.Rows,
--                    Inverted.Group, Inverted.Found: the sorted rows, the loops, the search.
--   Store            src/lib.rs: the store and its checks, as actions that take it and leave it.
--                    Store.Flush has `flush`, Store.Write the buffered writes, Store.Replace
--                    `replace_bitmap` and `bulk_replace`, Store.Compact the compaction, Store.Delete
--                    deletion and retention, Store.Disk `get`, Store.Query the reads
--                    built on it, Store.Index src/read_index.rs, Store.Freeze the rebuild of the
--                    inverted index, Store.Health `health` and `close`, Store.Ids and its children
--                    the operations on external ids and UUIDs.
--                    Store.Content and Store.Stored: the parts of a key, as an abstract list and as
--                    what catalog and files hold. Store.Swap: one part in the place of all of a key.
--                    Store.Spared and Store.Failure: what a flush that fails leaves alone.
--   Builder          src/builder.rs: the settings and `open`, with the removal of orphans.
--   Prelude          library names, tests, lists, words, integers, decimal texts, hash maps.
--
-- The model. A function that mutates `&mut self` takes the state and returns it. `u8` to `u64` are
-- numbers; ranges are hypotheses where they matter, and wrap-around is written out where
-- the source wraps. `Result` has a third case, `panic`, for a Rust index out of range or a checked
-- overflow. A text is the list of its bytes. A `HashMap` is an association list, whose order
-- stands for the unspecified one. The texts of errors are dropped. Locks are held for the whole of a modelled
-- operation, so an operation is one function.
--
-- Fuel. `enumerate_from` has 2 ^ 30 rounds, more than the hours up to the year 65535;
-- out of fuel it counts as a panic. A binary search has a round for each index. The iterator of ancestors has four rounds and at most three
-- periods.
--
-- The store. An LMDB database is the map of its entries, with the bytes of Codec; a transaction that
-- ends in an error leaves the catalog as it was and the files as they are by then. A part file holds
-- the bitmap that was serialized into it, its size is the serialized size, and `writable` of the
-- settings says for which paths a write succeeds. A compaction reads and commits in one step.
--
-- The inverted index. FxHasher, the hashes of the Bloom filter, its float parameters and the unstable
-- sort are fields of `Hashing`, an argument of the store's settings. Its laws: a filter has at least a
-- bit, and the sort orders the rows by hash and permutes them. Inverted.Instance has one for examples.
-- The `u32` counts and offsets wrap around. The `uuid` crate is an argument of the UUID operations.
--
-- Not modelled: errors of LMDB, of memory maps and of locks; the float arithmetic that sizes a Bloom
-- filter; the export in the portable format; metrics, the clock's default, and file I/O below the
-- level of whole files.
pub mod Prelude
pub mod Types
pub mod Error
pub mod Period
pub mod Range
pub mod Codec
pub mod Roaring
pub mod MemPart
pub mod Rollup
pub mod Merge
pub mod Read
pub mod Dict
pub mod Dictionary
pub mod Bloom
pub mod Catalog
pub mod PartStore
pub mod Inverted
pub mod Store
pub mod Builder
