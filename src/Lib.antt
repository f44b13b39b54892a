-- ===== src/Lib.antt =====
-- A model of the core of kopia, a backup program in Go, with proofs.
--
-- Bytes and runes are natural numbers, a byte slice or a string that is walked is a list of them. An
-- object that a method changes comes back beside the result. Errors are values of a component's own
-- type; a Go error that is only wrapped keeps its cause. An int is a natural number where the code
-- keeps it nonnegative; a difference stops at 0 only where the code tests for that or where the
-- invariant of the component excludes it.
--
-- Parts:
--   Prelude     shared names, tests on numbers, lists, results.
--   Splitter    repo/splitter: the interface Splitter (Splitter.antt) and its promises (IsSplitter);
--               splitter_fixed.go (Fixed), splitter_buzhash32.go and splitter_rabinkarp64.go
--               (Rolling, over a parameter for the hash of the package rollinghash), the table of
--               factories of splitter.go, each with its splitter (Factories). Rolling/Scan is a reference that reads every
--               byte, Rolling/Refinement compares the code with it.
--   Index       repo/content/index: content IDs and their ranges (id.go, id_range.go,
--               content_id_to_bytes.go), with encoding/hex in ContentId/Hex.
--               Info is info.go; Encoding is index_encode_util.go and encoding/binary; Search is
--               sort.Search. V1 writes the files of index_v1.go, V1/Reader opens them (Open of
--               index.go) and looks contents up, V1/Iterating goes through a range. Builder is
--               index_builder.go (Add, the bucket sort, Build, shard), Merged is merged.go, which reads
--               several indexes as one. V1/Layout, Names, File and Positions are about where things
--               stand in a file, V1/Keys about the order of its keys.
--   Object      repo/object: object IDs (objectid.go, indirect.go) in Id; the writer
--               (object_writer.go) in Writer; opening an object and reading it (object_reader.go) in
--               Read, and the search for the chunk of an offset in Seek. The content manager, the
--               compressors and encoding/json are parameters (Contents for writing, IsContents for
--               reading back). The writer uses a splitter through the interface of Splitter.antt.
--               Writer/Streaming and Writer/Calls are about calls of Write; Writer/Stored and
--               Writer/Flushed about the chunks in the store, Writer/Taking about
--               how a call of Write ends; asynchronous writes finish in their order, in Wait, which is one
--               order of many; Writer/Reads, ReadBack, Levels and
--               Returns about the object that Result makes.
--   Epoch       internal/epoch: when an epoch is advanced (epoch_advance.go) in Advance,
--               the longest chain of range checkpoints (epoch_range.go) in Range.
--   Content     repo/content: the content manager (content_manager.go, content_manager_lock_free.go). State is
--               its state and what surrounds it; Action the operations' shape, a result with the state as
--               it is then; Packs starts, writes, retries and flushes packs; Reading and Operations are
--               the operations on contents (write_content is WriteContent, delete_content DeleteContent);
--               Verify the tests of verifyInvariantsLocked. Seen has the promises of the surroundings
--               (Lawful), the invariant of the state (Valid) and what is seen of a content, by which the
--               theorems describe the operations; Maps is about maps of infos, Writing, Finishing,
--               Storing, Flushing and Committing about packs and the index, Looking, Putting, Adding and
--               Live about writes, Dropping and Deleting about deletions, Rewriting about rewrites. Data has
--               the promises of storage (Storage; Readable for reads, which
--               may fail, and may be answered by the content cache), where the bytes of a content are and when they are held
--               (Holds); Data/Preserving composes what preserves them, Data/Packs and Data/Writing are about
--               packs that become blobs, Data/Flushing, Adding, Starting, Live and Storing about what the
--               operations do to the bytes, Data/Reading about GetContent, Data/RoundTrip about all three
--               operations in a row, Data/Rewriting about rewrites. Flush finishes the pending packs in one fixed
--               order, where Go's order of a map is arbitrary. Pending is about the map pendingPacks.
--               Operations run one after the other: no goroutine waits for another. Valid has no failed
--               packs; an operation that ends with an error may leave one.
--   Retry       internal/retry: the retry loop (retry.go), for any attempt, context and sleep.
--   Checks      the theorems at concrete inputs, and runs.
--
-- Fuel: the loop of Write has a round for each byte, and every round takes a byte; checkpointLocked
-- has a round for each level of indirection, and Writer/Levels bounds them: an index has about half as
-- many chunks as what it lists, if the splitter's segments are long enough (IsShrinking), so k + 1
-- rounds are enough for 2 ^ k chunks; starts and lengths of chunks are natural numbers, and the promises on
-- the text of an index are about those below 2 ^ 63. Reading has a round for each level that the ID names.
-- sort.Search between i and j has a round for each index between them.
-- The retry loop has a round for each attempt of its count and one to give up; with a negative count it
-- need not end.
-- The search for the longest chain of ranges has a round for each epoch below a bound of all ranges.
--
-- Not modelled: of the content manager, concurrent operations, DisableIndexFlush and EnableIndexFlush (the
-- counter is a field that Flush reads) and the committed contents with their caches; of the index, version 2, Iterate of merged.go, BuildShards and closing; storage back
-- ends, encryption, the network server, the command line, the user interface, and everything else that
-- PROJECT.json lists so.
pub mod Prelude
pub mod Splitter
pub mod Index
pub mod Object
pub mod Checks
pub mod Epoch
pub mod Retry
pub mod Content
