-- ===== src/Lib.antt =====
-- Verification library of hpcc, a compiler wrapper that caches results and sends compiles to worker
-- machines.
--
-- A client (cmd/wrap.go, internal/daemon) parses the compiler's command line, computes a cache key
-- over the flags, the compiler and the source, and looks the key up in its stores. On a miss it asks
-- the scheduler for a worker and sends the compile there. The worker may look the result up under a
-- key that it computes itself, and runs the compiler in a container that a pool keeps warm for each
-- tenant and image.
--
-- Files, and the code that they model (paths from the repository's root):
--
--   Prelude     names and lemmas that the components share: Boolean tests, lists over native
--               numbers, byte strings (a Go string is a list of bytes), Go's int32 and other signed
--               integers, Go maps as association lists, and fixed-width integers as bytes.
--   Compiler    internal/compiler: invocation.go, grammar.go, grammar_msvc.go, parser.go,
--               parser_msvc.go, cache_key.go, and the key of invocation.go. Compiler.Gnu.parse_gnu is
--               ParseGNU, Compiler.Msvc.parse_msvc is ParseMSVC, Compiler.Key.cache_key_flags is
--               cacheKeyFlags, and Compiler.Key.cache_key_with_manifest is CacheKeyWithManifest.
--               Compiler.Manifest is of manifest.go, and Compiler.Rewrite is of rewrite.go.
--   Scheduler   internal/scheduler: scheduler.go and state.go. Each RPC handler is a function of its
--               name on the state Scheduler; Scheduler.step is any one call.
--               Authenticate is in Scheduler.Auth, Route in Scheduler.Dispatch, and the calls of a
--               worker and the reaper in Scheduler.Workers.
--   Pool        internal/worker/runtime/pool.go. PooledRuntime is the state under the mutex, and a
--               function is one region under it: Start is start_begin and start_finish around the
--               inner runtime's Start, Close is close_begin and close_finish around its wait.
--               Pool.World adds the wrappers that callers hold and the containers that were stopped;
--               its moves come in any order, which is what concurrent callers may see.
--               Start is in Pool.Starting, the rest of the calls in Pool.Ending.
--   Cache       internal/cache/compile.go: Store is store_result, Lookup is lookup_layers and loadEntry is
--               load_entry, for one tenant and one key; encodeExtras and decodeExtras.
--   Agent       agent/env.go and agent/traceparent.go, of the server that runs in a container's guest.
--   Store       internal/cache/store/disk.go and internal/config/filesize.go: where a blob stands,
--               which entries are evicted, and how a size is read.
--   Worker      internal/worker: cas.go, staging.go, and of worker.go the checks of a token, the
--               directories that a compile needs and the collection of its outputs. Each RPC handler
--               is a function of its name on the source store, which is a parameter with the laws of
--               Put that the handlers rely on (Worker.Sources), and in which Has is a question of its
--               own, since an entry may lack its blob; Worker.Disk fills it by the disk store. A
--               gRPC stream is the sequence of its messages with its end.
--   Dispatch    internal/daemon/dispatch/dispatch.go: casUpload, run against the worker's handlers.
--   Squashfs    squashfs: metadata.go, directory.go, idtable.go, inode.go, superblock.go, and of
--               writer.go the writer of file contents and the link counts. Squashfs.Metadata.write
--               is metaWriter.Write, and Squashfs.Files.file_write is fileWriter.Write. What reads
--               an image is defined beside the proofs, from the format's description.
--
-- How the code is modelled:
--   - A Go map is an association list, and the order of the list stands for the order of `range`,
--     which Go leaves open: a theorem about every list holds for every order.
--   - Times and durations are natural numbers of nanoseconds. The clock, random session tokens, files,
--     the hash, signatures, token parsing, the compiler and the inner runtime are arguments.
--   - Response files nest at most 16 deep in parser.go; the model recurses on the depth that is left,
--     17 with the command line itself, so the bound is the code's own and not one of the model.
--   - The loops over arguments recurse on the list, with a count of arguments that a flag has used up.
--   - strings.Fields, strings.ToLower and strings.TrimSpace are modelled on ASCII, where file names
--     and flags have their white space and their letters.
--   - The score of pickWorker is a float64 in the code. Its value is a sum of an int32 and small
--     constants, which a float64 holds exactly, so the model computes with integers; the start value
--     math.MaxFloat64, above every score, is the absence of a candidate.
--   - Log lines, metrics and traces change no state and are left out.
--
-- Paths are those of a Unix system. Writes to files, to the image and to directories do not fail in the
-- model of the disk, and a store that is read either holds an entry or does not; the worker's handlers
-- are proved for any store, whose Put may fail and leave its directories behind, and whose Has may fail.
--
-- Loops on fuel: the writes of squashfs run on the length of what is written, which is enough since
-- every round takes a byte at least; the readers in the proofs run on the length of what is read.
--
-- Not modelled: the preprocessor's output, the scan of assembly sources and the building of a manifest
-- (preprocess.go, BuildManifest), the rewriting for preprocessed source (rewrite.go), the Compile handler
-- as a whole and the probe of the cache, the sessions and the routing of the dispatcher, the daemon, the S3
-- store, the tree and the final assembly of squashfs images, and the platform code of the
-- runtimes, which are arguments where a modelled part calls them; and generated code (protocol buffers,
-- the Firecracker client), configuration files and the command line of hpcc itself.
pub mod Prelude
pub mod Compiler
pub mod Scheduler
pub mod Pool
pub mod Store
pub mod Cache
pub mod Agent
pub mod Worker
pub mod Dispatch
pub mod Squashfs
