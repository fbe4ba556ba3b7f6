-- ===== src/Lib.antt =====
-- A model of loku, a media library server: what it reads from file names and sidecars, the index
-- of its videos, and the work that it does to make every video playable in a browser.
--
-- The parts and their files:
--   Rip       crates/lib/src/disc.rs: parse_rip_name and display_title.
--   Nfo       crates/lib/src/nfo.rs: the document types (Documents), the repair of stray
--             ampersands (Entities), parse_nfo with the candidate paths (Parse), and its answers
--             without XML (Plain).
--   Library   crates/server/src/library.rs: the library roots.
--   Config    crates/server/src/config.rs: resolve_libraries (Libraries), resolve_state_dir and
--             resolve_oidc (Settings, Login, Configured).
--   Index     crates/server/src/index/store.rs and schema.rs: SQL tables as lists of rows with a
--             unique key (Table), the rows and records (Record), the tables and the connection
--             (Database, Reliable), LIKE patterns (Like), and the queries that write (Writes) and read
--             (Reads). A query `q` of `impl Index` is a closure on the tables, `q_tx` where it
--             writes, and the method `q` that hands it to `call`.
--             Index::search is in Search.
--   Scan      crates/server/src/index/scan.rs: scan_all, scan_library and reconcile_directory, which
--             is rescan_directory here, and collect_directory with build_record (Records). The
--             proofs take a scan as a sequence of directories (Steps, Refines), find these on the
--             file system (Reads, Loop, Files), and put a library (Whole) and all libraries (Libraries,
--             Complete) together; Finds joins the scanner to the worker.
--   Watch     crates/server/src/index/watch.rs: the directories that an event makes dirty
--             (Events), the debounce (Gather), the pruning of nested ones (Order, Sorted, Prune),
--             and flush (Flush).
--   Media     crates/server/src/media: the planner of compat.rs (Compat), with the names of streams
--             that browsers play (Playable), the native hints of codecs.rs (Codecs), the reports and
--             arguments of ffmpeg.rs (Ffmpeg), the pass of probe.rs (Probe), the worker of worker.rs
--             (Worker), with what a job makes of ffmpeg's answers (Answers, Answered), and the
--             sidecars of sidecars.rs (Sidecars).
--   Routes    crates/server/src/routes: the item of a video and its status of types.rs, the listing
--             of browse.rs (Listing), the handlers (Handlers, Search) over the state of
--             crates/server/src/web_base.rs, and what listings show (Groups, Shown, MainTitle, Pick,
--             Inside, Slash, Found).
--   Base      Rust's strings, paths, integers and iterators as far as the program calls them.
--   Tests     the theorems at concrete inputs, and the inputs.
--
-- How they interact: a scan writes records into the videos table under a generation and sweeps
-- what it has not seen; the probe pass fills codec facts from the probe cache or ffprobe; the
-- worker asks the planner what each video with facts needs, drives ffmpeg, and notes the new files
-- or the failure, which keeps the video from being taken again. The hints tell the player which
-- native files to try. The watcher gathers the directories that events make dirty, and reconciles
-- or removes them as the scanner does; the handlers read the index, and one of them stores the
-- operator's pick of a disc set's main title.
--
-- The conventions: text is the list of its Unicode scalar values; an i64 size or time that is
-- never negative is a natural number; the generation is an integer that wraps as i64 does; an f64
-- is carried as its bits. State is passed explicitly: the tables in Database, the connection with
-- its failing queries in Index, the worker's view in World. A statement of SQLite is an operation
-- on a list of rows; a transaction is one function. The only fuel is that of `process_all`, the
-- worker's loop, where one round more than there are rows is enough, and of the digits of a
-- number, where the number itself bounds them.
--
-- Parameters stand for what is not in this repository: SQLite's LIKE (the record Like, with its
-- documented rules) and FTS5 (the record Fts, which leaves the order of equal ranks open),
-- quick_xml (the record Xml), serde_json (the record Json), ffmpeg, ffprobe, the answers of the
-- file system to the worker and the clock (the record Runner and the answers of Probe), the file system as the scanner and the handlers see it (the
-- record Disk, which stands still during a scan or a request), Unicode's lower case, and the
-- arithmetic and the parser of f64. What the theorems on scans ask of a file system is that the walk
-- reaches each directory once and that names have no slash.
--
-- Not modelled: the event loop of the watcher and the registration of watches; the merging of the
-- other fields of the configuration, which another package's macro generates; the shadow table of
-- the full-text index and the version check of the schema; spawning processes and their timeouts; the
-- texts of error responses; routing, static files and health checks; a panic of a blocking task; the
-- logging, which changes no state; the browser client.
pub mod Base
pub mod Rip
pub mod Nfo
pub mod Library
pub mod Index
pub mod Media
pub mod Config
pub mod Routes
pub mod Scan
pub mod Watch
pub mod Tests
