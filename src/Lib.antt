-- ===== src/Lib.antt =====
-- A model of MiniSQL, a SQL server in C, and of what makes its parts correct.
--
-- A client's request reaches `src/server.c`, whose worker pool `src/threadpool.c` runs it in
-- `src/router.c`. The router answers dictionary lookups from `src/dict_cache.c` and hands SQL to
-- `src/engine.c`, which parses it (`src/parser.c`), takes the locks of `src/engine_lock.c` and runs
-- it over `src/storage.c`, with the index of `src/bptree.c` on the `id` column.
--
-- The files:
--
-- Prelude: Boolean tests, lists, C `int`s as integers and C strings as lists of bytes.
--
-- BpTree: `src/bptree.c`. A node's `keys` and `row_indices`, or `keys` and `children`, are one list
-- of pairs. A leaf carries an address, and `next` is the address of another leaf. `bptree_create`,
-- `bptree_insert`, `bptree_search` and `bptree_range` are `create`, `insert`, `search` and `range`
-- of BpTree/Node. The walk of `range` over the chain of leaves runs on fuel, the number of leaves:
-- the chain passes no leaf twice.
--
-- ThreadPool: `src/threadpool.c`. Each section that runs under the mutex is one function of
-- ThreadPool/Pool. ThreadPool/World has them as the steps of clients, workers and the monitor, in
-- any order, up to the flags of the shutdowns: the joins before the pool is freed and the timed wait
-- of the graceful shutdown are not modelled. Whether a thread can be started is the argument
-- `spawns`, by slot, which each step of the monitor and of a resize chooses.
--
-- DictCache: `src/dict_cache.c`. Every operation on the array of entries is a function of
-- DictCache/Slots, on a list of slots. The counters wrap at 64 bits.
--
-- Trie: `src/trie.c`. The 26 children of a node are a list in which a place may be empty.
--
-- Registry: `src/index_registry.c`. A tree is known by its address, and what `bptree_create`
-- returns is an argument.
--
-- EngineLock: `src/engine_lock.c`. A lock that cannot be taken at once is the result `none`; whether
-- a lock can be initialised is an argument.
--
-- Executor: of `src/executor.c` the choice of the index and the reading of ids and bounds. It strips
-- quotes as `src/storage.c` does, and that definition stands for both. The dispatch of statements is
-- not modelled.
--
-- Router: the query string of `src/router.c`. An output buffer is its size and the bytes before the
-- NUL, where %00 writes one and ends the value early; the search for a parameter runs on the length
-- of the query, since a pair takes one character at least. The SQL built from the parameters, JSON
-- bodies and the choice of the handler are not modelled.
--
-- Storage: `src/storage.c`. A table's file is the text of its bytes. `Csv` has the rows as they are
-- written and read, `Tables` the loops over the rows of a file and the files that DELETE and UPDATE
-- leave, `Values` the comparison of cells and LIKE, `Where` the conditions on a row and the checks of
-- a statement against the schema, `Order` the exchange sort of ORDER BY, `Insert` the row of an
-- INSERT and the scan for the next id, and `Columns` the columns of a SELECT. The loops over a file
-- run on its length and one as fuel, since a record takes one character at least. `double` and
-- `strtod` are a parameter, of which nothing is assumed. Writing to a file is taken to succeed.
-- INSERT with its cache of the next id, CREATE, aggregates, row sets and the binary format are not
-- modelled; paths, directories, file handles and their caches are input and output.
--
-- JsonOut: the strings and arrays of `src/json_out.c`, printed as texts.
--
-- Parser: `src/parser.c` and the statement of `include/types.h`. The cursor over the tokens is the
-- list of those that follow. The loop of `tokenize` runs on fuel, the length of the text, and the
-- loops of `parse_where` and of the columns of SELECT on the number of tokens left: each round
-- takes one or more. An array that `strncpy` fills is cut at its size less one; in memory that is
-- not zeroed, as that of the conditions is and that of the pairs of SET from the fifth on, a text
-- that is cut or leaves no room for a zero has 256 behind it, which is no byte and stands for
-- whatever the memory holds. A `char` is a byte of the C locale. `atoi` is the number written, which
-- is what C gives where an `int` holds it.
--
-- Allocation is taken to succeed. Keys and rows of the index are integers without overflow, since
-- the code only compares and copies them. Not modelled: printing, the release of memory, sockets,
-- access to files, the HTTP layer, and the parts of the code that no file above is about.


pub mod Prelude
pub mod BpTree
pub mod ThreadPool
pub mod DictCache
pub mod Trie
pub mod Registry
pub mod EngineLock
pub mod Parser
pub mod Storage
pub mod Executor
pub mod Router
pub mod JsonOut
