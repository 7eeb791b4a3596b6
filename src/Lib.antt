-- ===== src/Lib.antt =====
-- A model of the parts of coost (cocoyaxi) that turn data into text and back, of its strings, paths and
-- lists, of its scheduled tasks, and of the channels and the mutex of its coroutines, with the theorems that make them correct.
--
-- The program's parts and the files that model them:
--   * Fast.antt: integers to text (src/fast.cc, src/fast.h.in, include/co/fast.h). `u32toa` and
--     `u64toa` read four digits at once from a table of words; the buffer is the list of its bytes.
--     Fast/Decimal and Fast/Hex have the notations that the text is compared with.
--   * Url.antt: percent-encoding (src/hash/url.cc).
--   * Base64.antt: base64 (src/hash/base64.cc); Base/Bits.antt has the laws of bit operations for it.
--   * Clist.antt: the intrusive list (include/co/clist.h) on a memory of `prev` and `next` fields.
--       Clist/Segments says which sequence of nodes the memory holds; the other children show what
--       each operation does to the sequence. The table of least recent use and the scheduler of the
--       program keep their nodes in such lists.
--   * Json.antt and its children: json (include/co/json.h, src/json.cc, src/json.h.in).
--       Json/Tables: the tables of escapes and digits. Json/Value: the values.
--       Json/Print: `find_escapse`, `_json2str` and `_json2pretty`; the output buffer is the
--       reversed list of its bytes, so that `fs.back()` is its head.
--       Json/Scan and Json/Number: the tokens, from `parse_key` to `parse_number`.
--       Json/Machine: `Parser::parse`, which jumps between labels and keeps a stack `s` of values
--       and keys, a stack `u` of sizes and states, and the variables `size` and `state`; a round
--       of `step` goes from one of four labels to the next. `parse_from` is on top of it.
--       Json/Members: the operations on values, over Json/Array (`xx::Array` of values) and
--       Json/Pairs (the same array as keys and values in turn).
--   * Path.antt: file paths (src/path.cc, include/co/path.h). `clean` works in place; its buffer up to
--     `p` is the list of its bytes, the last one first, and `dotdot` is a length. Path/Words has the
--     elements of a path, which Path/Clean and Path/Normal compare it with; Path/Splits is on `split`.
--   * Str.antt: Str/Split: `split` and `replace` of src/str.cc; Str/Pieces and Str/Searches are on them.
--       Str/Match: `match` of src/fastring.cc; Str/Glob says what a pattern means, Str/Stars why one
--       star to go back to is enough, and Str/Greedy and Str/Wildcards are on its two loops.
--       Str/Number: `to_bool` and the parsers of integers of src/str.cc, with Str/Ranges on them.
--   * Tasked.antt: scheduled tasks (src/tasked.cc): the tasks of `TaskedImpl`, and a round of its loop,
--     which is given the time that the round takes. Tasked/Sweep is on the tasks that a round runs and
--     Tasked/Clock on the seconds that the rounds count.
--   * Chan.antt: channels (include/co/co/chan.h, `pipe_impl` and `pipe_impl_cap` of src/co/co.cc). The
--     part of an operation that is done under the channel's mutex is one function; what is done to
--     those that wait is a list of notices. Chan/Waiters: the wait queue. Chan/Pipe: the ring buffer,
--     counted in blocks. Chan/PipeCap: the list with a capacity. Chan/Runs: the interface of both, and
--     runs of any operations by any coroutines and threads in any order, which both instantiate
--     (Chan/Pipe/Fifo, Chan/PipeCap/Fifo).
--   * Mutex.antt: `mutex_impl` of src/co/co.cc. Mutex/Queue: its queue of blocks of 13 pointers.
--     Mutex/Lock: its operations under the inner mutex. Mutex/Refinement and Mutex/Exclusion are on
--     them, with the states of Mutex/System that any order of locks, unlocks and wake-ups leads to.
--   * Event.antt: `event_impl` of src/co/co.cc. Event/Impl: its operations and timeouts, where a waiter
--     keeps the coroutine it wakes (`co` of `waitx_t`) apart from the one that holds it. Event/Signals
--     is on a signal. Event/Runs: the event with all coroutines and threads that use it, and the states
--     that any order of its operations and timeouts leads to, where no `waitx_t` is used again;
--     Event/Owned and Event/Heard are on them.
-- The printer calls `i64toa` of Fast, and the channels' lists are modelled as lists, which Clist stands
-- for; the parser shares nothing with the printer but the tables.
--
-- Bytes are natural numbers, below 256 where a theorem says so (`IsBytes`). A 64-bit integer or
-- double is its bit pattern, below 2 ^ 64, and arithmetic on it is written with `% 2 ^ 64`. A
-- pointer into the input is the list of the bytes from it to the end.
--
-- Bounds: `run` has one round more than there are bytes behind the opening bracket, which is enough
-- since each round reads one byte at least; `unwind` has one round more than the stack `u` has
-- entries, and each round pops one; `string_loop` has one round more than there are bytes behind
-- the quote, and each round takes two; `escape_onto` has one round more than bytes. `run` and `unwind`
-- say `unfinished` when they have no round left, and `string_loop` says `endless`, which makes the
-- parser `unfinished`. `clean_from`,
-- `split_from` and `replace_from` have as many rounds as bytes, and each takes one at least;
-- `match_from` has one for each pair of positions in the text and the pattern, ends included, since no
-- pair comes twice, and gives none if it has no round left.
--
-- Parameters: the C library's `strtod` and the vendored float printer are the fields of `FloatText`, of
-- which nothing is assumed, and the round trip is stated for values with no double; `strtoll` is
-- assumed to give a value of 64 bits and no error, ERANGE, or EINVAL with no bytes used; `memmem` (src/two_way.h, after glibc) is assumed
-- to find the first place of a text, or none.
--
-- Not modelled: the json allocator, reference and memory management; the coroutine scheduler with
-- its context switches and timers, wait groups, events of threads alone and pools; sockets, hooks,
-- logging, files and other system calls; the string, flag and hash functions other than those above.
-- Of the channels, the mutex and the event, the copying of objects, the memory of those that wait and
-- reference counts.

pub mod Base
pub mod Base64
pub mod Chan
pub mod Clist
pub mod Event
pub mod Fast
pub mod Json
pub mod Mutex
pub mod Path
pub mod Str
pub mod Tasked
pub mod Url
