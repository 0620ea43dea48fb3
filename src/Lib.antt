-- ===== src/Lib.antt =====
-- LuaVela is an implementation of Lua 5.1: an interpreter and a tracing compiler for x86-64, a
-- garbage collector, the Lua libraries, and profilers. This library models those parts of its C
-- code that stand below the interpreter: the encodings and buffers that the others write to, the
-- table that makes strings unique and the strings over it, the tables of Lua, the pattern matcher
-- of the string library, and the timer of the profilers.
--
-- The parts, their files, and the sources:
--
-- Leb128 models src/utils/leb128.c: writing and reading of unsigned and signed LEB128 numbers.
--   A uint64_t is a number below 2 ^ 64, an int64_t its bit pattern; shifts and sums wrap by
--   `% 2 ^ 64`. The writers recurse on the value, which gets smaller. The readers recurse on the
--   octets that are left; their outcome tells apart a value, a refusal by the guard, a read past
--   the end of the buffer, and a shift that C leaves undefined.
--   Leb128/Unsigned and Leb128/Signed hold the proofs.
-- UjpWrite models src/profile/ujp_write.c, the buffered writer of the profiler's event stream.
--   The write system call is a `Kernel`, which may write less than it is asked to, or fail. The
--   loop of a flush recurses on the bytes that are left; the kernel's contract, at least one byte
--   of a write that does not fail, makes it end. The profiler's streams use Leb128 through
--   ujp_write_u64.
-- Strhash models src/uj_strhash.c: the tables of interned strings, with chains as lists, and the
--   move of sealed strings from one table to the other. The masks are those of lj_def.h. The
--   chains of a table are walked by recursion on lists, in the order of the source. The hash
--   function of texts is a parameter.
-- Cstr models the printing of 32-bit integers and the search for a text of src/uj_cstr.c. The
--   search's loop has a turn for each start at which the needle fits.
-- Chars models src/utils/lj_char.c and lj_char.h, the table of character classes.
-- Match models the pattern matcher of src/lib/string.c, for string.find, string.match,
--   string.gmatch and string.gsub. Match/Single: a set or a character against one character.
--   Match/Engine: `match`, whose gotos and calls of itself all take a shorter pattern, so that one
--   unit of fuel for each character of the pattern and one more is enough. Match/Find: the search
--   from each offset, and the results; it stands on Chars, on Cstr for fixed strings, and on Str for
--   the choice between the two. LJ_52 is off. Match/Gmatch: the iterator of string.gmatch.
--   Match/Gsub: string.gsub, whose loop needs one unit of fuel for each character of the subject
--   and one more; what a function or a table gives for a match is a parameter. Match/Bounds holds
--   the invariant of the matcher and its proofs, Match/Search, Match/Literal and Match/Fixed those
--   of string.find, Match/Turns and Match/Replace those of string.gsub.
-- Str models src/uj_str.c: strings that are unique for their text, over the tables of Strhash, and
--   their comparison, trimming and case. Objects are told apart by a number, which stands for the
--   address. Str/Intern and Str/Pointers hold the invariant of the state and its proofs, Str/Alive
--   what the marks of the collector say, Str/Compare the comparison by words with Str/Words and
--   Str/Dictionary for its proof, Str/Edges trimming and case.
-- Sbuf models src/uj_sbuf.c: the string buffer that grows by doubling. It prints by Cstr and
--   Leb128. Its loop doubles 32 times at most, which is enough from 32 bytes to any size that is
--   not refused. What realloc leaves in new memory is a parameter.
-- Upval models src/uj_upval.c and lj_gc_closeuv of src/lj_gc.c: the sorted list of a thread's
--   open upvalues, which closures share, and their closing when the stack shrinks. The values and
--   the stack are parameters; the collector's barrier is recorded.
-- Tab models src/lj_tab.c and lj_tab.h: tables, with an array part and a hash part whose chains
--   follow Brent's variation. Tab/Wellformed says which chains are right, Tab/Place, Tab/Link and
--   Tab/Move with Tab/Moved are the three ways to insert a key, Tab/Newkey joins them, Tab/Access
--   holds the getters and setters, and Tab/Assign reads a table as a map. Tab/Length and
--   Tab/Boundary are the search for a table's length, Tab/Traverse is the loop over a table by
--   index, Tab/Next with Tab/Pairs the one that goes on from each key, Tab/Count the bins of
--   integer keys and Tab/Best the choice of the array part's size, with the 28 bins of the source.
--   Tab/Create clears memory with arbitrary contents by the loops of the source. A pointer to a node
--   is its index. A search on a chain gets hmask + 2 steps, more than the nodes of the table.
--   Indices of cells are uint32_t in the source, and stay below 2 ^ 32 within the limits of sizes.
--   The arithmetic of doubles and the hashes of strings are parameters. Where a setter wants a
--   rehash, the model says so and ends.
-- Timer models src/uj_sigtimer.c, Timerint src/uj_timerint.c: a timer whose signal counts ticks,
--   with its flags, over an `Os` of the system calls that they make.
-- Opt models src/cli/opt.c, the options of the command line.
-- Crc models src/utils/uj_crc.c, the CRC-32 of a text by a table, with an index that wraps at
--   2 ^ 32 and fuel for the length of the text; Crc/Table and Crc/Division hold its proofs.
-- Base holds what the others share: comparisons, lists, bits as arithmetic, recursion on a
--   measure. Tests runs the definitions at concrete arguments.
--
-- Functions of the source keep their names. Helpers stand for loops, for the code under a label,
-- and for the rest of a function after a call. State is passed explicitly, memory is a list of
-- bytes, an error that the source throws is the absence of a result, or a value of its own in the
-- pattern matcher and in tables, and status codes are data types. Addresses are not modelled; a
-- linked list is the list of its elements.
--
-- Not modelled: freeing of memory and its exhaustion; doubles and their text, which stand on
-- printf; threads, since a state of the interpreter belongs to one; everything that stands on the
-- assembler sources of the interpreter (frames, unwinding, the trace compiler); the foreign
-- function interface. The rest of the collector and bytecode dumps have no model yet.
pub mod Base
pub mod Chars
pub mod Crc
pub mod Cstr
pub mod Leb128
pub mod Match
pub mod Opt
pub mod Sbuf
pub mod Str
pub mod Strhash
pub mod Tab
pub mod Tests
pub mod Timer
pub mod Timerint
pub mod UjpWrite
pub mod Upval
