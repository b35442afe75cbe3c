-- ===== src/Lib.antt =====
-- A verification development for the copying garbage collector of this repository, the C code under
-- src (the folder of that name in the repository's root), and for the demo programs under
-- demo/inlupp2, which keep their data in a collected heap: a linked list, a hash table and a store.
--
-- The program. A client makes a heap (`h_init`), allocates structures by a format string such as
-- "2i*" or raw data by a number of bytes, and collects (`h_gc`). An object stands between a header
-- word and a footer word. The header of a structure is a bit vector with the object's size and a
-- layout that tells pointers from data. The stack is scanned for words that point into the heap,
-- which the allocation map decides; the footer leads from an inner pointer to the header.
--
-- The modules, and the code that each is about:
--   Base, Bits, Word, Memory: shared names and list facts; the bits of a number; the operators of
--     `uint64_t`; bytes of memory and 64-bit reads and writes (little-endian), with those of 32 bits
--     in the child Sized. No code of their own.
--   BitManip: src/header/bit_manip.c, one function for each of its functions. Children: Select (bits
--     that are chosen, set, read and masked), Reverse (`reverse_bits`), Text (bits as text),
--     Arithmetic (masks and shifts as numbers).
--   Utils: src/utils.c, `trim_whitespace` and `remove_all_spaces`. Child: Trim.
--   FormatStr: src/header/format_str.c, both passes of `interpreted_format_str`, the length and the
--     expansion, and the bytes of a format string. Children: Items, Grammar and Fields.
--   BitVector: src/header/bit_vector.c, `option_t` of src/common.h included. Children: Layout (the
--     layout bits), Encode (the fields of the header word), RoundTrip (reading a header back).
--   Footer, RawLayout, Header: src/header/footer.c, raw_layout.c and header.c, with the header types
--     of src/common.h. Their laws are in the children named Laws.
--   Heap: the struct of src/gc.h and `h_init`, `h_used`, `h_avail` of src/gc.c. Children:
--     Shape (the heaps of the right shape: contiguous spaces, a map of two words for each space, a
--     passive last space, a front inside the heap), Init, and Blocks (`h_delete`, and the blocks of memory
--     that `h_init` takes and its pointers keep) with Delete.
--   AllocMap: `set_alloc_map` and the marking loops of src/gc.c, `validate_ptr` of
--     src/traverse_stack.c. Children: Laws and Validate.
--   Alloc: `h_alloc_struct` and `h_alloc_raw` of src/gc.c, over the heap and the memory. The one long
--     function of the code is cut at its tests: `alloc_expanded` is the checks, `select_space` the
--     walk over the spaces, `still_fits` the check after it, `place_struct` what is written. Children:
--     Select, Write, Place, Struct (the call as a whole), Room (the pointer that it gives), ReadBack
--     (the header of the object), Raw, and Fresh (an allocation right behind the front, and the room
--     that it leaves).
--   Stack: src/traverse_stack.c and `h_delete_dbg` of src/gc.c. Children: Footers and Scan.
--   Collect: `garbage_collection`, `h_gc` and `h_gc_dbg` of src/gc.c. Children: Reset, Move, Forward.
--   Demo: the commands that the demo programs are made of: reads and writes of fields, and
--     allocations, over the collector's state. A structure is its bytes, a field its offset. Children:
--     Fields (what a command does to a pointer that is not NULL);
--     LinkedList and Iterator: demo/inlupp2/linked_list.c. Below LinkedList, Shape says when the bytes
--       of the memory are a list, Grow, NewLink, Stored, Append and Prepend are about new links, Erase,
--       Unlink, Splice and Remove about removed ones, Read and Search about the values, Create about
--       `create` and `clear`, Traverse about iterators, and Refine about the list as a sequence;
--     HashTable: demo/inlupp2/hash_table-dynamic.c, with its functions that remove in Delete and those
--       that go through all entries in Visit. Its other children are about a bucket's chain (Chain,
--       Bucket), `lookup`, `insert` (Insert, InsertNew) and the next capacity (Bounds);
--     Common: demo/inlupp2/common.c, with the range of its hash functions in Hash;
--     Store: demo/inlupp2/stor_functions.c, the carts in the child Carts; Laws and Stock are about both.
--   Tests: the theorems at concrete inputs.
--
-- How the code is read. Addresses and words are natural numbers; a word wraps at 2 ^ 64 where the
-- code's arithmetic can. A shift by 64 or more, which C leaves undefined, is excluded by hypotheses.
-- A text is a list of bytes without its terminator. An access out of bounds is a value of its own: `none`
-- of `Run`, or `fault` of `FormatStr.Outcome`. A pointer result is an option, with `none` for NULL.
-- `malloc` and `calloc` do not fail, except that the buffer of a format string is refused from 2 ^ 63
-- bytes on; the address of the heap's memory and the bounds of the stack are arguments. Each loop
-- counts the rounds that are left; the walk over the spaces has as many rounds as there are spaces, and the decoding of a layout has 54, the bits of a layout. In the demo
-- programs, a chain of a hash table and a string have 2 ^ 64 rounds, more than the address space has
-- bytes, and the loop of `decrease_stock`, which need not end, has its fuel as an argument. A function
-- pointer is a word; what the function at a word does is a parameter, as is the arithmetic of `float`.
-- An `int` is the 32 bits that hold it, and wraps, where C leaves the overflow undefined.
-- Hypotheses keep new heaps to 2 ^ 31 bytes, and repeat counts and the names of shelves below
-- 2 ^ 31. The `int` index of a space is taken as it is: it can only wrap from 2 ^ 31 spaces on, more
-- than `h_init` can make.
--
-- What the code leaves open. `garbage_collection` in src/gc.c holds two versions of itself run into one
-- another, and does not parse behind its second branch: the version that is whole is modelled. Both sides
-- of the unresolved merge in src/traverse_stack.c are the same code.
--
-- Not modelled: the prints and assertion messages; `setjmp`, which spills the registers to the stack;
-- of the demo programs, the terminal input and output (demo/inlupp2/store.c, utils.c, and the functions
-- of stor_functions.c that only print, ask or sort with `qsort`) and `compare_float`; the tests and the
-- make rules.
pub mod Base
pub mod Bits
pub mod Word
pub mod Utils
pub mod BitManip
pub mod FormatStr
pub mod BitVector
pub mod Footer
pub mod RawLayout
pub mod Header
pub mod Memory
pub mod Heap
pub mod AllocMap
pub mod Alloc
pub mod Stack
pub mod Collect
pub mod Demo
mod Tests
