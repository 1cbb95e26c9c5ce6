-- ===== src/Lib.antt =====
-- A verification library of libunwind, the library that finds the callers of a function from the
-- unwind information of a program.
--
-- The parts modelled are the DWARF unwinder and the unwinder for ARM's exception tables. To step from a
-- function to its caller, a table is searched for the function, its entry gives the unwind information,
-- and running that gives the caller's frame. The DWARF unwinder reads the target's memory through the callback `access_mem` of an address space; on top of that it reads numbers and
-- pointers in the encodings of DWARF; an evaluator runs location expressions, and an interpreter runs
-- call-frame instructions, which say for each point of a function where the caller's registers are.
--
-- Prelude                 numbers, bits, lists and Boolean tests that the other modules share
-- Result                  error codes (include/libunwind-common.h.in), and the ends of a run that C
--                         gives no value: abort, undefined behaviour, an index out of bounds, and
--                         the end of the fuel
-- Dwarf/Types             unw_proc_info_t and struct dwarf_cie_info
-- Dwarf/Read              include/dwarf_i.h, dwarf_readu8 to dwarf_readw, as built for remote unwinding
-- Dwarf/Leb128            include/dwarf_i.h, dwarf_read_uleb128 and dwarf_read_sleb128
-- Dwarf/Pointer           include/dwarf_i.h, dwarf_read_encoded_pointer
-- Dwarf/Expr              src/dwarf/Gexpr.c: Operand (the table `operands`, read_operand), Stack (push,
--                         pop, pick), Alu (the arithmetic of the opcodes), Opcode and Machine (one
--                         function per group of opcodes), Eval (the switch, the loop and
--                         dwarf_eval_expr); Runs, Compile, Rounds, Correct, Order, Sized and
--                         Looping are about them
-- Dwarf/Cfi               src/dwarf/Gparser.c: State (dwarf_reg_state_t, the stack of remembered states
--                         and their pool), Opcode, Step (one function per group of instructions), Run
--                         (run_cfi_program, setup_fde, parse_fde, create_state_record_for); Invariant,
--                         Preserve, Pool, Forward, Onward, Ending, Rounds, Table,
--                         Columns, Simulate (with Simulate/Rows) and Interpret are about them
-- Dwarf/Fde               src/dwarf/Gfde.c: parse_cie and dwarf_extract_proc_info_from_fde, which fill in
--                         unw_proc_info_t and struct dwarf_cie_info; Augmentation, Cie and Extract are
--                         about them
-- Dwarf/Search            src/dwarf/Gfind_proc_info_i.h and Gfind_proc_info-lsb.c: lookup, remote_lookup
--                         and dwarf_search_unwind_table; Bisect, Lookup, Remote and Find are about them
-- Dwarf/Frame             src/dwarf/Gparser.c: eval_location_expr and apply_reg_state, with the locations
--                         of include/tdep-x86_64; Rules, Applied, Plain and Mapped are about them
-- Dwarf/Cache             src/dwarf/Gparser.c: hash, cache_match, rs_lookup and rs_new; Entered, Renewed,
--                         Chains, Removed, Kept, Ends, Entries and Looping are about them
-- Dwarf/Find              src/dwarf/Gparser.c: dwarf_flush_rs_cache, get_rs_cache and find_reg_state;
--                         Faithful, Flushed and Parsed are about them
-- Dwarf/Lands             where the readers leave the address
-- Arm                     include/tdep-arm: locations and the cursor, and prel31_to_addr
-- Arm/Apply, Arm/Decode   src/arm/Gex_tables.c: arm_exidx_apply_cmd and arm_exidx_decode;
--                         Decode/Instruction (with Commands, Masks and Run) is the ABI's table of
--                         instructions but for 0xc0 to 0xc8, with numbers of at most four bytes
--                         behind 0xb2; Decode/Truncated is about an instruction cut off
-- Arm/Extract             arm_exidx_extract; Stored and Bounds are about it
-- Arm/Search              arm_search_unwind_table; Loop, Handler and Function are about it
-- Arm/Step                src/arm/Gstep.c: arm_exidx_step; Unwinds is about it
-- Dyn                     src/mi/dyn-register.c, dyn-cancel.c, Gfind_dynamic_proc_info.c and
--                         Gdyn-extract.c: the list of procedures registered at run time; Linked,
--                         Unlinked and Runs are about it
-- Dyn/Remote              src/mi/Gdyn-remote.c and include/remote.h: reading what another process has
--                         registered; Interned is about it
-- Dyn/Remote/Search       src/mi/Gdyn-remote.c: the search of that list; Found is about it
-- Pool                    src/mi/mempool.c: pools of objects; Objects and Kept are about them
-- Elf                     src/elfxx.h, elfxx_i.h and elfxx.c: the tables of an ELF image
-- Elf/Symbols             src/elfxx.c: the search of the symbols in an image's sections and in its
--                         dynamic section
-- Elf/Range               src/elfxx.c: the range of the function that contains an address; Covering and
--                         Missed are about it
-- Tests                   a small memory, and each result at a concrete input
--
-- A function that takes a pointer to an address and advances it is a function from the address to the
-- value and the next address. Words are numbers below 2^64 with their wrap-around written out. A
-- negative return value is `err`. The address space, with `access_mem`, its byte orders and its width,
-- the target's numbers of columns and registers, and `unw_get_reg` are parameters.
--
-- The loops over LEB128 bytes have eleven rounds: the eleventh would shift by 70 bits, which C leaves
-- undefined and the model answers by `undefined`. The loops of dwarf_eval_expr and run_cfi_program
-- run on fuel, as the code bounds neither: a jump or the length of a block may lead back.
--
-- The error path of run_cfi_program keeps the state from before the instruction that fails: what that
-- instruction wrote is dropped by the callers with the whole record.
--
-- The search of a DWARF table has 64 rounds, as it halves a range of fewer than 2^64 entries, and that of
-- an ARM section 32. The decoder of ARM instructions has a round for each byte. An expression inside a
-- register state gets the rounds that the model of the frame is given.
--
-- An ARM word has 32 bits, and a failed read through the callbacks of an ARM space is `none`. Whether
-- `mempool_alloc` gives an object to the DWARF functions is a parameter of those.
--
-- A lookup in the cache of register states follows a chain on fuel, as the code does not bound it; one
-- round more than the table has entries is enough where every chain ends. The hints of the cache's
-- entries stand in a list of their own. What happens to the cache while find_reg_state has released its
-- lock is a function that is passed in, and so is what parsing at an address gives. The caching policies
-- none and global are modelled, the cache of each thread is not.
--
-- The structures that a program registers are a function from their addresses, and the search has a
-- round for each. The search of another process reads one memory in each of its rounds, and the next
-- one for the check of the generation. Its copies of regions and tables are values: giving them back is
-- not modelled. What `tdep_search_unwind_table` answers is passed in.
--
-- An ELF image is the view of its structures at each offset, with what the constants of <elf.h> tell
-- apart; a read behind the image and an overflow of an int are `undefined`. The loops over symbols,
-- dynamic entries and hash chains have fuel, and one round more than the bytes of a symbol table is
-- enough for it.
--
-- A pool's free list runs through the words `next` of the free objects. What the system answers to
-- GET_MEMORY is passed in. A pool's clients are taken not to write to an object they have given back.
--
-- Not modelled are the locks and dwarf_step, the loading of .debug_frame sections and the walk over
-- loaded objects, the names of ELF symbols and the files that hold them, the IA-64 unwinder, the
-- targets' register tables, and the access to processes, files and signals. The local build's
-- reads, which dereference a pointer, have no model apart from `access_mem`.
pub mod Prelude
pub mod Result
pub mod Dwarf
pub mod Dyn
pub mod Pool
pub mod Elf
pub mod Arm
pub mod Tests
