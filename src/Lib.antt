-- ===== src/Lib.antt =====
-- A model of the debugger library of this repository (src/*.cpp, include/libkdebugger/*.hpp).
--
-- A `process` is traced through the kernel. It holds collections of stop points: software sites, which
-- put an int3 byte over a byte of the program, and hardware sites and watchpoints, which take one of
-- the four debug registers. It reads and writes the tracee's memory, and hides its own int3 bytes when
-- it shows code. The debug information is read by a `cursor` over the mapped file.
--
-- Files:
--   Common            names, lists, tests, words, bits; `Outcome` stands for what error.hpp throws, for
--                     standard exceptions and for behaviour that C++ leaves undefined
--   Stoppoints        include/libkdebugger/stoppoint_collection.hpp
--   Process/Tracee    ptrace and process_vm_readv, which are the kernel's: a parameter with the laws
--                     of a call that succeeds; every call may fail
--   Process/State     the members of process, breakpoint_site and watchpoint
--   Process/Hardware  the hardware stop points of src/process.cpp, with what registers::write does to
--                     a debug register
--   Process/Site      src/breakpoint_site.cpp, and creation and removal of sites
--   Process/Watch     src/watchpoint.cpp and create_watchpoint of src/process.cpp
--   Process/Memory    read_memory, read_memory_without_traps and write_memory of src/process.cpp
--   Process/Stop      stop_reason and augment_stop_reason of src/process.cpp
--   Process/Threads   the threads of class process, with the kernel's calls, the record Kernel
--   Process/Life      attaching, the threads there are, get_auxv and the destructor of src/process.cpp
--   Process/Control   their control in src/process.cpp: resume, step over a breakpoint, stop, clean up;
--                     Control/Signals has handle_signal, with the breakpoints' and the target's
--                     callbacks in the record Listeners
--   Dwarf/Cursor      the class cursor of src/dwarf.cpp and include/libkdebugger/dwarf.hpp
--   Dwarf/Form        skip_form of src/dwarf.cpp
--   Dwarf/LineTable   the line-number program of src/dwarf.cpp: `execute_instruction`, the iterator
--                     and `get_entry_by_address`
--   Dwarf/LineTable/Header, ByLine
--                     parse_line_table and get_entries_by_line of src/dwarf.cpp
--   Dwarf/Abbrev      parse_abbrev_table and get_abbrev_table of src/dwarf.cpp
--   Dwarf/Units       parse_compile_units of src/dwarf.cpp and the constructor of compile_unit
--   Dwarf/Die         the entries of src/dwarf.cpp; Die/Values the attribute readers,
--                     Die/Children the iterator over children, Die/Ranges range lists and pc ranges,
--                     Die/Index the function index, Die/Location source lines and inline stacks
--   Dwarf/Frame       call frame information of src/dwarf.cpp: its pointers and entries; Frame/Header
--                     the search table, Frame/Rules the instructions, Frame/Unwind the unwind rules
--   Dwarf/Expression  the stack machine of dwarf_expression in src/dwarf.cpp
--   Elf/Addresses     the operators of file_addr in include/libkdebugger/types.hpp
--   Elf               src/types.cpp and the section lookups of src/elf.cpp; Elf/Symbols the symbol maps
--                     and their lookups, on the tables that were read
--   Registers         src/registers.cpp and include/libkdebugger/register_info.hpp; Registers/File is what
--                     the unwinder works on, Registers/Fetch read_all_registers of src/process.cpp
--   Target            what src/target.cpp and src/stack.cpp ask of the loaded files; Target/Stack the
--                     frames of src/stack.cpp, Target/Breakpoint src/breakpoint.cpp, Target/Places the
--                     addresses it stops at, Target/Run the state of class target and
--                     run_until_address, Target/Step the steps over source lines, Target/Rendezvous
--                     and Target/Libraries the dynamic linker's list, Target/Begin launch and attach of
--                     src/target.cpp
--
-- Loops over lists are structural. The loop of `read_memory` takes a byte at least in each round, and
-- the loop of `write_memory` eight, so the number of bytes bounds the rounds of both; a read of a
-- LEB128 number is structural on the bytes that are left. An instruction of the line program has a byte
-- at least, which bounds the loop of `operator ++` and the lookup.
--
-- A 64-bit word keeps its wrap in the LEB128 readers and the masks; the addresses of memory transfers
-- are exact, since no mapped page ends at 2^64. Where the source does not compile as it stands (a
-- missing call's parentheses, a name that is not declared), the model has what the line is there for.
--
-- The loops over abbreviations, units, entries and rules count rounds with fuel: a round takes a byte
-- at least, except over a compile unit of no bytes, on which the source does not end either. References
-- between entries may be circular, and then neither the source nor the model gives a name.
--
-- The steps over lines and the unwinding of a stack go on as long as the program makes them, so their
-- fuel is a bound that the caller gives. Caches of parsed entries are built anew from the same file.
--
-- Not modelled: how src/elf.cpp maps a file and copies its tables, launch of src/process.cpp, which
-- forks, wait_on_signal there, whose blocks do not match (a parameter of the target), the command line
-- in tools, and the calls of Zydis. The numbers of detail/dwarf.h and `compile_unit::root`, which the repository
-- does not have, are parameters.
pub mod Common
pub mod Dwarf
pub mod Elf
pub mod Process
pub mod Registers
pub mod Stoppoints
pub mod Target
