-- ===== src/Lib.antt =====
-- Verification of the emulator 816CE: its 65816 core, its UART, its containers and its symbols.
--
-- The program. The core is a C library of three files. `src/cpu/65816-util.c` accesses the system
-- memory, the status register, the stack and the operand bytes, and computes the effective address
-- of each addressing mode. `src/cpu/65816-ops.c` has one handler for each mnemonic, which works on
-- the processor, the memory, and the size, the base cycles, the mode and the address it is given.
-- `src/cpu/65816.c` resets the processor and steps it: stepCPU reads the opcode at the program
-- counter, calls the handler that its switch names with the address that the addressing mode
-- computes, and then enters a pending NMI or an unmasked IRQ. `src/hw/16C750.c` is a UART that watches
-- the access flags of its registers in the memory and moves bytes between them and a socket; it is
-- stepped after the processor, and its result becomes the IRQ line. `src/debugger/debugger.c`
-- is the program around them: its event loop gives keys to a line in which commands are typed, steps
-- the processor and the UART, and stops at break points. A disassembler shows the memory, with the
-- symbols of `src/debugger/symbols.c`, which two hash tables of `src/util` hold, by name and by address.
--
-- The model. A C function that reads or writes `*cpu` or `mem[]` is an action on a machine: the
-- record `Machine` of Cpu/State.antt holds the registers, the flags of the bit-field `P` as p_…, and
-- the memory as functions of the address. An assignment converts to the width of its field
-- (Cpu/Set.antt), and unsigned arithmetic keeps its wrap-around written out. The handlers keep their
-- names (i_adc, …), the other functions lose their leading underscore and are spelled in lower case:
-- _stackCPU_pushWord is stack_push_word, _addrCPU_getLong is get_long.
--
--   Base.antt                  names of the libraries, Boolean tests, machine words, bit operations
--   Cpu/State.antt             src/cpu/65816.h: CPU_t, memory_t and the enumerations
--   Cpu/Monad.antt, Set.antt   state passing, and the assignments to the fields
--   Cpu/Memory.antt            src/cpu/65816-util.c: the accessors and their access flags
--   Cpu/Memory/Arrays.antt     src/cpu/65816-util.c: array copies, tests and resets of the flags
--   Cpu/Registers.antt         src/cpu/65816-util.c: status register, SP, PC, operand bytes
--   Cpu/Stack.antt             src/cpu/65816-util.c: _stackCPU_…
--   Cpu/Address.antt           src/cpu/65816-util.c: _addrCPU_…
--   Cpu/Ops.antt               src/cpu/65816-ops.c: the handlers, one file for each group of them
--   Cpu/Instr, Decode, Execute src/cpu/65816.c: the switch of stepCPU, as a table of 256 entries
--   Cpu/Step.antt              src/cpu/65816.c: initCPU, resetCPU and stepCPU
--   Cpu/Text.antt              src/cpu/65816.c: tostrCPU and fromstrCPU
--   Cpu/Valid.antt             the invariant of the processor, and that everything keeps it
--   Cpu/Advance.antt           how far the handlers that take an address move the program counter
--   Hw/CircBuf.antt            src/hw/16C750.c: the circular buffers; Queue.antt is what they stand for
--   Hw/Uart.antt               src/hw/16C750.c: tl16c750_t, reset_16c750, init_16c750
--   Hw/Uart/Step.antt          src/hw/16C750.c: step_16c750, a part of its body at a time
--   Hw/Uart/Receive, Parts, Received
--                              the bytes that wait, through the parts and the whole of the step
--   Hw/Uart/Interrupt.antt     the status registers and the interrupt
--   Hw/Uart/Port.antt          src/hw/16C750.c: init_port_16c750, stop_16c750
--   Util/Stack.antt            src/util/stack.c; Spec.antt is its specification on lists
--   Util/Hashtable.antt        src/util/hashtable.c: the table and its iterator; Calls.antt and Hash.antt
--                              have the functions on a table, and those whose key is a string
--   Util/Hashtable/Chains, Taken, Slots, Iterate, Absorb, Rehash, Load, Refine, Map
--                              from one list over the array, the iterator and a resize to calls
--   Debugger/Symbols.antt      src/debugger/symbols.c: the loader of symbol files and the lookups
--   Debugger/Parse, Load       src/debugger/debugger.c: the values in commands, load_file_mem and
--                              load_file_cpu
--   Debugger/Command.antt      src/debugger/debugger.c: command_execute; Register, Named, Devices and
--                              Store have the commands, and Execute the choice between them
--   Debugger/Entry.antt        src/debugger/debugger.c: command_entry, the line that is typed
--   Debugger/History, Watch    src/debugger/debugger.c: update_cpu_hist, scroll_window
--   Debugger/Keys, Loop        src/debugger/debugger.c: the event loop of main, which steps the
--                              processor and the UART
--   Debugger/Disassembler.antt src/debugger/disassembler.c: the table of opcodes, and the sizes; Agree.antt
--                              and Advance.antt compare them with the processor
--   Tests.antt                 runs on concrete machines, and the theorems at concrete inputs
--
-- The theorems about a component stand in the files below it: Cpu/Stack/RoundTrip.antt is about
-- Cpu/Stack.antt.
--
-- Outside `src`. The socket calls of a UART step are a value of `Socket`, which says what accept, read
-- and send give. `realloc` and the comparisons of a load factor in float are the records `Platform` and
-- `LoadTests`; PlatformOk and LoadOk name what is used of them, and Tests/Containers.antt has exact
-- quotients that satisfy both. The functions of ctype.h are the record Ctype, and CtypeOk names what
-- is used of them. For a path, what stat, fopen and malloc give is a value of `File`, and what a command
-- finds outside of the program is a value of `World`; strtok, strtoul and strcmp are defined in
-- Debugger/Parse.antt and Debugger/Command.antt, for the C locale.
--
-- Bounds. In the processor nothing runs on fuel: the array copies recurse on their count, the handlers do
-- not loop, and a block move repeats by being executed again, which Cpu/Ops/Interrupt/Move.antt counts.
-- In the hash table the iterator runs on the number of slots that are left, a resize on the number of
-- entries, and a put on the depth 2, for the one resize that it may cause; the theorems on calls show
-- that this is enough. The memory is a function of every address, so that a write that the C code makes
-- beyond its array is visible as such. The counters and sizes of the hash table, and the sizes of the
-- stack in bytes, are not bounded: each entry is an object in memory. Nor are the fields of the
-- iterator, which are of type int in the code: from 2 ^ 31 slots on they would overflow there.
--
-- The loader of sections runs on one more than the bytes of the file, and the loop over a line of
-- values on one more than its characters; both are shown to be enough.
--
-- The text of a processor is printed with twenty digits at most for a number, which is enough for 64
-- bits. sprintf and sscanf are modelled in the C locale, as far as tostrCPU and fromstrCPU use them. A
-- buffer that holds a whole file is read as if a NUL stood behind it.
--
-- Not modelled. The functions that only allocate or free memory; the text that the disassembler
-- prints; of `src/debugger/debugger.c` the windows of ncurses, the mouse, the signals, the options of
-- the command line and the file of the command history; and `test`. The null checks under
-- CPU_DEBUG_CHECK_NULL are not compiled by default, and the pointers given to `src/util` are not NULL.
pub mod Base
pub mod Cpu
pub mod Hw
pub mod Util
pub mod Debugger
mod Tests
