-- ===== src/Lib.antt =====
-- A verification library for Picon, which instruments a program with a pass of LLVM and follows its
-- control flow with a monitor, which ends the program when it leaves its call graph or its control
-- flow graphs.
--
-- The parts of the program, and the files that model them:
--   include/picon/shared.h          the pair of ids in one word (Ids), the signals of the client as
--                                   bytes (Signal);
--   monitor/src/block_stack.c and   the two growing stacks, one text for two types (Stack), and
--   monitor/src/call_stack.c        each as the program uses it (BlockStack, CallStack);
--   monitor/include/monitor_load.h  the tables of the loaded program (Tables);
--   monitor/src/monitor_load.c      the packets and the sections of a module, read into the tables,
--                                   and the relocations between modules (Load);
--   monitor/src/monitor_run.c       the handler of each signal (Run) and the loop (Run/Loop);
--   monitor/src/monitor_load.c,     the session that loads all modules, relocates them and runs their
--   monitor_load                    init functions (Session), and the freeing of the tables
--                                   (Load/Free);
--   monitor/src/main.c              the checks, the pipes, the fork and the process of the monitor
--                                   (Main);
--   include/picon/injected_code.c   the functions that instrumented code calls (Injected);
--   llvm_pass/CFI/CFI.cpp and       the identifiers of functions (Pass), the tables that are written
--   llvm_pass/CFI/CFIInjector.cpp   (Pass/Files, Pass/Postdom), the constructors, destructors and
--                                   annotations of a module (Pass/Patch) and the calls that are put
--                                   into code (Pass/Inject);
--   llvm_pass/CFI/CFIModulePass.cpp the run of the pass on a module (Pass/Compile);
--   monitor/src/monitor_dot.c       the graphs that are printed (Dot).
-- The pass writes tables that prelink/picon-prelink joins; the client sends them to the monitor, and
-- then one signal for each call that the pass has put in.
-- Run/Spec is the specification that the monitor is to enforce: a relation on configurations, which
-- are a state, a current function and block, and a list of callers. Run/Frames and Run/Linked relate
-- it to the pointers and stacks of the code, one file follows for each kind of signal, and
-- Run/Simulation and Run/Whole put them together. Run/Phases is about the states alone. Tests,
-- Load/Tests and Load/SessionTests hold small programs at which the theorems are applied.
--
-- How the code is read. A pointer into a stack counts elements, NULL is 0, and a block of memory is a
-- list at an address: an access outside it is a fault, which is `none` in an expression, `fault` in a
-- handler and `crashed` in a run. Pointers into the tables, which a run does not change, are copies
-- of what they point to; a pointer to an array is an `Option`. The answers of `calloc` and `realloc`
-- are parameters (`Env`, or `alloc` in a loader), and what a pipe or `pselect` does is a list of
-- rounds (`Round`): one packet for each read, of which at most as many bytes as asked for are taken,
-- and `[]` at the end of the file. A run recurs on that list, so it needs no fuel; where the list
-- ends the run is waiting. The loops of a loader recur on the count that their section holds.
--
-- Load/Cursor reads the fields of a message; Load/Functions, Load/Transitions and Load/Blocks are the
-- four loaders. Load/Rows and Load/PutFunctions say what entries and functions come to in the tables,
-- and Load/CallGraph, Load/FlowGraph and Load/FunctionTable compare the loaders with that.
-- Load/Packet is the packets of the loading protocol and Load/Module `monitor_load_module`, over a
-- list of deliveries: the bytes that the three reads of a packet have, and the answers of the
-- allocator. Load/ShortRead and Load/Appends are about it. Load/Relocations is
-- `compute_relocations_of_module`; Load/Search and Load/Resolved say what it finds.
--
-- Load/Rule is a rule for invariants of `monitor_load_module`; Load/Whole, Load/WholeSections and
-- Load/WholeBlocks are the invariant that arrays are as long as counted, and Load/FreeWhole frees
-- such tables. Session recurs on fuel, one unit for each module; one unit more than there are packets
-- is enough (Session/Rule), since a module takes a packet at least. The runs of the clients of a
-- session are lists of rounds each. Main takes what the system answers as a record (`System`).
--
-- Injected/Follows and Injected/Together join a client's calls to the monitor that answers them,
-- one after the other, where no answer is sent in advance. A monitor that is built with
-- NB_PRELOADED_MONITOR_OK_ANSWERS sends some: Injected/World has the two act in any order, over
-- pipes that hold packets and answers, and Injected/Traces and Injected/Ahead say how far the
-- client gets. In Pass, a function of LLVM is a name and blocks of instructions, of which only the
-- kinds that the pass tells apart are there, and the lines of the file of ids are given. The
-- identifiers are those of Pass/Numbered and Pass/FileIds; Pass/Erased, Pass/Places, Pass/Layout
-- and Pass/Announced are about injected code; Pass/CallsListed compares it with the call graph,
-- and Pass/Jumps is about the jumps. Pass/FunctionIds writes the file of ids; Pass/Covered,
-- Pass/Written and Pass/Reread say what ids it has, and Pass/Roundtrip reads it again. The calls
-- of the intrinsic `returnaddress` that are put in are left out, as the functions that get its
-- result do not use it.
--
-- A constant in the lists of constructors, destructors and annotations is what the casts of
-- Pass/Patch tell apart; Pass/Exposed and Pass/Constructors are about the first of the three
-- lists, and Pass/Annotated about the last one. The nearest common post-dominator of two blocks,
-- which LLVM finds, is an argument of Pass/Postdom, and Pass/PostdomLaws has what LLVM says of it
-- as hypotheses. Pass/Compile runs the pass on a module, from the files as the modules before it
-- left them; Pass/Distinct, Pass/Once, Pass/Build and Pass/NextFile take what holds of the file of
-- ids from one module to the next one, and Pass/Modules through a whole build. Dot/Printed and
-- Dot/Complete are about the printed edges. Pass/Tests, Pass/BuildTests, Pass/PatchTests,
-- Dot/Tests and Program/Tests hold small programs.
--
-- Program puts the parts together. A run of a program goes through the blocks and the calls that the
-- code of the pass has; it is given by the signals that it sends and the depth to which its calls
-- nest. Program/Blocks and Program/Edges say what the code of a block and the edges are,
-- Program/Calls and Program/Walks follow the calls of a block and the blocks of a function,
-- Program/Allowed whole runs, and Program/Compiled takes the code and the tables from a run of the
-- pass. The tables count as loaded when each line that the pass appends has its edge in them.
--
-- What is not modelled: that OPTION_sm_dump prints the graphs while a module is loaded, and the lines
-- around the edges; the environment and the descriptors that main passes on; logging; the byte order
-- of other machines than those for which prelink/picon-prelink writes its tables; what an access
-- outside a block does in C beyond being an error; of the pass, its registration and options, its
-- lock file, what it prints (IdentifyBB, DebugPrintRT) and the text of the files, of which the lines
-- are there. The prelink script is not part of the library.
pub mod Base
pub mod Ids
pub mod Signal
pub mod Stack
pub mod BlockStack
pub mod CallStack
pub mod Tables
pub mod Load
pub mod Run
pub mod Session
pub mod Main
pub mod Injected
pub mod Pass
pub mod Program
pub mod Dot
mod Tests
