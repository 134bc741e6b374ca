-- ===== src/Load.antt =====
-- monitor/src/monitor_load.c: the sections of a module, as their packets are read into the tables.
--
-- A pointer into the value of a packet is the list of the bytes from it on, so that a read past
-- the end is a fault, `none`. A loader returns its code and the tables as it leaves them. `alloc
-- k` says whether the `k`-th allocation of a loader succeeds.
pub mod Cursor
pub mod Functions
pub mod Transitions
pub mod Blocks
pub mod Rows
pub mod CallGraph
pub mod FlowGraph
pub mod PutFunctions
pub mod FunctionTable
pub mod Relocations
pub mod Search
pub mod Resolved
pub mod Packet
pub mod Module
pub mod Rule
pub mod ShortRead
pub mod Appends
pub mod Free
pub mod Whole
pub mod WholeSections
pub mod WholeBlocks
pub mod FreeWhole
mod Tests
pub mod SessionTests
