-- ===== src/BlockStack.antt =====
-- monitor/src/block_stack.c and monitor/include/block_stack.h: the stack of blocks.
use picon.Base.{ℕ, Bool, List, Option}
use picon.Stack
use picon.Stack.{Stack}

-- `block_stack`
abbrev pub BlockStack : Type 0
BlockStack = Stack ℕ

-- BLOCK_STACK_EXTEND_SIZE of monitor/include/defs.h
abbrev pub block_stack_extend_size : ℕ
block_stack_extend_size = 4096

-- `block_stack_init`, given the answer of `calloc`
abbrev pub init : Option ℕ → Option BlockStack
init = Stack.init block_stack_extend_size 0

-- `block_stack_free`
abbrev pub free : BlockStack → BlockStack
free = Stack.free

-- `block_stack_extend`
abbrev pub extend : (ℕ → ℕ → Option ℕ) → BlockStack → ℕ × BlockStack
extend = Stack.extend block_stack_extend_size 0

-- BLOCK_STACK_PUSH
abbrev pub push : (ℕ → ℕ → Option ℕ) → ℕ → ℕ × BlockStack → Option (ℕ × BlockStack)
push = Stack.push block_stack_extend_size 0

-- BLOCK_STACK_POP
abbrev pub pop : BlockStack → Option (ℕ × BlockStack)
pop = Stack.pop

-- BLOCK_STACK_IS_EMPTY
abbrev pub is_empty : BlockStack → Bool
is_empty = Stack.is_empty

-- BLOCK_STACK_RESTORE_TOP
abbrev pub restore_top : BlockStack → ℕ → BlockStack
restore_top = Stack.restore_top

-- `block_stack_trace`
abbrev pub trace : BlockStack → Option (List ℕ)
trace = Stack.trace
