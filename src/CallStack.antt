-- ===== src/CallStack.antt =====
-- monitor/src/call_stack.c and monitor/include/call_stack.h: the stack of calls.
use picon.Base.{ℕ, Bool, List, Option}
use picon.Stack
use picon.Stack.{Stack}

-- `call_stack_element`
pub record CallStackElement : Type 0 where
  pub module_id : ℕ
  pub function_id : ℕ
  pub blocks_sp : ℕ

-- `call_stack`
abbrev pub CallStack : Type 0
CallStack = Stack CallStackElement

-- A cell of zero bytes.
abbrev pub no_call : CallStackElement
no_call = record { module_id = 0; function_id = 0; blocks_sp = 0 }

-- CALL_STACK_EXTEND_SIZE of monitor/include/defs.h
abbrev pub call_stack_extend_size : ℕ
call_stack_extend_size = 512

-- `call_stack_init`, given the answer of `calloc`
abbrev pub init : Option ℕ → Option CallStack
init = Stack.init call_stack_extend_size no_call

-- `call_stack_free`
abbrev pub free : CallStack → CallStack
free = Stack.free

-- `call_stack_extend`
abbrev pub extend : (ℕ → ℕ → Option ℕ) → CallStack → ℕ × CallStack
extend = Stack.extend call_stack_extend_size no_call

-- CALL_STACK_PUSH
abbrev pub push : (ℕ → ℕ → Option ℕ) → CallStackElement → ℕ × CallStack → Option (ℕ × CallStack)
push = Stack.push call_stack_extend_size no_call

-- CALL_STACK_POP
abbrev pub pop : CallStack → Option (CallStackElement × CallStack)
pop = Stack.pop

-- CALL_STACK_IS_EMPTY
abbrev pub is_empty : CallStack → Bool
is_empty = Stack.is_empty

-- `call_stack_trace`
abbrev pub trace : CallStack → Option (List CallStackElement)
trace = Stack.trace
