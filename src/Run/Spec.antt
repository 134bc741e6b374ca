-- ===== src/Run/Spec.antt =====
-- What monitor/src/monitor_run.c is to enforce, with no stack of pointers: the signals walk through
-- the control flow graphs and the call graph, calls nest, and each return goes back to the block
-- that called.
use picon.Base.{ℕ, ◌<◌, ◌≡◌, ◌≢◌, true, false, Option, none, some, List, [], ◌∷◌}
use picon.Ids.{get_module, get_function}
use picon.Signal.{Signal, event_of, before_jump, after_jump, call, enter, exit, returned}
use picon.Tables.{
  FunctionData, ModuleData, MonitorData, Matrix, at, at₂, is_entrypoint, is_external,
}
use picon.Run.{MonitorState, ready, in_function, expect_call, expect_return, expect_jump}

-- A function that is being run, and the block that it is in.
pub record Frame : Type 0 where
  pub module_id : ℕ
  pub function_id : ℕ
  pub block_id : ℕ

-- The function run now, and its callers, the nearest first.
pub record Config : Type 0 where
  pub state : MonitorState
  pub frame : Frame
  pub callers : List Frame

-- Before the first signal.
abbrev pub idle : Config
idle = record {
  state = ready;
  frame = record { module_id = 0; function_id = 0; block_id = 0 };
  callers = [];
}

-- The entry of a matrix is there and is not 0.
pub record HasEdge (g : Matrix) (i j : ℕ) : Type 0 where
  pub weight : ℕ
  pub entry : at₂ g i j ≡ some weight
  pub nonzero : weight ≢ 0

-- The signal names the function that runs.
pub record IsAbout (f : Frame) (sig : Signal) : Type 0 where
  pub same_module : f.module_id ≡ sig.module_id
  pub same_function : f.function_id ≡ sig.function_id

module _ (p : MonitorData) where
  -- The data of a function, if the module and the function are there.
  abbrev pub function_at : ℕ → ℕ → Option FunctionData
  function_at m f = elim (at p.modules m) [ none ↦ none | some md ↦ at md.functions f ]

  -- A block of the function is followed by another in its control flow graph.
  pub record CanJump (f : Frame) (block : ℕ) : Type 0 where
    pub fdata : FunctionData
    pub found : function_at f.module_id f.function_id ≡ some fdata
    pub in_range : block < fdata.nb_blocks
    pub edge : HasEdge fdata.control_flow_graph f.block_id block

  -- The call graph of the module has the function call `callee`, an id of the same module.
  pub record CanCall (f : Frame) (callee : ℕ) : Type 0 where
    pub mdata : ModuleData
    pub found : at p.modules f.module_id ≡ some mdata
    pub in_range : callee < mdata.nb_functions
    pub edge : HasEdge mdata.call_graph f.function_id callee

  -- Where a call of `callee` from module `m` goes: an external function is in the module and under
  -- the id that its relocation says, and any other in `m` itself.
  pub data Target (m callee : ℕ) : Frame → Type 0 where
    internal :
        (fd : FunctionData)
        → function_at m callee ≡ some fd
        → is_external fd ≡ false
        → Target m callee (record { module_id = m; function_id = callee; block_id = 0 })
    external :
        (md md' : ModuleData) (fd : FunctionData) (reloc : ℕ)
        → at p.modules m ≡ some md
        → at md.functions callee ≡ some fd
        → is_external fd ≡ true
        → at md.relocations callee ≡ some reloc
        → at p.modules (get_module reloc) ≡ some md'
        → Target m callee (record {
          module_id = get_module reloc;
          function_id = get_function reloc;
          block_id = 0;
        })

  -- The function is an entry point.
  pub record IsEntrypoint (m f : ℕ) : Type 0 where
    pub mdata : ModuleData
    pub fdata : FunctionData
    pub found : at p.modules m ≡ some mdata
    pub found_function : at mdata.functions f ≡ some fdata
    pub entrypoint : is_entrypoint fdata ≡ true

  -- The signals that a program may send, one rule for each.
  pub data Step (sig : Signal) (c : Config) : Config → Type 0 where
    jumps :
        event_of sig.event ≡ some before_jump
        → c.state ≡ in_function
        → IsAbout c.frame sig
        → c.frame.block_id ≡ sig.block_id
        → Step sig c (record c { state = expect_jump })
    lands :
        event_of sig.event ≡ some after_jump
        → c.state ≡ expect_jump
        → IsAbout c.frame sig
        → CanJump c.frame sig.block_id
        → Step sig c (record {
          state = in_function;
          frame = record {
            module_id = c.frame.module_id;
            function_id = c.frame.function_id;
            block_id = sig.block_id;
          };
          callers = c.callers;
        })
    calls :
        (target : Frame)
        → event_of sig.event ≡ some call
        → c.state ≡ in_function
        → CanCall c.frame sig.function_id
        → Target c.frame.module_id sig.function_id target
        → Step sig c (record { state = expect_call; frame = target; callers = c.frame ∷ c.callers })
    starts :
        event_of sig.event ≡ some enter
        → c.state ≡ ready
        → sig.module_id < p.nb_modules
        → (s : IsEntrypoint sig.module_id sig.function_id) → sig.function_id < s.mdata.nb_functions
        → Step sig c (record {
          state = in_function;
          frame = record { module_id = sig.module_id; function_id = sig.function_id; block_id = 0 };
          callers = c.callers;
        })
    enters :
        event_of sig.event ≡ some enter
        → c.state ≡ expect_call
        → IsAbout c.frame sig
        → c.frame.block_id ≡ 0
        → Step sig c (record c { state = in_function })
    exits :
        (caller : Frame) (rest : List Frame) (md : ModuleData)
        → event_of sig.event ≡ some exit
        → c.state ≡ in_function
        → IsAbout c.frame sig
        → c.callers ≡ caller ∷ rest
        → at p.modules caller.module_id ≡ some md
        → Step sig c (record { state = expect_return; frame = caller; callers = rest })
    returns :
        event_of sig.event ≡ some returned
        → c.state ≡ expect_return
        → CanCall c.frame sig.function_id
        → Step sig c (record c { state = in_function })

  -- The last signal of a run: the function that it started in, an entry point, exits.
  pub record IsLast (sig : Signal) (c : Config) : Type 0 where
    pub is_exit : event_of sig.event ≡ some exit
    pub running : c.state ≡ in_function
    pub about : IsAbout c.frame sig
    pub no_callers : c.callers ≡ []
    pub start : IsEntrypoint c.frame.module_id c.frame.function_id

  -- Some first part of the signals is a whole run, from the configuration on.
  pub data Completes : Config → List Signal → Type 0 where
    last :
        {c : Config} {sig : Signal} {rest : List Signal} → IsLast sig c → Completes c (sig ∷ rest)
    more :
        {c c' : Config} {sig : Signal} {rest : List Signal}
        → Step sig c c'
        → Completes c' rest
        → Completes c (sig ∷ rest)
