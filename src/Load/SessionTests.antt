-- ===== src/Load/SessionTests.antt =====
-- The loading of a module of one function, and of a packet that is cut short.
use picon.Base.{◌≡◌, refl, ℕ, true, List, [], ◌∷◌, ◌++◌, none, some, arith}
use picon.Tables.{MonitorData, ModuleData, fct_main}
use picon.Load.Cursor.{u32_bytes, read_u32, read_name}
use picon.Load.Functions.{
  zero_function, set_function, load_functions, allocate_module, load_section_function_id,
}
use picon.Load.Packet.{Delivery, read_value, read_loading_packet, free_loading_packet}
use picon.Load.Module.{
  returned_module, crashed, begin_module, load_section, handle_section, leave_loading,
  load_sections, monitor_load_module,
}
use picon.Load.ShortRead.{short_value_freed_twice}
use picon.Load.Appends.{EndsWithOne, module_appended}

abbrev no_modules : MonitorData
no_modules = record { nb_modules = 0; modules = none }

abbrev pub packet : ℕ → ℕ → List ℕ → Delivery
packet event size value = record {
  event_bytes = u32_bytes event;
  size_bytes = u32_bytes size;
  value_bytes = value;
  value_allocated = true;
  modules_allocated = true;
  alloc = λ k. true;
  written = true;
}

-- Four bytes are announced, and one comes.
short_value_freed_twice_example :
    monitor_load_module 0 no_modules (packet 0 4 (1 ∷ []) ∷ []) ≡ crashed
short_value_freed_twice_example =
    short_value_freed_twice 0 no_modules (packet 0 4 (1 ∷ [])) [] (omega arith) (omega arith)
      (omega arith) refl

abbrev pub one_module : List Delivery
one_module =
    packet 0 4 (u32_bytes 1)
    ∷ packet 1 14 (u32_bytes 1 ++ (u32_bytes 0 ++ (u32_bytes fct_main ++ b'm' ∷ 0 ∷ [])))
    ∷ packet 5 0 []
    ∷ []

abbrev pub loaded_module : ModuleData
loaded_module = record {
  nb_functions = 1;
  nb_entrypoint_inits = 0;
  nb_entrypoint_finis = 0;
  call_graph = some (none ∷ []);
  relocations = some (0 ∷ []);
  functions = some (record zero_function { name = some (b'm' ∷ []); flags = fct_main } ∷ []);
}

abbrev pub one_loaded : MonitorData
one_loaded = record { nb_modules = 1; modules = some (loaded_module ∷ []) }

one_module_loaded : monitor_load_module 0 no_modules one_module ≡ returned_module one_loaded []
unfolding monitor_load_module load_sections leave_loading handle_section load_section begin_module
    read_loading_packet read_value free_loading_packet load_section_function_id allocate_module
    load_functions set_function read_u32 read_name
one_module_loaded = refl

module_appended_example : EndsWithOne [] one_loaded
module_appended_example =
    module_appended 0 no_modules one_loaded one_module [] refl (omega arith) one_module_loaded
