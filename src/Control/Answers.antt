-- ===== src/Control/Answers.antt =====
-- The methods of the control of src/library/tLuaControl.cpp that answer the same in every state. A
-- Boolean argument says whether the place for the answer is given.
use luacom.Prelude.{ℕ, Bool, true, false}
use luacom.Control.Code

-- The result code, and whether the place is cleared.
abbrev clears : ℕ → Bool → ℕ × Bool
clears hr true = (hr, true)
clears hr false = (Code.e_pointer, false)

pub data ControlMethod : Type 0 where
  get_control_info : Bool → ControlMethod
  on_ambient_property_change freeze_events : ControlMethod

unfoldable pub control_answer : ControlMethod → ℕ × Bool
control_answer (get_control_info given) = clears Code.s_ok given
control_answer on_ambient_property_change = (Code.s_ok, false)
control_answer freeze_events = (Code.s_ok, false)

pub data ObjectMethod : Type 0 where
  set_moniker init_from_data is_up_to_date : ObjectMethod
  get_moniker get_clipboard_data : Bool → ObjectMethod

unfoldable pub object_answer : ObjectMethod → ℕ × Bool
object_answer set_moniker = (Code.e_notimpl, false)
object_answer (get_moniker given) = clears Code.e_notimpl given
object_answer init_from_data = (Code.e_notimpl, false)
object_answer is_up_to_date = (Code.s_ok, false)
object_answer (get_clipboard_data given) = clears Code.e_notimpl given

pub data ActiveMethod : Type 0 where
  resize_border enable_modeless reactivate_and_undo translate_accelerator : ActiveMethod

unfoldable pub active_answer : ActiveMethod → ℕ
active_answer resize_border = Code.s_ok
active_answer enable_modeless = Code.s_ok
active_answer reactivate_and_undo = Code.e_notimpl
active_answer translate_accelerator = Code.s_false

-- InitNew, Load and Save are those of a stream and of a storage alike.
pub data PersistMethod : Type 0 where
  is_dirty init_new load save save_completed hands_off_storage : PersistMethod
  get_size_max : Bool → PersistMethod

unfoldable pub persist_answer : PersistMethod → ℕ
persist_answer is_dirty = Code.s_false
persist_answer init_new = Code.s_ok
persist_answer (get_size_max true) = Code.e_notimpl
persist_answer (get_size_max false) = Code.e_pointer
persist_answer load = Code.s_ok
persist_answer save = Code.s_ok
persist_answer save_completed = Code.s_ok
persist_answer hands_off_storage = Code.s_ok
