-- ===== src/Control/References.antt =====
-- The references to the control of src/library/tLuaControl.cpp, the interfaces that it hands out,
-- and what it gives back with its last reference. What it has of a tLuaDispatch is a Server.
use luacom.Prelude.{
  ℕ, ◌+◌, ◌-◌, ◌^◌, ◌%◌, Bool, true, false, not, Option, none, some, List, ◌∷◌, ◌==◌, if◌then◌else◌,
}
use luacom.Dispatch.Object.{Held, Server}
use luacom.Dispatch.Interfaces.{DispatchIid, has_interface, add_ref, destroy}
use luacom.Control.Code
use luacom.Control.{Control, Holdings, Call, Host, World, one_if}
use luacom.Control.Protocol.{strays_in, points_in}
use luacom.Control.Object.{nothing_held}
use luacom.Control.Leads.{Leads}

-- The interfaces that QueryInterface tells apart beside those of a tLuaDispatch.
pub data ControlIid : Type 0 where
  dispatch_iid : DispatchIid → ControlIid
  iprovide_class_info2 iole_object iole_control iole_in_place_object : ControlIid
  iole_in_place_active_object iview_object iview_object2 : ControlIid
  ipersist_stream_init ipersist_storage : ControlIid

-- DestroyWindow, where there is a window.
unfoldable pub close_window : Host → World → World
close_window host w = elim w.control.hwnd [
  | none ↦ w
  | some n ↦
      let done = host.lua_destroys_window w.log in
      record w {
        log = Call.destroy_window done ∷ w.log;
        held = record w.held {
          windows = w.held.windows - 1;
          stray_windows = w.held.stray_windows + (if done then 0 else 1);
        };
        control = record w.control { hwnd = none; has_window_rgn = false };
      }
]

-- What is held once the destructors of the pointers have run.
unfoldable pub release_fields : Control → Holdings → Holdings
unfolding one_if
release_fields c h = record h {
  advise_holders = h.advise_holders - one_if c.advise_holder;
  view_sinks = h.view_sinks - one_if c.view_sink;
  client_sites = h.client_sites - one_if c.client_site;
  control_sites = h.control_sites - one_if c.control_site;
  in_place_sites = h.in_place_sites - one_if c.in_place_site;
  frames = h.frames - one_if c.frame;
  ui_windows = h.ui_windows - one_if c.ui_window;
}

-- What is left for good: a connection point for each that QuickActivate has got, and a window for each
-- call of DestroyWindow that has failed.
abbrev pub leftovers : List Call → Holdings
leftovers log = record nothing_held { stray_windows = strays_in log; event_points = points_in log }

module _ {V : Type 0} where
  unfoldable pub has_control_interface : ControlIid → Server V → Bool
  unfolding has_interface
  has_control_interface (dispatch_iid riid) s = has_interface riid s
  has_control_interface iprovide_class_info2 s = s.has_class_info
  has_control_interface _ s = true

  unfoldable pub query_interface : Bool → ControlIid → Server V → ℕ × Server V
  unfolding has_control_interface add_ref
  query_interface given riid s =
      if not given
      then (Code.e_pointer, s)
      else if has_control_interface riid s
      then (Code.s_ok, add_ref s)
      else (Code.e_nointerface, s)

  -- Release: the object that is left, if any, what the control holds, and what its dispatch part
  -- holds. The destructor finds no window any more.
  unfoldable pub release : Host → Server V → World → Held → Option (Server V) × Holdings × Held
  unfolding close_window release_fields destroy
  release host s w h =
      let v = close_window host w in
      if s.refs == 1
      then (none, release_fields v.control v.held, destroy s h)
      else (some (record s { refs = (s.refs + 2 ^ 32 - 1) % 2 ^ 32 }), w.held, h)
