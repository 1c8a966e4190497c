-- ===== src/Control/Protocol.antt =====
-- What a container expects of the notifications of an in-place object, as an automaton over the
-- calls that the control of src/library/tLuaControl.cpp makes.
use luacom.Prelude.{
  ℕ, ◌+◌, ◌≡◌, ◌≢◌, Bool, true, false, Option, none, some, List, [], ◌∷◌, if◌then◌else◌,
}
use luacom.Control.{failed, Control, Holdings, Call, Host, World, is_some, one_if}

-- `notified`: the container knows of the activation, and there is no window.
pub data Phase : Type 0 where
  inactive notified windowed ui_active : Phase

-- The calls that a phase allows, and where they lead.
unfoldable pub step : Call → Phase → Option Phase
unfolding failed
step (Call.can_in_place_activate hr) inactive = some inactive
step (Call.can_in_place_activate hr) _ = none
step (Call.on_in_place_activate hr) inactive = some (if failed hr then inactive else notified)
step (Call.on_in_place_activate hr) _ = none
step Call.site_get_window notified = some notified
step Call.site_get_window _ = none
step Call.get_window_context notified = some notified
step Call.get_window_context _ = none
step (Call.create_window p x y s (some (some n))) notified = some windowed
step (Call.create_window p x y s _) notified = some notified
step (Call.create_window p x y s r) _ = none
step (Call.destroy_window done) windowed = some notified
step (Call.destroy_window done) _ = none
step Call.on_ui_activate windowed = some ui_active
step Call.on_ui_activate _ = none
step (Call.set_focus h) ui_active = some ui_active
step (Call.set_focus h) _ = none
step (Call.frame_set_active_object b) ui_active = some ui_active
step (Call.frame_set_active_object b) _ = none
step (Call.ui_window_set_active_object b) ui_active = some ui_active
step (Call.ui_window_set_active_object b) _ = none
step Call.frame_set_border_space ui_active = some ui_active
step Call.frame_set_border_space _ = none
step Call.ui_window_set_border_space ui_active = some ui_active
step Call.ui_window_set_border_space _ = none
step Call.on_ui_deactivate ui_active = some windowed
step Call.on_ui_deactivate _ = none
step Call.on_in_place_deactivate notified = some inactive
step Call.on_in_place_deactivate _ = none
step (Call.on_pos_rect_change r) windowed = some windowed
step (Call.on_pos_rect_change r) ui_active = some ui_active
step (Call.on_pos_rect_change r) _ = none
step _ p = some p

-- The phase after a sequence of calls, the last one first, or none where one was not allowed.
unfoldable pub replay : List Call → Option Phase
unfolding step
replay [] = some inactive
replay (c ∷ cs) = elim (replay cs) [ none ↦ none | some p ↦ step c p ]

-- How many calls of DestroyWindow have failed, and how many connection points QuickActivate has got.
unfoldable pub strays_in : List Call → ℕ
strays_in [] = 0
strays_in (Call.destroy_window false ∷ cs) = strays_in cs + 1
strays_in (_ ∷ cs) = strays_in cs

unfoldable pub points_in : List Call → ℕ
unfolding failed
points_in [] = 0
points_in (Call.find_point hr ∷ cs) = let n = points_in cs in if failed hr then n else n + 1
points_in (_ ∷ cs) = points_in cs

unfoldable pub is_active : Phase → Bool
is_active inactive = false
is_active _ = true

unfoldable pub has_window : Phase → Bool
has_window inactive = false
has_window notified = false
has_window windowed = true
has_window ui_active = true

unfoldable pub is_ui_active : Phase → Bool
is_ui_active ui_active = true
is_ui_active _ = false

-- What is held is what the fields of the control say.
pub record Owns (c : Control) (h : Holdings) : Type 0 where
  pub advise_holders : h.advise_holders ≡ one_if c.advise_holder
  pub view_sinks : h.view_sinks ≡ one_if c.view_sink
  pub client_sites : h.client_sites ≡ one_if c.client_site
  pub control_sites : h.control_sites ≡ one_if c.control_site
  pub in_place_sites : h.in_place_sites ≡ one_if c.in_place_site
  pub frames : h.frames ≡ one_if c.frame
  pub ui_windows : h.ui_windows ≡ one_if c.ui_window
  pub regions : h.regions ≡ 0
  pub windows : h.windows ≡ one_if c.hwnd

-- The control stands in a phase, and the calls that it has made are those of this phase.
pub record At (p : Phase) (w : World) : Type 0 where
  pub follows : replay w.log ≡ some p
  pub active : w.control.in_place_active ≡ is_active p
  pub window : is_some w.control.hwnd ≡ has_window p
  pub ui : w.control.ui_active ≡ is_ui_active p
  pub visible : w.control.in_place_visible ≡ true → has_window p ≡ true
  pub site : is_active p ≡ true → is_some w.control.in_place_site ≡ true
  pub frame : has_window p ≡ true → is_some w.control.frame ≡ true
  pub frameless : p ≡ inactive → is_some w.control.frame ≡ false
  pub ui_frameless : p ≡ inactive → is_some w.control.ui_window ≡ false
  pub region : w.control.has_window_rgn ≡ true → has_window p ≡ true
  pub owns : Owns w.control w.held
  pub strays : w.held.stray_windows ≡ strays_in w.log
  pub points : w.held.event_points ≡ points_in w.log

-- Between two requests the control is not amid an activation.
pub record Valid (w : World) : Type 0 where
  pub phase : Phase
  pub settled : phase ≢ notified
  pub at : At phase w

-- What OLE's rules promise of a container: success comes with the pointer that was asked for.
pub record Contract (host : Host) : Type 0 where
  pub gives_site :
      (client : ℕ) (l : List Call)
      → failed (host.in_place_site_of client l).0 ≡ false
      → is_some (host.in_place_site_of client l).1 ≡ true
  pub gives_frame :
      (l : List Call)
      → failed (host.context l).result ≡ false
      → is_some (host.context l).frame ≡ true
  pub gives_holder :
      (l : List Call)
      → failed (host.holder_made l).0 ≡ false
      → is_some (host.holder_made l).1 ≡ true
