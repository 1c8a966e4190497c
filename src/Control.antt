-- ===== src/Control.antt =====
-- The ActiveX control of src/library/tLuaControl.cpp: its state, what it holds of the world outside,
-- and what it learns from the container, from the Lua table that implements it and from Windows.
use luacom.Prelude.{ℕ, ◌+◌, ◌-◌, Bool, true, false, Option, none, some, List, [], ◌∷◌, ◌==◌, leb}
use luacom.Prelude.Int.{ℤ, ◌-ℤ◌}
use luacom.Prelude.Result.{Result, ok, fault}
use luacom.Prelude.Run.{Run, lift, modify, pure}
pub mod Code
pub mod Window
pub mod Activation
pub mod Object
pub mod Leads
pub mod View
pub mod Verbs
pub mod Protocol
pub mod Valid
pub mod Neutral
pub mod Entering
pub mod Requests
pub mod Kept
pub mod Runs
pub mod References
pub mod Willing
pub mod Answers
pub mod Offered
pub mod Site

-- FAILED
unfoldable pub failed : ℕ → Bool
failed hr = leb 2147483648 hr

pub record Rect : Type 0 where
  pub left : ℤ
  pub top : ℤ
  pub right : ℤ
  pub bottom : ℤ

pub record Size : Type 0 where
  pub cx : ℤ
  pub cy : ℤ

-- The size of a rectangle, whose sides a LONG must hold, since the code's subtraction does not wrap.
unfoldable pub rect_size : Rect → Size
rect_size r = record { cx = r.right -ℤ r.left; cy = r.bottom -ℤ r.top }

-- The fields of tLuaControl; a pointer or a window is a number, or none for NULL.
pub record Control : Type 0 where
  pub advise_holder : Option ℕ
  pub view_sink : Option ℕ
  pub client_site : Option ℕ
  pub control_site : Option ℕ
  pub in_place_site : Option ℕ
  pub frame : Option ℕ
  pub ui_window : Option ℕ
  pub size : Size
  pub location : Option Rect
  pub hwnd : Option ℕ
  pub hwnd_parent : Option ℕ
  pub has_window_rgn : Bool
  pub dirty : Bool
  pub in_place_active : Bool
  pub in_place_visible : Bool
  pub ui_active : Bool
  pub advise_prime_first : Bool
  pub advise_only_once : Bool

-- What the control holds: references, by the field that keeps them, regions that no window owns
-- yet, windows that the Lua table has made, those that the control has let go though the table's
-- DestroyWindow has failed, and the connection points that QuickActivate has got.
pub record Holdings : Type 0 where
  pub advise_holders : ℕ
  pub view_sinks : ℕ
  pub client_sites : ℕ
  pub control_sites : ℕ
  pub in_place_sites : ℕ
  pub frames : ℕ
  pub ui_windows : ℕ
  pub regions : ℕ
  pub windows : ℕ
  pub stray_windows : ℕ
  pub event_points : ℕ

-- The calls that the control makes, with what they answered where it matters.
pub data Call : Type 0 where
  query_control_site query_in_place_site : ℕ → Call
  can_in_place_activate on_in_place_activate : ℕ → Call
  site_get_window get_window_context : Call
  on_ui_activate on_ui_deactivate on_in_place_deactivate show_object : Call
  on_pos_rect_change : Rect → Call
  frame_set_active_object ui_window_set_active_object : Bool → Call
  frame_set_border_space ui_window_set_border_space : Call
  create_window : Option ℕ → ℤ → ℤ → Size → Option (Option ℕ) → Call
  destroy_window : Bool → Call
  find_point : ℕ → Call
  set_focus : Option ℕ → Call
  show_window : ℕ → Bool → Call
  place_window : ℕ → Option ℕ → ℤ → ℤ → Size → Call
  resize_window : ℕ → Option ℕ → Size → Call
  create_region set_window_rgn make_parking_window paint : Call
  lua_set_extent : Size → Call
  create_holder send_on_save release_event_sink set_extents set_origins : Call
  holder_advise holder_unadvise : ℕ → Call

-- The answer of GetWindowContext.
pub record Context : Type 0 where
  pub result : ℕ
  pub frame : Option ℕ
  pub ui_window : Option ℕ
  pub pos : Rect
  pub clip : Rect

-- What the calls answer. Each answer may depend on the calls made before.
pub record Host : Type 0 where
  pub control_site_of : ℕ → List Call → Option ℕ
  pub in_place_site_of : ℕ → List Call → ℕ × Option ℕ
  pub can_activate : List Call → ℕ
  pub activated : List Call → ℕ
  pub parent_window : List Call → ℕ × Option ℕ
  pub context : List Call → Context
  -- luaCompat_call of a method of the table: none where it fails.
  pub lua_create_window : Option ℕ → ℤ → ℤ → Size → List Call → Option (Option ℕ)
  pub lua_destroys_window : List Call → Bool
  pub lua_extent_accepted : Size → List Call → Option Bool
  -- RegisterClass and CreateWindow
  pub parking_class : List Call → Bool
  pub parking_made : List Call → Option ℕ
  pub is_window_visible : Option ℕ → List Call → Bool
  pub has_visible_style : ℕ → List Call → Bool
  -- IntersectRect, EqualRect, OffsetRect with CreateRectRgnIndirect, SetWindowRgn
  pub intersect : Rect → Rect → Option Rect
  pub equal_rects : Rect → Rect → Bool
  pub region_of : Rect → ℤ → ℤ → List Call → Option ℕ
  pub region_set : List Call → Bool
  pub last_error : List Call → ℕ
  pub hresult_from_win32 : ℕ → ℕ
  -- GetWindowRect with MapWindowPoints
  pub window_rect : Option ℕ → Option ℕ → List Call → Rect
  pub holder_made : List Call → ℕ × Option ℕ
  pub holder_advised : ℕ → List Call → ℕ × ℕ
  pub holder_unadvised : ℕ → List Call → ℕ
  pub holder_enumerated : ℕ → List Call → ℕ × Option ℕ
  -- GetConnPointContainer is not NULL, which is so once BeConnectable was called; FindConnectionPoint
  -- and Advise of the event sink
  pub connectable : List Call → Bool
  pub point_found : List Call → ℕ
  pub event_advised : ℕ → List Call → ℕ × ℕ
  pub client_rect : ℕ → List Call → Rect
  pub window_proc : ℕ → List Call → Bool
  pub dialog_proc : ℕ → List Call → Bool
  pub to_pixels : Size → Size
  pub to_himetric : Size → Size

-- The control, what it holds, the calls from the last one on, and the global parking window.
pub record World : Type 0 where
  pub control : Control
  pub held : Holdings
  pub log : List Call
  pub parking : Option ℕ

abbrev pub is_some : {A : Type 0} → Option A → Bool
is_some none = false
is_some (some a) = true

-- How many references a field keeps.
unfoldable pub one_if : {A : Type 0} → Option A → ℕ
one_if none = 0
one_if (some a) = 1

abbrev pub read : {A : Type 0} → (Control → A) → Run World A
read f w = (ok (f w.control), w)

abbrev pub ask : {A : Type 0} → (List Call → A) → Run World A
ask f w = (ok (f w.log), w)

abbrev pub setting : (Control → Control) → Run World (Unit {0})
setting f = modify (λ w. record w { control = f w.control })

abbrev pub holding : (Holdings → Holdings) → Run World (Unit {0})
holding f = modify (λ w. record w { held = f w.held })

abbrev pub tell : Call → Run World (Unit {0})
tell c = modify (λ w. record w { log = c ∷ w.log })

-- A call through a pointer.
unfoldable pub through : Option ℕ → Run World (Unit {0})
through none = lift fault
through (some p) = pure tt
