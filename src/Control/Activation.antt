-- ===== src/Control/Activation.antt =====
-- How the control of src/library/tLuaControl.cpp becomes active in its container, and stops to be.
use luacom.Prelude.{ℕ, ◌+◌, ◌-◌, Bool, true, false, not, ◌&&◌, none, some, ◌==◌, if◌then◌else◌}
use luacom.Prelude.Run.{Run, ◌>>=◌, ◌>>◌, pure, when}
use luacom.Control.Code
use luacom.Control.{
  failed, Rect, rect_size, Call, Host, World, is_some, one_if, read, ask, setting, holding, tell,
  through,
}
use luacom.Control.Window.{set_object_rects, create_in_place_window, set_in_place_visible}

-- m_pInPlaceFrame.Release() and m_pInPlaceUIWindow.Release()
unfoldable pub release_frame : Run World (Unit {0})
unfolding one_if
release_frame = do
  p ← read (λ c. c.frame)
  holding (λ h. record h { frames = h.frames - one_if p })
  setting (λ c. record c { frame = none })

unfoldable pub release_ui_window : Run World (Unit {0})
unfolding one_if
release_ui_window = do
  p ← read (λ c. c.ui_window)
  holding (λ h. record h { ui_windows = h.ui_windows - one_if p })
  setting (λ c. record c { ui_window = none })

unfoldable pub ui_deactivate : Run World ℕ
unfolding through
ui_deactivate = do
  c ← read (λ c. c)
  if not c.ui_active then pure Code.s_ok else do
    setting (λ c. record c { ui_active = false })
    when (is_some c.ui_window) (tell (Call.ui_window_set_active_object false))
    through c.frame
    tell (Call.frame_set_active_object false)
    through c.in_place_site
    tell Call.on_ui_deactivate
    pure Code.s_ok

module _ (host : Host) where
  -- DestroyWindow of the table, whose failure goes unnoticed, with the two fields that follow each
  -- call of it but the destructor's.
  unfoldable pub destroy_window : Run World (Unit {0})
  destroy_window = do
    done ← ask host.lua_destroys_window
    tell (Call.destroy_window done)
    holding (λ h. record h {
      windows = h.windows - 1;
      stray_windows = h.stray_windows + (if done then 0 else 1);
    })
    setting (λ c. record c { hwnd = none; has_window_rgn = false })

  unfoldable pub in_place_deactivate : Run World ℕ
  unfolding through ui_deactivate destroy_window release_frame release_ui_window
  in_place_deactivate = do
    c ← read (λ c. c)
    if not c.in_place_active then pure Code.s_ok else do
      when c.ui_active (do ui_deactivate; pure tt)
      setting (λ c. record c { in_place_active = false; in_place_visible = false })
      when (is_some c.hwnd) destroy_window
      release_frame
      release_ui_window
      through c.in_place_site
      tell Call.on_in_place_deactivate
      pure Code.s_ok

  -- RETURN_ON_ERROR, where there was one.
  unfoldable pub give_up : ℕ → Run World ℕ
  unfolding release_frame release_ui_window through
  give_up hr = do
    c ← read (λ c. c)
    when c.in_place_active (do
      setting (λ c. record c { in_place_active = false })
      through c.in_place_site
      tell Call.on_in_place_deactivate)
    release_frame
    release_ui_window
    setting (λ c. record c { hwnd_parent = none })
    pure hr

  -- The end of the first part of InPlaceActivate: the window for the rectangles of the container.
  unfoldable pub open_window : Rect → Rect → Run World ℕ
  unfolding set_object_rects create_in_place_window give_up failed rect_size
  open_window pos clip = do
    setting (λ c. record c { size = rect_size pos })
    hr ← set_object_rects host (some pos) (some clip)
    if failed hr then give_up hr else do
      h ← create_in_place_window host pos.left pos.top
      if is_some h then pure Code.s_ok else give_up Code.e_fail

  -- GetWindowContext, and what follows it.
  unfoldable pub take_context : Run World ℕ
  unfolding open_window give_up failed one_if
  take_context = do
    x ← ask host.context
    tell Call.get_window_context
    holding (λ h. record h {
      frames = h.frames + one_if x.frame;
      ui_windows = h.ui_windows + one_if x.ui_window;
    })
    setting (λ c. record c { frame = x.frame; ui_window = x.ui_window })
    if failed x.result then give_up x.result else open_window x.pos x.clip

  -- The first part of InPlaceActivate, for a control that is not active.
  unfoldable pub enter : Run World ℕ
  unfolding take_context give_up failed through
  enter = do
    p ← read (λ c. c.in_place_site)
    through p
    can ← ask host.can_activate
    tell (Call.can_in_place_activate can)
    if not (can == Code.s_ok) then give_up Code.e_fail else do
      hr ← ask host.activated
      tell (Call.on_in_place_activate hr)
      if failed hr then give_up hr else do
        setting (λ c. record c { in_place_active = true })
        parent ← ask host.parent_window
        tell Call.site_get_window
        setting (λ c. record c { hwnd_parent = parent.1 })
        if failed parent.0 then give_up parent.0 else take_context

  -- Its last part, with the elements of the user interface.
  unfoldable pub ui_activate : Run World (Unit {0})
  unfolding through
  ui_activate = do
    c ← read (λ c. c)
    setting (λ c. record c { ui_active = true })
    through c.in_place_site
    tell Call.on_ui_activate
    tell (Call.set_focus c.hwnd)
    through c.frame
    tell (Call.frame_set_active_object true)
    when (is_some c.ui_window) (tell (Call.ui_window_set_active_object true))
    tell Call.frame_set_border_space
    when (is_some c.ui_window) (tell Call.ui_window_set_border_space)

  -- The query of the container for its site, unless it is known.
  unfoldable pub find_in_place_site : ℕ → Run World ℕ
  unfolding one_if
  find_in_place_site client = do
    known ← read (λ c. c.in_place_site)
    elim known [
      | some p ↦ pure Code.s_ok
      | none ↦ do
        r ← ask (host.in_place_site_of client)
        tell (Call.query_in_place_site (r.0))
        holding (λ h. record h { in_place_sites = h.in_place_sites + one_if (r.1) })
        setting (λ c. record c { in_place_site = r.1 })
        pure (r.0)
    ]

  -- What follows once the control is active.
  unfoldable pub show_up : Bool → Run World ℕ
  unfolding set_in_place_visible ui_activate
  show_up verb = do
    c ← read (λ c. c)
    when (not c.in_place_visible) (set_in_place_visible host true)
    when (verb && not c.ui_active) ui_activate
    pure Code.s_ok

  unfoldable pub in_place_activate : Bool → Run World ℕ
  unfolding find_in_place_site enter show_up failed
  in_place_activate verb = do
    c ← read (λ c. c)
    elim c.client_site [
      | none ↦ pure Code.s_ok
      | some client ↦ do
        hr ← find_in_place_site client
        if failed hr then pure hr else do
          entered ← (if c.in_place_active then pure Code.s_ok else enter)
          if failed entered then pure entered else show_up verb
    ]
