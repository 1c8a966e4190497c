-- ===== src/Control/Object.antt =====
-- The methods of IOleObject that change the control of src/library/tLuaControl.cpp or read it, and
-- its construction and end.
use luacom.Prelude.{
  ℕ, ◌+◌, ◌-◌, ◌%◌, Bool, true, false, not, ◌&&◌, ◌||◌, Option, none, some, ◌==◌, ltb,
  if◌then◌else◌,
}
use luacom.Prelude.Int.{ℤ, pos, negsuc, ◌+ℤ◌}
use luacom.Prelude.Run.{Run, ◌>>=◌, ◌>>◌, pure, when}
use luacom.Control.Code
use luacom.Control.{
  failed, Size, Control, Holdings, Call, Host, World, is_some, one_if, read, ask, setting, holding,
  tell, through,
}
use luacom.Control.Window.{set_in_place_visible}
use luacom.Control.Activation.{ui_deactivate, in_place_deactivate, in_place_activate}

-- dwAspect & DVASPECT_CONTENT
abbrev pub has_content : ℕ → Bool
has_content aspect = aspect % 2 == 1

-- The constructor, with what `InitialSize` of the table returns, and the two flags that it does not
-- set, which have any value.
unfoldable pub construct : Option Size → Bool → Bool → Control
construct initial prime once = record {
  advise_holder = none;
  view_sink = none;
  client_site = none;
  control_site = none;
  in_place_site = none;
  frame = none;
  ui_window = none;
  size = elim initial [ some s ↦ s | none ↦ record { cx = pos 50; cy = pos 20 } ];
  location = none;
  hwnd = none;
  hwnd_parent = none;
  has_window_rgn = false;
  dirty = false;
  in_place_active = false;
  in_place_visible = false;
  ui_active = false;
  advise_prime_first = prime;
  advise_only_once = once;
}

-- What a new control holds.
abbrev pub nothing_held : Holdings
nothing_held = record {
  advise_holders = 0;
  view_sinks = 0;
  client_sites = 0;
  control_sites = 0;
  in_place_sites = 0;
  frames = 0;
  ui_windows = 0;
  regions = 0;
  windows = 0;
  stray_windows = 0;
  event_points = 0;
}

-- GetClientSite: the result code, and what is written for the caller.
unfoldable pub get_client_site : Bool → Control → ℕ × Option ℕ
get_client_site given c = if given then (Code.s_ok, c.client_site) else (Code.e_pointer, none)

-- GetWindow
unfoldable pub get_window : Bool → Control → ℕ × Option ℕ
get_window given c =
    if not given
    then (Code.e_pointer, none)
    else (if is_some c.hwnd then Code.s_ok else Code.e_unexpected, c.hwnd)

-- GetMiscStatus: the status is a sum of flags, which is a parameter.
unfoldable pub get_misc_status : ℕ → ℕ → Bool → ℕ × Option ℕ
get_misc_status flags aspect given =
    if not given
    then (Code.e_pointer, none)
    else if not (aspect == 1)
    then (Code.e_fail, some 0)
    else (Code.s_ok, some flags)

module _ (host : Host) where
  unfoldable pub set_client_site : Option ℕ → Run World ℕ
  unfolding one_if
  set_client_site site = do
    c ← read (λ c. c)
    holding (λ h. record h {
      control_sites = h.control_sites - one_if c.control_site;
      client_sites = h.client_sites - one_if c.client_site + one_if site;
    })
    setting (λ c. record c { control_site = none; client_site = site })
    elim site [
      | none ↦ pure Code.s_ok
      | some s ↦ do
        p ← ask (host.control_site_of s)
        tell (Call.query_control_site s)
        holding (λ h. record h { control_sites = h.control_sites + one_if p })
        setting (λ c. record c { control_site = p })
        pure Code.s_ok
    ]

  -- Close, with the numbers of OLECLOSE_SAVEIFDIRTY and OLECLOSE_PROMPTSAVE.
  unfoldable pub close : ℕ → Run World ℕ
  unfolding in_place_deactivate failed
  close option = do
    c ← read (λ c. c)
    hr ← (if c.in_place_active then in_place_deactivate host else pure Code.s_ok)
    if failed hr then pure hr else do
      when ((option == 0 || option == 2) && c.dirty && is_some c.advise_holder)
          (tell Call.send_on_save)
      pure Code.s_ok

  -- OLEIVERB_HIDE
  unfoldable pub hide : Run World ℕ
  unfolding ui_deactivate set_in_place_visible
  hide = do
    ui_deactivate
    visible ← read (λ c. c.in_place_visible)
    when visible (set_in_place_visible host false)
    pure Code.s_ok

  -- DoVerb: OLEIVERB_SHOW is -1, OLEIVERB_HIDE is -3, OLEIVERB_UIACTIVATE is -4 and
  -- OLEIVERB_INPLACEACTIVATE is -5.
  unfoldable pub do_verb : ℤ → Run World ℕ
  unfolding in_place_activate hide failed
  do_verb (negsuc n) =
      if n == 0 || n == 3 || n == 4
      then in_place_activate host (n == 3)
      else if n == 2
      then hide
      else pure Code.e_notimpl
  do_verb (pos n) =
      if ltb 0 n
      then (in_place_activate host false >>= λ hr.
          pure (if failed hr then hr else Code.oleobj_s_invalidverb))
      else pure Code.e_notimpl

  -- SetWindowPos for the new size, where there is a window.
  unfoldable pub resize : Run World (Unit {0})
  resize = do
    c ← read (λ c. c)
    elim c.hwnd [ none ↦ pure tt | some n ↦ tell (Call.resize_window n c.hwnd_parent c.size) ]

  -- OnPosRectChange for a control that is active.
  unfoldable pub announce_rect : Run World (Unit {0})
  unfolding through
  announce_rect = do
    c ← read (λ c. c)
    r ← ask (host.window_rect c.hwnd c.hwnd_parent)
    through c.in_place_site
    tell (
        Call.on_pos_rect_change
          (record r { right = r.left +ℤ c.size.cx; bottom = r.top +ℤ c.size.cy }))

  -- SetExtent once the table has accepted the size, or not.
  unfoldable pub fit_extent : Size → Bool → Run World ℕ
  unfolding announce_rect resize
  fit_extent s accepted = do
    when accepted (setting (λ c. record c { size = host.to_pixels s }))
    active ← read (λ c. c.in_place_active)
    when active announce_rect
    resize
    pure (if accepted then Code.s_ok else Code.e_fail)

  unfoldable pub set_extent : ℕ → Option Size → Run World ℕ
  unfolding fit_extent
  set_extent aspect none = pure Code.e_pointer
  set_extent aspect (some s) = if not (has_content aspect) then pure Code.dv_e_dvaspect else do
    r ← ask (host.lua_extent_accepted (host.to_pixels s))
    tell (Call.lua_set_extent (host.to_pixels s))
    elim r [ none ↦ pure Code.e_fail | some accepted ↦ fit_extent s accepted ]

  unfoldable pub get_extent : ℕ → Bool → Control → ℕ × Option Size
  get_extent aspect given c =
      if not given
      then (Code.e_pointer, none)
      else if has_content aspect
      then (Code.s_ok, some (host.to_himetric c.size))
      else (Code.dv_e_dvaspect, none)

  -- The holder of the advise sinks, made where there is none: the result code, and the holder.
  unfoldable pub find_holder : Run World (ℕ × Option ℕ)
  unfolding one_if
  find_holder = do
    known ← read (λ c. c.advise_holder)
    elim known [
      | some h ↦ pure (Code.s_ok, some h)
      | none ↦ do
        r ← ask host.holder_made
        tell Call.create_holder
        holding (λ h. record h { advise_holders = h.advise_holders + one_if (r.1) })
        setting (λ c. record c { advise_holder = r.1 })
        pure r
    ]

  -- Advise: the result code, and the cookie that is written.
  unfoldable pub advise : Option ℕ → Bool → Run World (ℕ × Option ℕ)
  unfolding find_holder failed through
  advise none given = pure (Code.e_pointer, none)
  advise (some sink) false = pure (Code.e_pointer, none)
  advise (some sink) true = do
    r ← find_holder
    if failed (r.0) then pure (r.0, none) else do
      through (r.1)
      a ← ask (host.holder_advised sink)
      tell (Call.holder_advise sink)
      pure (a.0, some (a.1))

  unfoldable pub unadvise : ℕ → Run World ℕ
  unadvise cookie = do
    holder ← read (λ c. c.advise_holder)
    elim holder [
      | none ↦ pure Code.e_fail
      | some h ↦ do
        hr ← ask (host.holder_unadvised cookie)
        tell (Call.holder_unadvise cookie)
        pure hr
    ]

  unfoldable pub enum_advise : Bool → World → ℕ × Option ℕ
  enum_advise false w = (Code.e_pointer, none)
  enum_advise true w = elim w.control.advise_holder [
    | none ↦ (Code.e_fail, none)
    | some h ↦ host.holder_enumerated h w.log
  ]
