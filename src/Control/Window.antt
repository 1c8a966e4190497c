-- ===== src/Control/Window.antt =====
-- The window of the control of src/library/tLuaControl.cpp: its place and region, its creation by the
-- Lua table, its visibility.
use luacom.Prelude.{
  ℕ, ◌+◌, ◌-◌, Bool, true, false, not, ◌&&◌, ◌||◌, Option, none, some, ◌∷◌, ◌==◌, if◌then◌else◌,
}
use luacom.Prelude.Int.{ℤ}
use luacom.Prelude.Run.{Run, ◌>>=◌, ◌>>◌, pure, when}
use luacom.Control.Code
use luacom.Control.{
  failed, Rect, rect_size, Call, Host, World, is_some, one_if, read, ask, setting, holding, tell,
}

module _ (host : Host) where
  -- The region to which SetObjectRects clips, or none where the window is not cut: the answer is
  -- false where the region cannot be made.
  unfoldable pub clip_region : Rect → Rect → Run World (Bool × Option ℕ)
  clip_region pos clip = elim (host.intersect pos clip) [
    | none ↦ pure (true, none)
    | some r ↦ if host.equal_rects r pos then pure (true, none) else do
      g ← ask (host.region_of r pos.left pos.top)
      tell Call.create_region
      elim g [
        | none ↦ pure (false, none)
        | some n ↦ do holding (λ h. record h { regions = h.regions + 1 }); pure (true, some n)
      ]
  ]

  -- GetLastError, with a default for 0.
  abbrev error_code : ℕ → Run World ℕ
  error_code default = do
    e ← ask host.last_error
    pure (host.hresult_from_win32 (if e == 0 then default else e))

  -- SetWindowRgn: afterwards Windows owns the region, or it is deleted.
  unfoldable pub apply_region : Option ℕ → Run World Bool
  unfolding one_if
  apply_region g = do
    done ← ask host.region_set
    tell Call.set_window_rgn
    holding (λ h. record h { regions = h.regions - one_if g })
    when done (setting (λ c. record c { has_window_rgn = is_some g }))
    pure done

  abbrev move_window : ℕ → Rect → Run World (Unit {0})
  move_window n pos = do
    parent ← read (λ c. c.hwnd_parent)
    tell (Call.place_window n parent pos.left pos.top (rect_size pos))

  -- SetObjectRects once it is known how the window is to be cut.
  unfoldable pub move_clipped : ℕ → Rect → Bool × Option ℕ → Run World ℕ
  unfolding apply_region rect_size
  move_clipped n pos g = do
    has_rgn ← read (λ c. c.has_window_rgn)
    if not (g.0)
        then error_code 8
        else if not (has_rgn || is_some (g.1))
        then (move_window n pos >> pure Code.s_ok)
        else do
          done ← apply_region (g.1)
          if not done then error_code 1 else do move_window n pos; pure Code.s_ok

  -- The part of SetObjectRects before it saves the location, where there is a window.
  unfoldable pub place : ℕ → Rect → Rect → Run World ℕ
  unfolding clip_region move_clipped
  place n pos clip = clip_region pos clip >>= move_clipped n pos

  unfoldable pub set_object_rects : Option Rect → Option Rect → Run World ℕ
  unfolding place failed
  set_object_rects none clip = pure Code.e_pointer
  set_object_rects (some pos) none = pure Code.e_pointer
  set_object_rects (some pos) (some clip) = do
    h ← read (λ c. c.hwnd)
    hr ← elim h [ none ↦ pure Code.s_ok | some n ↦ place n pos clip ]
    if failed hr
        then pure hr
        else do setting (λ c. record c { location = some pos }); pure Code.s_ok

  unfoldable pub get_parking_window : Run World (Option ℕ)
  get_parking_window w = elim w.parking [
    | some n ↦ pure (some n) w
    | none ↦
        if not (host.parking_class w.log)
        then pure none w
        else (let made = host.parking_made w.log in
            pure made (record w { parking = made; log = Call.make_parking_window ∷ w.log }))
  ]

  -- m_hwndParent, which becomes the parking window where there is none.
  unfoldable pub ensure_parent : Run World (Option ℕ)
  unfolding get_parking_window
  ensure_parent = do
    given ← read (λ c. c.hwnd_parent)
    parent ← elim given [ some n ↦ pure (some n) | none ↦ get_parking_window ]
    setting (λ c. record c { hwnd_parent = parent })
    pure parent

  -- The call of the Lua table, and what CreateInPlaceWindow does with its window.
  unfoldable pub make_window : ℤ → ℤ → Option ℕ → Run World (Option ℕ)
  unfolding one_if
  make_window x y parent = do
    c ← read (λ c. c)
    visible ← ask (host.is_window_visible parent)
    r ← ask (host.lua_create_window parent x y c.size)
    tell (Call.create_window parent x y c.size r)
    elim r [
      | none ↦ pure none
      | some h ↦ do
        holding (λ g. record g { windows = g.windows + one_if h })
        setting (λ c. record c { hwnd = h })
        elim h [
          | none ↦ pure tt
          | some n ↦ when visible (tell (Call.place_window n parent x y c.size))
        ]
        when (is_some c.client_site) (tell Call.show_object)
        pure h
    ]

  unfoldable pub create_in_place_window : ℤ → ℤ → Run World (Option ℕ)
  unfolding ensure_parent make_window
  create_in_place_window x y = do
    h ← read (λ c. c.hwnd)
    elim h [ some n ↦ pure (some n) | none ↦ ensure_parent >>= make_window x y ]

  unfoldable pub set_in_place_visible : Bool → Run World (Unit {0})
  set_in_place_visible show = do
    setting (λ c. record c { in_place_visible = show })
    h ← read (λ c. c.hwnd)
    elim h [
      | none ↦ pure tt
      | some n ↦ do
        visible ← ask (host.has_visible_style n)
        when (visible && not show || not visible && show) (tell (Call.show_window n show))
    ]
