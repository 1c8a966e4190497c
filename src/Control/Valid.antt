-- ===== src/Control/Valid.antt =====
-- Where the operations of the control of src/library/tLuaControl.cpp lead.
use luacom.Prelude.{ℕ, ◌≡◌, refl, Bool, true, false, Option, none, some, arith}
use luacom.Prelude.Int.{ℤ}
use luacom.Prelude.Result.{ok}
use luacom.Prelude.Run.{continue}
use luacom.Control.{failed, Rect, Host, World, is_some, one_if, through}
use luacom.Control.Protocol.{
  Phase, inactive, notified, windowed, ui_active, step, replay, strays_in, points_in, is_active,
  has_window, is_ui_active, At,
}
use luacom.Control.Leads.{Leads, answer_or, continue-Leads, none-Leads}
use luacom.Control.Window.{
  ensure_parent, make_window, move_clipped, set_object_rects, clip_region, apply_region,
  create_in_place_window, get_parking_window, set_in_place_visible,
}
use luacom.Control.Activation.{
  ui_deactivate, in_place_deactivate, release_frame, release_ui_window, destroy_window, give_up,
  ui_activate,
}

pub ui_deactivate-At :
    (w : World) → At ui_active w → Leads (λ hr v. (hr ≡ 0) × At windowed v) (ui_deactivate w)
unfolding ui_deactivate through continue replay step is_active has_window is_ui_active strays_in
    points_in
ui_deactivate-At w k = ground arith

pub in_place_deactivate-windowed :
    (host : Host) (w : World)
    → At windowed w
    → Leads (λ hr v. (hr ≡ 0) × At inactive v) (in_place_deactivate host w)
unfolding in_place_deactivate ui_deactivate release_frame release_ui_window destroy_window through
    continue replay step is_active has_window is_ui_active one_if strays_in points_in
in_place_deactivate-windowed host w k = ground arith

pub in_place_deactivate-ui_active :
    (host : Host) (w : World)
    → At ui_active w
    → Leads (λ hr v. (hr ≡ 0) × At inactive v) (in_place_deactivate host w)
unfolding in_place_deactivate ui_deactivate release_frame release_ui_window destroy_window through
    continue replay step is_active has_window is_ui_active one_if strays_in points_in
in_place_deactivate-ui_active host w k = ground arith

-- The control has made a region for its window, or needs none, or has failed to make one.
abbrev pub Clipped : Phase → Bool × Option ℕ → World → Type 0
Clipped p g w =
    (g.0 ≡ false → g.1 ≡ none)
    × (w.held.regions ≡ one_if (g.1))
    × At p (record w { held = record w.held { regions = 0 } })

-- CreateInPlaceWindow has made a window, or none.
abbrev pub Made : Option ℕ → World → Type 0
Made r v = At (elim r [ none ↦ notified | some n ↦ windowed ]) v

-- A control that is about to make its window.
abbrev Framed : World → Type 0
Framed v = At notified v × (is_some v.control.frame ≡ true)

module _ (host : Host) where
  pub give_up-At :
      (hr : ℕ) (w : World)
      → At notified w
      → Leads (λ r v. (r ≡ hr) × At inactive v) (give_up host hr w)
  unfolding give_up release_frame release_ui_window through continue replay step is_active
      has_window is_ui_active one_if strays_in points_in
  give_up-At hr w k = ground arith

  pub give_up-inactive :
      (hr : ℕ) (w : World)
      → At inactive w
      → Leads (λ r v. (r ≡ hr) × At inactive v) (give_up host hr w)
  unfolding give_up release_frame release_ui_window through continue replay step is_active
      has_window is_ui_active one_if strays_in points_in
  give_up-inactive hr w k = ground arith

  ensure_parent-At :
      (p : Phase) (w : World)
      → At p w
      → is_some w.control.frame ≡ true
      → Leads (λ r v. At p v × (is_some v.control.frame ≡ true)) (ensure_parent host w)
  unfolding ensure_parent get_parking_window continue replay step is_active has_window is_ui_active
      one_if answer_or strays_in points_in
  ensure_parent-At p w k f = (answer_or none (ensure_parent host w).0, ground arith, ground arith)

  make_window-At :
      (x y : ℤ) (parent : Option ℕ) (w : World)
      → At notified w
      → is_some w.control.frame ≡ true
      → Leads
          (λ r v. At (elim r [ none ↦ notified | some n ↦ windowed ]) v)
          (make_window host x y parent w)
  unfolding make_window continue replay step is_active has_window is_ui_active one_if answer_or
      strays_in points_in
  make_window-At x y parent w k f =
      (answer_or none (make_window host x y parent w).0, ground arith, ground arith)

  pub clip_region-At :
      (p : Phase) (pos clip : Rect) (w : World)
      → At p w
      → Leads (Clipped p) (clip_region host pos clip w)
  unfolding clip_region continue replay step is_active has_window is_ui_active one_if answer_or
      strays_in points_in
  clip_region-At p pos clip w k =
      (answer_or (false, none) (clip_region host pos clip w).0, ground arith, ground arith)

  pub move_clipped-At :
      (p : Phase) (n : ℕ) (pos : Rect) (g : Bool × Option ℕ) (w : World)
      → Clipped p g w
      → has_window p ≡ true
      → Leads (λ r v. At p v) (move_clipped host n pos g w)
  unfolding move_clipped apply_region continue replay step is_active has_window is_ui_active one_if
      answer_or strays_in points_in
  move_clipped-At p n pos g w k h =
      (answer_or 0 (move_clipped host n pos g w).0, ground arith, ground arith)

  set_in_place_visible-At :
      (b : Bool) (w : World) (p : Phase)
      → At p w
      → has_window p ≡ true
      → Leads (λ r v. At p v) (set_in_place_visible host b w)
  unfolding set_in_place_visible through continue replay step is_active has_window is_ui_active
      one_if strays_in points_in
  set_in_place_visible-At b w p k = ground arith

  ui_activate-At : (w : World) → At windowed w → Leads (λ r v. At ui_active v) (ui_activate host w)
  unfolding ui_activate through continue replay step is_active has_window is_ui_active one_if
      strays_in points_in
  ui_activate-At w k = ground arith

  pub set_object_rects-windowless :
      (pos clip : Rect) (w : World)
      → w.control.hwnd ≡ none
      → set_object_rects host (some pos) (some clip) w
        ≡ (ok 0, record w { control = record w.control { location = some pos } })
  unfolding set_object_rects continue failed
  set_object_rects-windowless pos clip w e = rw e refl

  pub create_in_place_window-At :
      (x y : ℤ) (w : World)
      → At notified w
      → is_some w.control.frame ≡ true
      → Leads
          (λ r v. At (elim r [ none ↦ notified | some n ↦ windowed ]) v)
          (create_in_place_window host x y w)
  unfolding create_in_place_window has_window continue
  create_in_place_window-At x y w k f =
      none-Leads Made w.control.hwnd _ _ w (ground (arith, k.window)) (
        continue-Leads (λ r v. Framed v) Made (ensure_parent host w).0 (ensure_parent host w).1 _
          (ensure_parent-At notified w k f)
          (λ (r : Option ℕ) (v : World) (q : Framed v). make_window-At x y r v (q.0) (q.1)))
