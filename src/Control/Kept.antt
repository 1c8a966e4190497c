-- ===== src/Control/Kept.antt =====
-- That the control of src/library/tLuaControl.cpp keeps its invariant, whatever it is asked.
use luacom.Prelude.{
  ℕ, ◌≡◌, ◌≢◌, refl, sym, ap, ◌∙◌, Bool, true, false, Option, none, some, arith, if◌then◌else◌,
  Option-cases, inl, inr,
}
use luacom.Prelude.Result.{Result}
use luacom.Prelude.Run.{Run, ◌>>◌, continue, pure, when}
use luacom.Control.Code
use luacom.Control.{failed, Rect, Call, Host, World, is_some, tell, through}
use luacom.Control.Protocol.{
  Phase, inactive, notified, windowed, ui_active, step, replay, strays_in, points_in, is_active,
  has_window, is_ui_active, At, Valid, Contract,
}
use luacom.Control.Leads.{Leads, continue-Leads, if-Leads, Leads-map, none-Leads}
use luacom.Control.Window.{set_object_rects, place, clip_region, set_in_place_visible}
use luacom.Control.Activation.{in_place_activate, in_place_deactivate, ui_deactivate}
use luacom.Control.Object.{close, hide}
use luacom.Control.Valid.{
  Clipped, clip_region-At, move_clipped-At, in_place_deactivate-windowed,
  in_place_deactivate-ui_active, ui_deactivate-At,
}
use luacom.Control.Entering.{Activated, shown, Visible, in_place_activate-Activated}
use luacom.Control.Neutral.{Stays}

-- How Close and InPlaceDeactivate end.
abbrev pub Closed : ℕ → World → Type 0
Closed hr v = (hr ≡ 0) × At inactive v

abbrev pub Keeps : {A : Type 0} → A → World → Type 0
Keeps a v = Valid v

pub Stays-Valid :
    {A : Type 0} (p : Phase) (o : Result A × World)
    → p ≢ notified
    → Leads (Stays p) o
    → Leads Keeps o
Stays-Valid p o n h =
    Leads-map (Stays p) Keeps o h (λ a v q. record { phase = p; settled = n; at = q })

pub unsettled : (p : Phase) (w : World) → At p w → p ≢ notified → Valid w
unsettled p w k n = record { phase = p; settled = n; at = k }

pub in_place_deactivate-inactive :
    (host : Host) (p : Phase) (w : World)
    → At p w
    → p ≢ notified
    → Leads (λ hr v. (hr ≡ 0) × At inactive v) (in_place_deactivate host w)
unfolding in_place_deactivate is_active continue
in_place_deactivate-inactive host inactive w k n = ground arith
in_place_deactivate-inactive host notified w k n = absurd (n refl)
in_place_deactivate-inactive host windowed w k n = in_place_deactivate-windowed host w k
in_place_deactivate-inactive host ui_active w k n = in_place_deactivate-ui_active host w k

unfoldable pub hidden : Phase → Phase
hidden ui_active = windowed
hidden p = p

pub hidden-settled : (p : Phase) → p ≢ notified → hidden p ≢ notified
unfolding hidden
hidden-settled ui_active n = λ e. cc
hidden-settled inactive n = n
hidden-settled notified n = n
hidden-settled windowed n = n

pub ui_deactivate-hidden :
    (p : Phase) (w : World) → At p w → Leads (Stays (hidden p)) (ui_deactivate w)
unfolding ui_deactivate through hidden continue replay step is_active has_window is_ui_active
    strays_in points_in
ui_deactivate-hidden inactive w k = (0, ground (arith, k.ui), ground (arith, k.ui))
ui_deactivate-hidden notified w k = (0, ground (arith, k.ui), ground (arith, k.ui))
ui_deactivate-hidden windowed w k = (0, ground (arith, k.ui), ground (arith, k.ui))
ui_deactivate-hidden ui_active w k =
    Leads-map (λ hr v. (hr ≡ 0) × At windowed v) (Stays windowed) (ui_deactivate w)
      (ui_deactivate-At w k) (λ hr v q. q.1)

saved-At :
    (told : Bool) (w : World)
    → At inactive w
    → Leads
        (λ hr v. (hr ≡ 0) × At inactive v)
        ((when told (tell Call.send_on_save) >> pure Code.s_ok) w)
unfolding continue replay step strays_in points_in
saved-At told w k = ground arith

-- A control that is not active is inactive.
unactive-At : (p : Phase) (w : World) → At p w → w.control.in_place_active ≡ false → At inactive w
unfolding is_active
unactive-At inactive w k e = k
unactive-At notified w k e = absurd (ground (arith, k.active))
unactive-At windowed w k e = absurd (ground (arith, k.active))
unactive-At ui_active w k e = absurd (ground (arith, k.active))

pub close-inactive :
    (host : Host) (option : ℕ) (p : Phase) (w : World)
    → At p w
    → p ≢ notified
    → Leads Closed (close host option w)
unfolding close continue failed
close-inactive host option p w k n =
    let first =
      (if w.control.in_place_active then in_place_deactivate host else pure Code.s_ok) w in
    continue-Leads Closed Closed (first.0) (first.1) _
      (if-Leads Closed w.control.in_place_active (in_place_deactivate host) (pure Code.s_ok) w
        (λ e. in_place_deactivate-inactive host p w k n)
        (λ e. (0, refl, (refl, unactive-At p w k e))))
      (λ hr v q. rw (q.0) (saved-At _ v (q.1)))

unseen-At :
    (host : Host) (p : Phase) (w : World)
    → At p w
    → Leads (Stays p) ((when w.control.in_place_visible (set_in_place_visible host false)) w)
unfolding set_in_place_visible continue replay step strays_in points_in
unseen-At host p w k = ground arith

pub hide-At :
    (host : Host) (p : Phase) (w : World) → At p w → Leads (Stays (hidden p)) (hide host w)
unfolding hide continue
hide-At host p w k =
    continue-Leads (Stays (hidden p)) (Stays (hidden p)) (ui_deactivate w).0 (ui_deactivate w).1 _
      (ui_deactivate-hidden p w k)
      (λ hr v q.
        let o = (when v.control.in_place_visible (set_in_place_visible host false)) v in
        continue-Leads (Stays {A = Unit {0}} (hidden p)) (Stays (hidden p)) (o.0) (o.1) _
          (unseen-At host (hidden p) v q) (λ u x r. (Code.s_ok, refl, r)))

place-At :
    (host : Host) (n : ℕ) (rect clip : Rect) (p : Phase) (w : World)
    → At p w
    → has_window p ≡ true
    → Leads (Stays p) (place host n rect clip w)
unfolding place continue
place-At host n rect clip p w k h =
    let o = clip_region host rect clip w in
    continue-Leads (Clipped p) (Stays p) (o.0) (o.1) _ (clip_region-At host p rect clip w k)
      (λ g v q. move_clipped-At host p n rect g v q h)

located-At :
    (rect : Rect) (p : Phase) (w : World)
    → At p w
    → At p (record w { control = record w.control { location = some rect } })
located-At rect p w k = ground arith

placed-At :
    (host : Host) (h : Option ℕ) (rect clip : Rect) (p : Phase) (w : World)
    → At p w
    → h ≡ w.control.hwnd
    → Leads (Stays p) (
        (elim h as (λ o. Run World ℕ) [ none ↦ pure Code.s_ok | some n ↦ place host n rect clip ])
          w)
placed-At host none rect clip p w k e = (Code.s_ok, refl, k)
placed-At host (some n) rect clip p w k e =
    place-At host n rect clip p w k (sym k.window ∙ ap is_some (sym e))

pub set_object_rects-At :
    (host : Host) (rect clip : Option Rect) (p : Phase) (w : World)
    → At p w
    → Leads (Stays p) (set_object_rects host rect clip w)
unfolding set_object_rects continue
set_object_rects-At host none clip p w k = (Code.e_pointer, refl, k)
set_object_rects-At host (some rect) none p w k = (Code.e_pointer, refl, k)
set_object_rects-At host (some rect) (some clip) p w k =
    let o =
      (elim w.control.hwnd as (λ o. Run World ℕ) [
        | none ↦ pure Code.s_ok
        | some n ↦ place host n rect clip
      ])
        w in
    continue-Leads (Stays p) (Stays p) (o.0) (o.1) _
      (placed-At host w.control.hwnd rect clip p w k refl)
      (λ hr v q.
        if-Leads (Stays p) (failed hr) (pure hr) _ v (λ e. (hr, refl, q))
          (λ e. (Code.s_ok, refl, located-At rect p v q)))

-- Where there is no client site, InPlaceActivate does nothing.
siteless :
    (host : Host) (verb : Bool) (w : World)
    → w.control.client_site ≡ none
    → Leads (λ hr v. v ≡ w) (in_place_activate host verb w)
unfolding in_place_activate continue
siteless host verb w e =
    none-Leads (λ hr v. v ≡ w) w.control.client_site (pure Code.s_ok) _ w e (Code.s_ok, refl, refl)

shown-settled : (verb : Bool) (p : Phase) → p ≢ notified → shown verb p ≢ notified
unfolding shown
shown-settled true p n = λ e. cc
shown-settled false inactive n = λ e. cc
shown-settled false notified n = n
shown-settled false windowed n = n
shown-settled false ui_active n = n

Activated-Valid :
    (verb : Bool) (p : Phase) (hr : ℕ) (w : World) → p ≢ notified → Activated verb p hr w → Valid w
unfolding Visible
Activated-Valid verb p hr w n (inl (f, e, k)) = unsettled inactive w k (λ e. cc)
Activated-Valid verb p hr w n (inr (e, k)) =
    unsettled (shown verb p) w (k.0) (shown-settled verb p n)

pub in_place_activate-Valid :
    (host : Host) (verb : Bool) (p : Phase) (w : World)
    → At p w
    → p ≢ notified
    → Contract host
    → Leads Keeps (in_place_activate host verb w)
in_place_activate-Valid host verb p w k n c = elim (Option-cases w.control.client_site) [
  | inl e ↦
      Leads-map (λ hr v. v ≡ w) Keeps (in_place_activate host verb w) (siteless host verb w e)
        (λ hr v q. rw q (unsettled p w k n))
  | inr (client, e) ↦
      Leads-map (Activated verb p) Keeps (in_place_activate host verb w)
        (in_place_activate-Activated host verb client p w k n e c)
        (λ hr v q. Activated-Valid verb p hr v n q)
]
