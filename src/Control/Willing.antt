-- ===== src/Control/Willing.antt =====
-- InPlaceActivate of src/library/tLuaControl.cpp with a container that does all that it is asked.
use luacom.Prelude.{
  ℕ, ◌≡◌, ◌≢◌, refl, sym, ◌∙◌, Bool, true, false, not, Option, none, some, List, ◌∷◌, arith, ◌==◌,
  inl, inr, if◌then◌else◌,
}
use luacom.Prelude.Int.{ℤ}
use luacom.Prelude.Result.{ok_eq, Result}
use luacom.Prelude.Run.{continue, pure}
use luacom.Control.Code
use luacom.Control.{failed, rect_size, Rect, Size, Call, Host, World, is_some}
use luacom.Control.Protocol.{
  Phase, inactive, notified, windowed, ui_active, is_active, has_window, At, Valid, Contract,
}
use luacom.Control.Leads.{
  Leads, answer_or, continue-Leads, if-Leads, Leads-map, none-Leads, some-Leads, through-Leads,
}
use luacom.Control.Window.{ensure_parent, get_parking_window, make_window, create_in_place_window}
use luacom.Control.Activation.{
  open_window, take_context, enter, find_in_place_site, show_up, in_place_activate,
}
use luacom.Control.Valid.{set_object_rects-windowless}
use luacom.Control.Entering.{
  Activated, shown, Visible, Entered, accepted, context_taken, Sited, ShownUp, rest_of, show_up-At,
  enter-Entered, find_in_place_site-At, in_place_activate-Activated,
}

-- A container that lets the control become active, and a table that makes a window.
pub record Willing (host : Host) : Type 0 where
  pub has_site : (client : ℕ) (l : List Call) → failed (host.in_place_site_of client l).0 ≡ false
  pub can : (l : List Call) → host.can_activate l ≡ 0
  pub accepts : (l : List Call) → failed (host.activated l) ≡ false
  pub has_parent : (l : List Call) → failed (host.parent_window l).0 ≡ false
  pub has_context : (l : List Call) → failed (host.context l).result ≡ false
  pub makes_window :
      (parent : Option ℕ) (x y : ℤ) (size : Size) (l : List Call)
      → is_some (elim (host.lua_create_window parent x y size l) [ none ↦ none | some h ↦ h ])
        ≡ true

-- Two conclusions about one run.
Leads-both :
    {A : Type 0} (Q R : A → World → Type 0) (o : Result A × World)
    → Leads Q o
    → Leads R o
    → Leads (λ a v. Q a v × R a v) o
Leads-both Q R o (a, e, q) (b, f, r) =
    let same : b ≡ a = ok_eq (sym f ∙ e) in (a, e, (q, rw⁻¹ same r))

-- That a run ends, and no more.
abbrev Ends : Option ℕ → World → Type 0
Ends r v = r ≡ r

abbrev Opened : Option ℕ → World → Type 0
Opened h v = is_some h ≡ true

abbrev Succeeds : ℕ → World → Type 0
Succeeds hr v = failed hr ≡ false

module _ (host : Host) (willing : Willing host) where
  make_window-some :
      (x y : ℤ) (parent : Option ℕ) (w : World) → Leads Opened (make_window host x y parent w)
  unfolding make_window continue answer_or
  make_window-some x y parent w = (
    answer_or none (make_window host x y parent w).0,
    ground (arith, willing.makes_window parent x y w.control.size w.log),
    ground (arith, willing.makes_window parent x y w.control.size w.log),
  )

  ensure_parent-Ends : (w : World) → Leads Ends (ensure_parent host w)
  unfolding ensure_parent get_parking_window continue answer_or
  ensure_parent-Ends w = (answer_or none (ensure_parent host w).0, ground arith, refl)

  create_in_place_window-some :
      (x y : ℤ) (w : World)
      → w.control.hwnd ≡ none
      → Leads Opened (create_in_place_window host x y w)
  unfolding create_in_place_window continue
  create_in_place_window-some x y w e = none-Leads Opened w.control.hwnd _ _ w e (
      continue-Leads Ends Opened (ensure_parent host w).0 (ensure_parent host w).1 _
        (ensure_parent-Ends w)
        (λ (r : Option ℕ) (v : World) (q : Ends r v). make_window-some x y r v))

  open_window-Succeeds :
      (rect clip : Rect) (w : World)
      → w.control.hwnd ≡ none
      → Leads Succeeds (open_window host rect clip w)
  unfolding open_window continue failed
  open_window-Succeeds rect clip w e =
      rw
        (set_object_rects-windowless host rect clip
          (record w { control = record w.control { size = rect_size rect } }) e)
        (let v = record w {
          control = record w.control { size = rect_size rect; location = some rect };
        } in
          let o = create_in_place_window host rect.left rect.top v in
          continue-Leads Opened Succeeds (o.0) (o.1) _
            (create_in_place_window-some rect.left rect.top v e) (λ h u q. rw q (0, refl, refl)))

  take_context-Succeeds : (w : World) → w.control.hwnd ≡ none → Leads Succeeds (take_context host w)
  unfolding take_context continue
  take_context-Succeeds w e =
      let x = host.context w.log in
      let v = context_taken x w in
      if-Leads Succeeds (failed x.result) _ (open_window host x.pos x.clip) v
        (λ f. absurd (ground (arith, willing.has_context w.log)))
        (λ f. open_window-Succeeds x.pos x.clip v e)

  enter-Succeeds :
      (w : World)
      → w.control.hwnd ≡ none
      → is_some w.control.in_place_site ≡ true
      → Leads Succeeds (enter host w)
  unfolding enter continue
  enter-Succeeds w e s =
      let can = host.can_activate w.log in
      let v = record w { log = Call.can_in_place_activate can ∷ w.log } in
      let hr = host.activated v.log in
      let x = record v { log = Call.on_in_place_activate hr ∷ v.log } in
      let parent = host.parent_window x.log in
      through-Leads Succeeds w.control.in_place_site w _ s (
        if-Leads Succeeds (not (can == Code.s_ok)) _ _ v
          (λ f. absurd (ground (arith, willing.can w.log)))
          (λ f.
            if-Leads Succeeds (failed hr) _ _ x
              (λ g. absurd (ground (arith, willing.accepts v.log)))
              (λ g.
                if-Leads Succeeds (failed (parent.0)) _ _ (accepted hr (parent.1) v)
                  (λ i. absurd (ground (arith, willing.has_parent x.log)))
                  (λ i. take_context-Succeeds (accepted hr (parent.1) v) e))))

  find_in_place_site-Succeeds :
      (client : ℕ) (w : World) → Leads Succeeds (find_in_place_site host client w)
  unfolding find_in_place_site continue answer_or failed
  find_in_place_site-Succeeds client w = (
    answer_or 0 (find_in_place_site host client w).0,
    ground arith,
    ground (arith, willing.has_site client w.log),
  )

  shown-Succeeds :
      (verb : Bool) (p : Phase) (v : World)
      → At p v
      → has_window p ≡ true
      → Leads Succeeds (show_up host verb v)
  unfolding failed
  shown-Succeeds verb p v k h =
      Leads-map (ShownUp verb p) Succeeds (show_up host verb v) (show_up-At host verb p v k h)
        (λ r u q. rw (q.0) refl)

  Entered-Succeeds :
      (verb : Bool) (hr : ℕ) (v : World)
      → Entered hr v
      → failed hr ≡ false
      → Leads Succeeds ((if failed hr then pure hr else show_up host verb) v)
  unfolding has_window
  Entered-Succeeds verb hr v (inl (f, k)) e = absurd cc
  Entered-Succeeds verb hr v (inr (z, k)) e = rw e (shown-Succeeds verb windowed v k refl)

  sited-Succeeds :
      (verb : Bool) (p : Phase) (v : World)
      → At p v
      → p ≢ notified
      → is_some v.control.in_place_site ≡ true
      → Contract host
      → Leads Succeeds (rest_of host (is_active p) verb v)
  unfolding continue is_active has_window failed
  sited-Succeeds verb inactive v k n s c =
      let o = enter host v in
      continue-Leads (λ hr u. Entered hr u × Succeeds hr u) Succeeds (o.0) (o.1) _
        (Leads-both Entered Succeeds o (enter-Entered host v k s c)
          (enter-Succeeds v (ground (arith, k.window)) s))
        (λ hr u q. Entered-Succeeds verb hr u (q.0) (q.1))
  sited-Succeeds verb notified v k n s c = absurd (n refl)
  sited-Succeeds verb windowed v k n s c = shown-Succeeds verb windowed v k refl
  sited-Succeeds verb ui_active v k n s c = shown-Succeeds verb ui_active v k refl

  in_place_activate-Succeeds :
      (verb : Bool) (client : ℕ) (p : Phase) (w : World)
      → At p w
      → p ≢ notified
      → w.control.client_site ≡ some client
      → Contract host
      → Leads Succeeds (in_place_activate host verb w)
  unfolding in_place_activate continue
  in_place_activate-Succeeds verb client p w k n e c =
      some-Leads Succeeds w.control.client_site (pure Code.s_ok) _ w client e (
        let o = find_in_place_site host client w in
        continue-Leads (λ hr v. Sited p hr v × Succeeds hr v) Succeeds (o.0) (o.1) _
          (Leads-both (Sited p) Succeeds o (find_in_place_site-At host client p w k c)
            (find_in_place_site-Succeeds client w))
          (λ hr v q. rw (q.1, k.active) (sited-Succeeds verb p v (q.0.0) n (q.0.1 (q.1)) c)))

  activated :
      (verb : Bool) (p : Phase) (hr : ℕ) (v : World)
      → Activated verb p hr v
      → failed hr ≡ false
      → (hr ≡ 0) × Visible (shown verb p) v
  activated verb p hr v (inl (f, i, k)) e = absurd cc
  activated verb p hr v (inr k) e = k

  -- Between two requests, InPlaceActivate of a control with a client site succeeds with a container
  -- that lets it become active and a table that makes a window: the window is there and to be seen,
  -- and the control has the elements of the user interface where they are asked for or where it had
  -- them before.
  pub in_place_activate-Visible :
      (verb : Bool) (client : ℕ) (w : World) (k : Valid w)
      → w.control.client_site ≡ some client
      → Contract host
      → Leads (λ hr v. (hr ≡ 0) × Visible (shown verb k.phase) v) (in_place_activate host verb w)
  in_place_activate-Visible verb client w k e c =
      let o = in_place_activate host verb w in
      Leads-map (λ hr v. Activated verb k.phase hr v × Succeeds hr v) _ o
        (Leads-both (Activated verb k.phase) Succeeds o
          (in_place_activate-Activated host verb client k.phase w k.at k.settled e c)
          (in_place_activate-Succeeds verb client k.phase w k.at k.settled e c))
        (λ hr v q. activated verb k.phase hr v (q.0) (q.1))
