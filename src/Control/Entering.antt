-- ===== src/Control/Entering.antt =====
-- How InPlaceActivate of src/library/tLuaControl.cpp ends.
use luacom.Prelude.{
  ℕ, ◌+◌, ◌≡◌, ◌≢◌, ◌⊎◌, refl, Bool, true, false, not, ◌&&◌, Option, none, some, ◌∷◌, arith, ◌==◌,
  if◌then◌else◌, inl, inr,
}
use luacom.Prelude.Run.{Run, ◌>>=◌, continue, pure, when}
use luacom.Control.Code
use luacom.Control.{
  failed, rect_size, Rect, Size, Call, Context, Host, World, is_some, one_if, through,
}
use luacom.Control.Protocol.{
  Phase, inactive, notified, windowed, ui_active, step, replay, strays_in, points_in, is_active,
  has_window, is_ui_active, At,
}
use luacom.Control.Leads.{
  Leads, answer_or, continue-Leads, if-Leads, Leads-map, through-Leads, some-Leads,
}
use luacom.Control.Window.{create_in_place_window, set_in_place_visible}
use luacom.Control.Activation.{
  give_up, ui_activate, open_window, take_context, enter, find_in_place_site, show_up,
  in_place_activate,
}
use luacom.Control.Protocol.{Contract}
use luacom.Control.Valid.{
  Made, give_up-At, give_up-inactive, create_in_place_window-At, set_object_rects-windowless,
}

-- The state once OnInPlaceActivate has accepted, and GetWindow has answered.
abbrev pub accepted : ℕ → Option ℕ → World → World
accepted hr parent w = record w {
  log = Call.site_get_window ∷ Call.on_in_place_activate hr ∷ w.log;
  control = record w.control { in_place_active = true; hwnd_parent = parent };
}

e_fail-failed : failed Code.e_fail ≡ true
unfolding failed
e_fail-failed = refl

s_ok-succeeded : failed Code.s_ok ≡ false
unfolding failed
s_ok-succeeded = refl

-- The state once GetWindowContext has answered.
abbrev pub context_taken : Context → World → World
context_taken x w = record w {
  log = Call.get_window_context ∷ w.log;
  held = record w.held {
    frames = w.held.frames + one_if x.frame;
    ui_windows = w.held.ui_windows + one_if x.ui_window;
  };
  control = record w.control { frame = x.frame; ui_window = x.ui_window };
}

-- How an attempt to become active ends.
abbrev pub Entered : ℕ → World → Type 0
Entered hr v = ((failed hr ≡ true) × At inactive v) ⊎ ((hr ≡ 0) × At windowed v)

-- The container's site is known, or the query for it has failed.
abbrev pub Sited : Phase → ℕ → World → Type 0
Sited p hr v =
    At p v
    × (failed hr ≡ false → is_some v.control.in_place_site ≡ true)
    × (is_active p ≡ true → hr ≡ 0)

-- Where a control is when it has shown up.
unfoldable pub shown : Bool → Phase → Phase
shown true p = ui_active
shown false inactive = windowed
shown false p = p

-- A control whose window is to be seen.
unfoldable pub Visible : Phase → World → Type 0
Visible p v = At p v × (v.control.in_place_visible ≡ true)

abbrev pub ShownUp : Bool → Phase → ℕ → World → Type 0
ShownUp verb p hr v = (hr ≡ 0) × Visible (shown verb p) v

-- How InPlaceActivate ends for a control in a phase, with a client site.
abbrev pub Activated : Bool → Phase → ℕ → World → Type 0
Activated verb p hr v =
    ((failed hr ≡ true) × (p ≡ inactive) × At inactive v) ⊎ ((hr ≡ 0) × Visible (shown verb p) v)

module _ (host : Host) where
  given_up-Entered :
      (hr : ℕ) (w : World) → failed hr ≡ true → At notified w → Leads Entered (give_up host hr w)
  given_up-Entered hr w f k =
      Leads-map (λ r v. (r ≡ hr) × At inactive v) Entered (give_up host hr w)
        (give_up-At host hr w k) (λ r v q. inl (rw (q.0) f, q.1))

  opened-Entered :
      (h : Option ℕ) (w : World)
      → At (elim h [ none ↦ notified | some n ↦ windowed ]) w
      → Leads Entered ((if is_some h then pure Code.s_ok else give_up host Code.e_fail) w)
  unfolding failed
  opened-Entered none w k = given_up-Entered Code.e_fail w refl k
  opened-Entered (some n) w k = (0, refl, inr (refl, k))

  sized-At :
      (pos : Rect) (s : Size) (w : World)
      → At notified w
      → At notified (record w { control = record w.control { size = s; location = some pos } })
  sized-At pos s w k = ground arith

  open_window-Entered :
      (pos clip : Rect) (w : World)
      → At notified w
      → is_some w.control.frame ≡ true
      → Leads Entered (open_window host pos clip w)
  unfolding open_window continue failed has_window
  open_window-Entered pos clip w k f =
      rw
        (set_object_rects-windowless host pos clip
          (record w { control = record w.control { size = rect_size pos } })
          (ground (arith, k.window)))
        (let v = record w {
          control = record w.control { size = rect_size pos; location = some pos };
        } in
          let o = create_in_place_window host pos.left pos.top v in
          continue-Leads Made Entered (o.0) (o.1) _
            (create_in_place_window-At host pos.left pos.top v (sized-At pos (rect_size pos) w k) f)
            (λ h u q. opened-Entered h u q))

  context_taken-At :
      (x : Context) (w : World)
      → At notified w
      → is_some w.control.frame ≡ false
      → is_some w.control.ui_window ≡ false
      → At notified (context_taken x w)
  unfolding replay step has_window is_active is_ui_active one_if strays_in points_in
  context_taken-At x w k f u = ground arith

  take_context-Entered :
      (w : World)
      → At notified w
      → is_some w.control.frame ≡ false
      → is_some w.control.ui_window ≡ false
      → Contract host
      → Leads Entered (take_context host w)
  unfolding take_context continue
  take_context-Entered w k f u c =
      let x = host.context w.log in
      let v = context_taken x w in
      let q : At notified v = context_taken-At x w k f u in
      if-Leads Entered (failed x.result) (give_up host x.result) (open_window host x.pos x.clip) v
        (λ e. given_up-Entered x.result v e q)
        (λ e. open_window-Entered x.pos x.clip v q (c.gives_frame w.log e))

  asked-At :
      (can : ℕ) (w : World)
      → At inactive w
      → At inactive (record w { log = Call.can_in_place_activate can ∷ w.log })
  unfolding replay step strays_in points_in
  asked-At can w k = ground arith

  refused-At :
      (hr : ℕ) (w : World)
      → At inactive w
      → failed hr ≡ true
      → At inactive (record w { log = Call.on_in_place_activate hr ∷ w.log })
  unfolding replay step strays_in points_in
  refused-At hr w k e = ground arith

  accepted-At :
      (hr : ℕ) (parent : Option ℕ) (w : World)
      → At inactive w
      → is_some w.control.in_place_site ≡ true
      → failed hr ≡ false
      → At notified (accepted hr parent w)
  unfolding replay step is_active has_window is_ui_active one_if strays_in points_in
  accepted-At hr parent w k s e = ground arith

  given_up-inactive :
      (hr : ℕ) (w : World) → failed hr ≡ true → At inactive w → Leads Entered (give_up host hr w)
  given_up-inactive hr w f k =
      Leads-map (λ r v. (r ≡ hr) × At inactive v) Entered (give_up host hr w)
        (give_up-inactive host hr w k) (λ r v q. inl (rw (q.0) f, q.1))

  parent_asked-Entered :
      (hr : ℕ) (w : World)
      → At inactive w
      → is_some w.control.in_place_site ≡ true
      → failed hr ≡ false
      → Contract host
      → let parent = host.parent_window (Call.on_in_place_activate hr ∷ w.log) in
        Leads Entered (
          (if failed (parent.0) then give_up host (parent.0) else take_context host)
            (accepted hr (parent.1) w))
  parent_asked-Entered hr w k s f c =
      let parent = host.parent_window (Call.on_in_place_activate hr ∷ w.log) in
      let v = accepted hr (parent.1) w in
      let q : At notified v = accepted-At hr (parent.1) w k s f in
      if-Leads Entered (failed (parent.0)) (give_up host (parent.0)) (take_context host) v
        (λ e. given_up-Entered (parent.0) v e q)
        (λ e. take_context-Entered v q (k.frameless refl) (k.ui_frameless refl) c)

  pub enter-Entered :
      (w : World)
      → At inactive w
      → is_some w.control.in_place_site ≡ true
      → Contract host
      → Leads Entered (enter host w)
  unfolding enter continue
  enter-Entered w k s c =
      let can = host.can_activate w.log in
      let v = record w { log = Call.can_in_place_activate can ∷ w.log } in
      let hr = host.activated v.log in
      let q : At inactive v = asked-At can w k in
      through-Leads Entered w.control.in_place_site w _ s (
        if-Leads Entered (not (can == Code.s_ok)) (give_up host Code.e_fail) _ v
          (λ e. given_up-inactive Code.e_fail v e_fail-failed q)
          (λ e.
            if-Leads Entered (failed hr) (give_up host hr) _
              (record v { log = Call.on_in_place_activate hr ∷ v.log })
              (λ f. given_up-inactive hr _ f (refused-At hr v q f))
              (λ f. parent_asked-Entered hr v q s f c)))

  pub find_in_place_site-At :
      (client : ℕ) (p : Phase) (w : World)
      → At p w
      → Contract host
      → Leads (Sited p) (find_in_place_site host client w)
  unfolding find_in_place_site continue replay step one_if answer_or strays_in points_in
  find_in_place_site-At client p w k c = (
    answer_or 0 (find_in_place_site host client w).0,
    ground arith,
    (ground arith, ground (arith, c.gives_site client w.log), ground (arith, k.site)),
  )

  visible-At :
      (p : Phase) (w : World)
      → At p w
      → has_window p ≡ true
      → Leads
          (λ u v. Visible p v)
          (when (not w.control.in_place_visible) (set_in_place_visible host true) w)
  unfolding Visible set_in_place_visible continue replay step is_active has_window is_ui_active
      one_if strays_in points_in
  visible-At p w k h = ground arith

  ui-At :
      (verb shows : Bool) (p : Phase) (w : World)
      → Visible p w
      → has_window p ≡ true
      → shows ≡ is_ui_active p
      → Leads (λ u v. Visible (shown verb p) v) (when (verb && not shows) (ui_activate host) w)
  unfolding Visible ui_activate shown through continue replay step is_active has_window is_ui_active
      one_if strays_in points_in
  ui-At true true ui_active w k h e = (tt, refl, k)
  ui-At true false windowed w k h e = ground arith
  ui-At false shows windowed w k h e = (tt, refl, k)
  ui-At false shows ui_active w k h e = (tt, refl, k)
  ui-At verb shows inactive w k h e = absurd cc
  ui-At verb shows notified w k h e = absurd cc
  ui-At true true windowed w k h e = absurd cc
  ui-At true false ui_active w k h e = absurd cc

  pub show_up-At :
      (verb : Bool) (p : Phase) (w : World)
      → At p w
      → has_window p ≡ true
      → Leads (ShownUp verb p) (show_up host verb w)
  unfolding show_up continue
  show_up-At verb p w k h =
      let first = when (not w.control.in_place_visible) (set_in_place_visible host true) w in
      continue-Leads (λ u v. Visible p v) (ShownUp verb p) (first.0) (first.1) _
        (visible-At p w k h)
        (λ u v q.
          let second = when (verb && not w.control.ui_active) (ui_activate host) v in
          continue-Leads (λ u x. Visible (shown verb p) x) (ShownUp verb p) (second.0) (second.1) _
            (ui-At verb w.control.ui_active p v q h k.ui) (λ u x r. (0, refl, (refl, r))))

  shown_windowed :
      (verb : Bool) (u : World) → Visible (shown verb windowed) u → Visible (shown verb inactive) u
  unfolding shown
  shown_windowed true u q = q
  shown_windowed false u q = q

  -- What is left of InPlaceActivate when the first part has ended.
  Entered-Activated :
      (verb : Bool) (hr : ℕ) (v : World)
      → Entered hr v
      → Leads (Activated verb inactive) ((if failed hr then pure hr else show_up host verb) v)
  unfolding shown has_window
  Entered-Activated verb hr v (inl (f, k)) = rw f (hr, refl, inl (f, refl, k))
  Entered-Activated verb hr v (inr (e, k)) =
      rw (e, s_ok-succeeded)
        (Leads-map (ShownUp verb windowed) (Activated verb inactive) (show_up host verb v)
          (show_up-At verb windowed v k refl) (λ r u q. inr (q.0, shown_windowed verb u (q.1))))

  -- What is left of InPlaceActivate when the site is known.
  abbrev pub rest_of : Bool → Bool → Run World ℕ
  rest_of active verb = do
    entered ← (if active then pure Code.s_ok else enter host)
    if failed entered then pure entered else show_up host verb

  sited-Activated :
      (verb : Bool) (p : Phase) (v : World)
      → At p v
      → p ≢ notified
      → is_some v.control.in_place_site ≡ true
      → Contract host
      → Leads (Activated verb p) (rest_of (is_active p) verb v)
  unfolding continue is_active has_window failed
  sited-Activated verb inactive v k n s c =
      continue-Leads Entered (Activated verb inactive) (enter host v).0 (enter host v).1 _
        (enter-Entered v k s c) (λ hr u q. Entered-Activated verb hr u q)
  sited-Activated verb notified v k n s c = absurd (n refl)
  sited-Activated verb windowed v k n s c =
      Leads-map (ShownUp verb windowed) (Activated verb windowed) (show_up host verb v)
        (show_up-At verb windowed v k refl) (λ r u q. inr q)
  sited-Activated verb ui_active v k n s c =
      Leads-map (ShownUp verb ui_active) (Activated verb ui_active) (show_up host verb v)
        (show_up-At verb ui_active v k refl) (λ r u q. inr q)

  unsited-Activated :
      (verb : Bool) (p : Phase) (hr : ℕ) (v : World)
      → Sited p hr v
      → p ≢ notified
      → failed hr ≡ true
      → Activated verb p hr v
  unfolding is_active failed
  unsited-Activated verb inactive hr v (k, s, z) n f = inl (f, refl, k)
  unsited-Activated verb notified hr v (k, s, z) n f = absurd (n refl)
  unsited-Activated verb windowed hr v (k, s, z) n f = absurd (ground (arith, z refl))
  unsited-Activated verb ui_active hr v (k, s, z) n f = absurd (ground (arith, z refl))

  pub in_place_activate-Activated :
      (verb : Bool) (client : ℕ) (p : Phase) (w : World)
      → At p w
      → p ≢ notified
      → w.control.client_site ≡ some client
      → Contract host
      → Leads (Activated verb p) (in_place_activate host verb w)
  unfolding in_place_activate continue
  in_place_activate-Activated verb client p w k n e c =
      some-Leads (Activated verb p) w.control.client_site (pure Code.s_ok) _ w client e (
        let o = find_in_place_site host client w in
        continue-Leads (Sited p) (Activated verb p) (o.0) (o.1) _
          (find_in_place_site-At client p w k c)
          (λ hr v q.
            if-Leads (Activated verb p) (failed hr) (pure hr) _ v
              (λ f. (hr, refl, unsited-Activated verb p hr v q n f))
              (λ f. rw k.active (sited-Activated verb p v (q.0) n (q.1 f) c))))
