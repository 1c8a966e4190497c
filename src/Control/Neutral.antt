-- ===== src/Control/Neutral.antt =====
-- The operations of the control of src/library/tLuaControl.cpp that leave its phase as it is.
use luacom.Prelude.{
  ℕ, ◌≡◌, ◌≢◌, refl, Bool, true, false, not, Option, none, some, List, ◌∷◌, arith, if◌then◌else◌,
}
use luacom.Prelude.Run.{Run, ◌>>=◌, ◌>>◌, continue, pure, when}
use luacom.Control.Code
use luacom.Control.{failed, Rect, Size, Call, Host, World, is_some, one_if, setting, through}
use luacom.Control.Protocol.{
  Phase, inactive, notified, windowed, ui_active, step, replay, strays_in, points_in, is_active,
  has_window, At, Contract,
}
use luacom.Control.Leads.{Leads, answer_or, continue-Leads, if-Leads, Leads-map, through-Leads}
use luacom.Control.Object.{
  has_content, set_client_site, set_extent, fit_extent, resize, announce_rect, find_holder, advise,
  unadvise,
}
use luacom.Control.View.{
  set_view_advise, draw, QuickArgs, quick_activate, connect_client, connect_events, connect_advise,
}

-- What holds of the phase alone.
abbrev pub Stays : {A : Type 0} → Phase → A → World → Type 0
Stays p a v = At p v

-- Whether QuickActivate is given an event sink.
abbrev pub gives_events : Option QuickArgs → Bool
gives_events none = false
gives_events (some q) = is_some q.event_sink

module _ (host : Host) where
  pub set_client_site-At :
      (site : Option ℕ) (p : Phase) (w : World)
      → At p w
      → Leads (λ hr v. (hr ≡ 0) × At p v) (set_client_site host site w)
  unfolding set_client_site continue replay step one_if strays_in points_in
  set_client_site-At site p w k = ground arith

  announce_rect-At :
      (p : Phase) (w : World)
      → At p w
      → p ≢ notified
      → Leads (λ u v. At p v) (when w.control.in_place_active (announce_rect host) w)
  unfolding announce_rect through continue replay step is_active has_window strays_in points_in
  announce_rect-At inactive w k n = ground (arith, k.active)
  announce_rect-At notified w k n = absurd (n refl)
  announce_rect-At windowed w k n = ground (arith, k.active)
  announce_rect-At ui_active w k n = ground (arith, k.active)

  resize-At : (p : Phase) (w : World) → At p w → Leads (λ u v. At p v) (resize host w)
  unfolding resize continue replay step strays_in points_in
  resize-At p w k = ground arith

  resized-At :
      (accepted : Bool) (s : Size) (p : Phase) (w : World)
      → At p w
      → At p (when accepted (setting (λ c. record c { size = s })) w).1
  resized-At accepted s p w k = ground arith

  announced-At :
      (hr : ℕ) (p : Phase) (w : World)
      → At p w
      → p ≢ notified
      → Leads
          (Stays p)
          ((when w.control.in_place_active (announce_rect host) >> (resize host >> pure hr)) w)
  unfolding continue
  announced-At hr p w k n =
      let first = when w.control.in_place_active (announce_rect host) w in
      continue-Leads (Stays {A = Unit {0}} p) (Stays p) (first.0) (first.1) _
        (announce_rect-At p w k n)
        (λ u v q.
          continue-Leads (Stays {A = Unit {0}} p) (Stays p) (resize host v).0 (resize host v).1 _
            (resize-At p v q) (λ u x r. (hr, refl, r)))

  fit_extent-At :
      (s : Size) (accepted : Bool) (p : Phase) (w : World)
      → At p w
      → p ≢ notified
      → Leads (Stays p) (fit_extent host s accepted w)
  unfolding fit_extent continue
  fit_extent-At s true p w k n =
      announced-At Code.s_ok p _ (resized-At true (host.to_pixels s) p w k) n
  fit_extent-At s false p w k n = announced-At Code.e_fail p w k n

  told-At :
      (s : Size) (p : Phase) (w : World)
      → At p w
      → At p (record w { log = Call.lua_set_extent s ∷ w.log })
  unfolding replay step strays_in points_in
  told-At s p w k = ground arith

  extent_answered-At :
      (s : Size) (r : Option Bool) (p : Phase) (w : World)
      → At p w
      → p ≢ notified
      → Leads (Stays p) (
          (elim r as (λ o. Run World ℕ) [
            | none ↦ pure Code.e_fail
            | some accepted ↦ fit_extent host s accepted
          ])
            w)
  extent_answered-At s none p w k n = (Code.e_fail, refl, k)
  extent_answered-At s (some accepted) p w k n = fit_extent-At s accepted p w k n

  pub set_extent-At :
      (aspect : ℕ) (s : Option Size) (p : Phase) (w : World)
      → At p w
      → p ≢ notified
      → Leads (Stays p) (set_extent host aspect s w)
  unfolding set_extent continue
  set_extent-At aspect none p w k n = (Code.e_pointer, refl, k)
  set_extent-At aspect (some s) p w k n =
      if-Leads (Stays p) (not (has_content aspect)) (pure Code.dv_e_dvaspect) _ w
        (λ e. (Code.dv_e_dvaspect, refl, k))
        (λ e.
          extent_answered-At s (host.lua_extent_accepted (host.to_pixels s) w.log) p _
            (told-At (host.to_pixels s) p w k) n)

  abbrev Holder : Phase → ℕ × Option ℕ → World → Type 0
  Holder p r v = At p v × (failed (r.0) ≡ false → is_some (r.1) ≡ true)

  find_holder-At :
      (p : Phase) (w : World)
      → At p w
      → Contract host
      → Leads (λ r v. At p v × (failed (r.0) ≡ false → is_some (r.1) ≡ true)) (find_holder host w)
  unfolding find_holder continue replay step one_if answer_or failed strays_in points_in
  find_holder-At p w k c = (
    answer_or (0, none) (find_holder host w).0,
    ground arith,
    (ground arith, ground (arith, c.gives_holder w.log)),
  )

  pub unadvise-At :
      (cookie : ℕ) (p : Phase) (w : World)
      → At p w
      → Leads (λ hr v. At p v) (unadvise host cookie w)
  unfolding unadvise continue replay step answer_or strays_in points_in
  unadvise-At cookie p w k = (answer_or 0 (unadvise host cookie w).0, ground arith, ground arith)

  pub set_view_advise-At :
      (aspects flags : ℕ) (sink : Option ℕ) (p : Phase) (w : World)
      → At p w
      → Leads (λ hr v. At p v) (set_view_advise aspects flags sink w)
  unfolding set_view_advise continue replay step one_if answer_or strays_in points_in
  set_view_advise-At aspects flags sink p w k =
      (answer_or 0 (set_view_advise aspects flags sink w).0, ground arith, ground arith)

  pub draw-At :
      (aspect : ℕ) (target given : Bool) (bounds : Option Rect) (p : Phase) (w : World)
      → At p w
      → Leads (λ hr v. At p v) (draw host aspect target given bounds w)
  unfolding draw continue replay step answer_or strays_in points_in
  draw-At aspect target given bounds p w k =
      (answer_or 0 (draw host aspect target given bounds w).0, ground arith, ground arith)

  sink_told-At :
      (sink : ℕ) (p : Phase) (w : World)
      → At p w
      → At p (record w { log = Call.holder_advise sink ∷ w.log })
  unfolding replay step strays_in points_in
  sink_told-At sink p w k = ground arith

  pub advise-At :
      (sink : Option ℕ) (given : Bool) (p : Phase) (w : World)
      → At p w
      → Contract host
      → Leads (Stays p) (advise host sink given w)
  unfolding advise continue
  advise-At none given p w k c = ((Code.e_pointer, none), refl, k)
  advise-At (some sink) false p w k c = ((Code.e_pointer, none), refl, k)
  advise-At (some sink) true p w k c =
      let o = find_holder host w in
      continue-Leads (Holder p) (Stays p) (o.0) (o.1) _ (find_holder-At p w k c) (λ r v q.
        if-Leads (Stays p) (failed (r.0)) (pure (r.0, none)) _ v (λ e. ((r.0, none), refl, q.0))
          (λ e. through-Leads (Stays p) (r.1) v _ (q.1 e) (_, refl, sink_told-At sink p v (q.0))))

  connect_client-At :
      (site : Option ℕ) (p : Phase) (w : World)
      → At p w
      → Leads (Stays p) (connect_client host site w)
  unfolding connect_client
  connect_client-At none p w k = (Code.s_ok, refl, k)
  connect_client-At (some s) p w k =
      Leads-map (λ hr v. (hr ≡ 0) × At p v) (Stays p) (set_client_site host (some s) w)
        (set_client_site-At (some s) p w k) (λ hr v q. q.1)

  connect_events-At :
      (sink : Option ℕ) (p : Phase) (w : World)
      → At p w
      → (is_some sink ≡ true → host.connectable w.log ≡ true)
      → Leads (Stays p) (connect_events host sink w)
  unfolding connect_events continue replay step answer_or strays_in points_in
  connect_events-At none p w k f = (Code.s_ok, refl, k)
  connect_events-At (some sink) p w k f =
      let there = f refl in
      (answer_or 0 (connect_events host (some sink) w).0, ground arith, ground arith)

  connect_advise-At :
      (sink : Option ℕ) (p : Phase) (w : World)
      → At p w
      → Contract host
      → Leads (Stays p) (connect_advise host sink w)
  unfolding connect_advise continue
  connect_advise-At none p w k c = (Code.s_ok, refl, k)
  connect_advise-At (some sink) p w k c =
      let o = advise host (some sink) true w in
      continue-Leads (Stays p) (Stays p) (o.0) (o.1) _ (advise-At (some sink) true p w k c)
        (λ r v q. (r.0, refl, q))

  -- One part of a method after another, as long as none fails.
  then-At :
      (p : Phase) (m : Run World ℕ) (next : Run World ℕ) (w : World)
      → Leads (Stays p) (m w)
      → ((v : World) → At p v → Leads (Stays p) (next v))
      → Leads (Stays p) ((m >>= λ hr. if failed hr then pure hr else next) w)
  then-At p m next w h f =
      continue-Leads (Stays p) (Stays p) (m w).0 (m w).1 _ h (λ hr v q.
        if-Leads (Stays p) (failed hr) (pure hr) next v (λ e. (hr, refl, q)) (λ e. f v q))

  pub quick_activate-At :
      (args : Option QuickArgs) (p : Phase) (w : World)
      → At p w
      → Contract host
      → (gives_events args ≡ true → (l : List Call) → host.connectable l ≡ true)
      → Leads (Stays p) (quick_activate host args w)
  unfolding quick_activate
  quick_activate-At none p w k c f = (Code.e_unexpected, refl, k)
  quick_activate-At (some q) p w k c f =
      then-At p (connect_client host q.client_site) _ w (connect_client-At q.client_site p w k)
        (λ v k'.
          then-At p (connect_events host q.event_sink) _ v
            (connect_events-At q.event_sink p v k' (λ e. f e v.log))
            (λ x k''.
              let o = connect_advise host q.advise_sink x in
              continue-Leads (Stays p) (Stays p) (o.0) (o.1) _
                (connect_advise-At q.advise_sink p x k'' c) (λ hr y r. (_, refl, r))))
