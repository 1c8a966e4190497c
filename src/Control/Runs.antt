-- ===== src/Control/Runs.antt =====
-- Sequences of requests to the control of src/library/tLuaControl.cpp.
use luacom.Prelude.{
  ℕ, ◌≡◌, ◌≢◌, refl, Bool, true, false, ◌||◌, Option, List, [], ◌∷◌, arith, ◌==◌, ltb,
  if◌then◌else◌,
}
use luacom.Prelude.Int.{ℤ, pos, negsuc}
use luacom.Prelude.Result.{Result}
use luacom.Prelude.Run.{◌>>=◌, continue, pure}
use luacom.Control.Code
use luacom.Control.{failed, Size, Call, Host, World, one_if}
use luacom.Control.Protocol.{
  Phase, inactive, notified, replay, strays_in, points_in, is_active, has_window, is_ui_active, At,
  Valid, Contract,
}
use luacom.Control.Leads.{Leads, continue-Leads, if-Leads, Leads-map}
use luacom.Control.Activation.{in_place_activate, in_place_deactivate}
use luacom.Control.Object.{construct, nothing_held, close, hide, do_verb, advise}
use luacom.Control.Neutral.{
  set_client_site-At, set_extent-At, advise-At, unadvise-At, set_view_advise-At, draw-At,
  quick_activate-At, gives_events,
}
use luacom.Control.Requests.{
  Request, sets_client_site, closes, does_verb, enters_ui, deactivates, ui_deactivates, sets_rects,
  sets_extent, advises, unadvises, sets_view_advise, draws, quick_activates, serve, serve_all,
}
use luacom.Control.Kept.{
  Keeps, Closed, Stays-Valid, unsettled, close-inactive, in_place_deactivate-inactive, hidden,
  hidden-settled, hide-At, ui_deactivate-hidden, set_object_rects-At, in_place_activate-Valid,
}

-- Whether a request, or one of some requests, is a QuickActivate with an event sink.
abbrev pub asks_events : Request → Bool
asks_events (quick_activates args) = gives_events args
asks_events _ = false

unfoldable pub some_events : List Request → Bool
some_events [] = false
some_events (r ∷ rs) = let rest = some_events rs in asks_events r || rest

either : {a : Bool} (b : Bool) → a ≡ true → (b || a) ≡ true
either b e = ground (arith, e)

-- Close and InPlaceDeactivate
Closed-Valid : (o : Result ℕ × World) → Leads Closed o → Leads Keeps o
Closed-Valid o h = Leads-map Closed Keeps o h (λ hr v q. unsettled inactive v (q.1) (λ e. cc))

module _ (host : Host) where
  primary-Valid :
      (p : Phase) (w : World)
      → At p w
      → p ≢ notified
      → Contract host
      → Leads Keeps (
          (in_place_activate host false >>= λ hr.
          pure (if failed hr then hr else Code.oleobj_s_invalidverb))
            w)
  unfolding continue
  primary-Valid p w k n c =
      let o = in_place_activate host false w in
      continue-Leads (Keeps {A = ℕ}) Keeps (o.0) (o.1) _
        (in_place_activate-Valid host false p w k n c) (λ hr v q. (_, refl, q))

  do_verb-Valid :
      (verb : ℤ) (p : Phase) (w : World)
      → At p w
      → p ≢ notified
      → Contract host
      → Leads Keeps (do_verb host verb w)
  unfolding do_verb
  do_verb-Valid (negsuc n) p w k s c =
      if-Leads Keeps (n == 0 || n == 3 || n == 4) (in_place_activate host (n == 3)) _ w
        (λ e. in_place_activate-Valid host (n == 3) p w k s c)
        (λ e.
          if-Leads Keeps (n == 2) (hide host) (pure Code.e_notimpl) w
            (λ f. Stays-Valid (hidden p) (hide host w) (hidden-settled p s) (hide-At host p w k))
            (λ f. (Code.e_notimpl, refl, unsettled p w k s)))
  do_verb-Valid (pos n) p w k s c =
      if-Leads Keeps (ltb 0 n) _ (pure Code.e_notimpl) w (λ e. primary-Valid p w k s c)
        (λ e. (Code.e_notimpl, refl, unsettled p w k s))

  serve-Valid :
      (r : Request) (w : World)
      → Contract host
      → (asks_events r ≡ true → (l : List Call) → host.connectable l ≡ true)
      → Valid w
      → Leads Keeps (serve host r w)
  unfolding serve continue
  serve-Valid (sets_client_site site) w c f k =
      Leads-map (λ hr v. (hr ≡ 0) × At k.phase v) Keeps _
        (set_client_site-At host site k.phase w k.at)
        (λ hr v q. unsettled k.phase v (q.1) k.settled)
  serve-Valid (closes option) w c f k =
      Closed-Valid (close host option w) (close-inactive host option k.phase w k.at k.settled)
  serve-Valid (does_verb verb) w c f k = do_verb-Valid verb k.phase w k.at k.settled c
  serve-Valid enters_ui w c f k = in_place_activate-Valid host true k.phase w k.at k.settled c
  serve-Valid deactivates w c f k =
      Closed-Valid (in_place_deactivate host w)
        (in_place_deactivate-inactive host k.phase w k.at k.settled)
  serve-Valid ui_deactivates w c f k =
      Stays-Valid (hidden k.phase) _ (hidden-settled k.phase k.settled)
        (ui_deactivate-hidden k.phase w k.at)
  serve-Valid (sets_rects rect clip) w c f k =
      Stays-Valid k.phase _ k.settled (set_object_rects-At host rect clip k.phase w k.at)
  serve-Valid (sets_extent aspect size) w c f k =
      Stays-Valid k.phase _ k.settled (set_extent-At host aspect size k.phase w k.at k.settled)
  serve-Valid (advises sink given) w c f k =
      let o = advise host sink given w in
      continue-Leads (Keeps {A = ℕ × Option ℕ}) Keeps (o.0) (o.1) _
        (Stays-Valid k.phase o k.settled (advise-At host sink given k.phase w k.at c))
        (λ r v q. (r.0, refl, q))
  serve-Valid (unadvises cookie) w c f k =
      Stays-Valid k.phase _ k.settled (unadvise-At host cookie k.phase w k.at)
  serve-Valid (sets_view_advise aspects flags sink) w c f k =
      Stays-Valid k.phase _ k.settled (set_view_advise-At host aspects flags sink k.phase w k.at)
  serve-Valid (draws aspect target given bounds) w c f k =
      Stays-Valid k.phase _ k.settled (draw-At host aspect target given bounds k.phase w k.at)
  serve-Valid (quick_activates args) w c f k =
      Stays-Valid k.phase _ k.settled (quick_activate-At host args k.phase w k.at c f)

  serve_all-Valid :
      (rs : List Request) (w : World)
      → Contract host
      → (some_events rs ≡ true → (l : List Call) → host.connectable l ≡ true)
      → Valid w
      → Leads Keeps (serve_all host rs w)
  unfolding serve_all continue some_events
  serve_all-Valid [] w c f k = (tt, refl, k)
  serve_all-Valid (r ∷ rs) w c f k =
      continue-Leads (Keeps {A = ℕ}) Keeps (serve host r w).0 (serve host r w).1 _
        (serve-Valid r w c (λ e. f (rw e refl)) k)
        (λ hr v q. serve_all-Valid rs v c (λ e. f (either (asks_events r) e)) q)

-- A new control, among other things that the process has done.
abbrev pub new_world : Option Size → Bool → Bool → Option ℕ → World
new_world initial prime once parking = record {
  control = construct initial prime once;
  held = nothing_held;
  log = [];
  parking = parking;
}

new-Valid :
    (initial : Option Size) (prime once : Bool) (parking : Option ℕ)
    → Valid (new_world initial prime once parking)
unfolding construct replay is_active has_window is_ui_active one_if strays_in points_in
new-Valid initial prime once parking = record {
  phase = inactive;
  settled = λ e. cc;
  at = ground arith;
}

-- A new control, asked for anything in any order by a container that keeps to OLE's rules, and
-- connectable if QuickActivate is given an event sink, comes back from each request without a call
-- through NULL. Then it is not amid an activation, its calls so far are those that the protocol of
-- in-place activation allows, its flags say in which phase this leaves it, and it holds exactly what
-- its fields name, beside a connection point for each that QuickActivate has got, and a window for
-- each call of DestroyWindow that has failed.
pub serve_all-new :
    (host : Host) (rs : List Request) (initial : Option Size) (prime once : Bool)
    (parking : Option ℕ)
    → Contract host
    → (some_events rs ≡ true → (l : List Call) → host.connectable l ≡ true)
    → Leads (λ u v. Valid v) (serve_all host rs (new_world initial prime once parking))
serve_all-new host rs initial prime once parking c f =
    serve_all-Valid host rs _ c f (new-Valid initial prime once parking)

-- From a state of the invariant, Close succeeds, whatever its option, and leaves the control
-- inactive, with what this means for its calls, its flags and what it holds.
pub close-Closed :
    (host : Host) (option : ℕ) (w : World) → Valid w → Leads Closed (close host option w)
close-Closed host option w k = close-inactive host option k.phase w k.at k.settled
