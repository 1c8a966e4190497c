-- ===== src/Control/Requests.antt =====
-- What a client may ask of the control of src/library/tLuaControl.cpp, in any order.
use luacom.Prelude.{ℕ, Bool, true, Option, List, [], ◌∷◌}
use luacom.Prelude.Int.{ℤ}
use luacom.Prelude.Run.{Run, ◌>>=◌, pure}
use luacom.Control.{Rect, Size, Host, World}
use luacom.Control.Window.{set_object_rects}
use luacom.Control.Activation.{in_place_activate, in_place_deactivate, ui_deactivate}
use luacom.Control.Object.{set_client_site, close, do_verb, set_extent, advise, unadvise}
use luacom.Control.View.{set_view_advise, draw, QuickArgs, quick_activate}

-- The methods that change the control, with their arguments; `enters_ui` is OnMnemonic,
-- OnFrameWindowActivate and OnDocWindowActivate, which are one.
pub data Request : Type 0 where
  sets_client_site : Option ℕ → Request
  closes : ℕ → Request
  does_verb : ℤ → Request
  enters_ui deactivates ui_deactivates : Request
  sets_rects : Option Rect → Option Rect → Request
  sets_extent : ℕ → Option Size → Request
  advises : Option ℕ → Bool → Request
  unadvises : ℕ → Request
  sets_view_advise : ℕ → ℕ → Option ℕ → Request
  draws : ℕ → Bool → Bool → Option Rect → Request
  quick_activates : Option QuickArgs → Request

module _ (host : Host) where
  unfoldable pub serve : Request → Run World ℕ
  unfolding set_client_site close do_verb in_place_activate in_place_deactivate ui_deactivate
      set_object_rects set_extent advise unadvise set_view_advise draw quick_activate
  serve (sets_client_site site) = set_client_site host site
  serve (closes option) = close host option
  serve (does_verb verb) = do_verb host verb
  serve enters_ui = in_place_activate host true
  serve deactivates = in_place_deactivate host
  serve ui_deactivates = ui_deactivate
  serve (sets_rects rect clip) = set_object_rects host rect clip
  serve (sets_extent aspect size) = set_extent host aspect size
  serve (advises sink given) = advise host sink given >>= λ r. pure (r.0)
  serve (unadvises cookie) = unadvise host cookie
  serve (sets_view_advise aspects flags sink) = set_view_advise aspects flags sink
  serve (draws aspect target given bounds) = draw host aspect target given bounds
  serve (quick_activates args) = quick_activate host args

  -- A sequence of requests, whatever each one answers.
  unfoldable pub serve_all : List Request → Run World (Unit {0})
  unfolding serve
  serve_all [] = pure tt
  serve_all (r ∷ rs) = serve r >>= λ hr. serve_all rs
