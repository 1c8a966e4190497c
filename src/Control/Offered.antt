-- ===== src/Control/Offered.antt =====
-- What DoVerb of src/library/tLuaControl.cpp does with the verbs that EnumVerbs offers.
use luacom.Prelude.{ℕ, ◌≡◌, Bool, true, none, [], ◌∷◌, map, arith}
use luacom.Prelude.Result.{ok}
use luacom.Prelude.Run.{continue}
use luacom.Control.Code
use luacom.Control.{Host, World}
use luacom.Control.Protocol.{inactive, At, is_active, is_ui_active, has_window}
use luacom.Control.Window.{set_in_place_visible}
use luacom.Control.Activation.{in_place_activate, ui_deactivate}
use luacom.Control.Object.{do_verb, hide}
use luacom.Control.Verbs.{Verb, verbs, hand_out, next}

-- Of the five verbs that a fresh enumerator of EnumVerbs hands out, an inactive control without a
-- client site accepts all but the fourth, OLEIVERB_PRIMARY, which it answers with E_NOTIMPL.
pub do_verb-next :
    (host : Host) (memory : ℕ → Bool) (w : World)
    → At inactive w
    → w.control.client_site ≡ none
    → map
        (λ (v : Verb ℕ). (do_verb host v.number w).0)
        (next verbs memory 5 true true (record { refs = 1; next = 0 })).verbs
      ≡ ok 0 ∷ ok 0 ∷ ok 0 ∷ ok Code.e_notimpl ∷ ok 0 ∷ []
unfolding do_verb in_place_activate hide ui_deactivate set_in_place_visible next hand_out verbs
    continue is_active is_ui_active has_window
do_verb-next host memory w k e = ground (arith, k.active, k.ui, k.visible)
