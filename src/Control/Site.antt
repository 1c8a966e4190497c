-- ===== src/Control/Site.antt =====
-- Which in-place site the control of src/library/tLuaControl.cpp uses.
use luacom.Prelude.{ℕ, ◌≡◌, refl, some, arith}
use luacom.Prelude.Result.{ok}
use luacom.Prelude.Run.{continue}
use luacom.Control.Code
use luacom.Control.{Host, World}
use luacom.Control.Leads.{Leads}
use luacom.Control.Activation.{find_in_place_site}
use luacom.Control.Object.{set_client_site}

-- A control that has got the in-place site of a container keeps it when SetClientSite gives it
-- another client site: when it is activated next, it asks the new one for no in-place site, and
-- goes on with the old one.
pub find_in_place_site-set_client_site :
    (host : Host) (old client : ℕ) (w : World)
    → w.control.in_place_site ≡ some old
    → Leads
        (λ hr v.
          (v.control.client_site ≡ some client)
          × (v.control.in_place_site ≡ some old)
          × (find_in_place_site host client v ≡ (ok Code.s_ok, v)))
        (set_client_site host (some client) w)
unfolding set_client_site find_in_place_site continue
find_in_place_site-set_client_site host old client w e = (0, refl, (refl, e, ground arith))
