-- ===== src/Examples/Controls.antt =====
-- The theorems about the ActiveX control, at concrete inputs.
use luacom.Prelude.{
  ℕ, ◌≡◌, ◌≢◌, refl, Bool, ◌==◌, if◌then◌else◌, true, false, some, none, List, [], ◌∷◌, map, take,
  drop, length, arith,
}
use luacom.Prelude.Int.{pos, negsuc}
use luacom.Prelude.Result.{ok}
use luacom.Dispatch.Object.{Held, Server}
use luacom.Control.Code
use luacom.Control.{failed, Rect, Size, Host, World, one_if}
use luacom.Control.Protocol.{
  inactive, notified, Valid, At, Contract, replay, strays_in, points_in, is_active, has_window,
  is_ui_active,
}
use luacom.Control.Leads.{Leads}
use luacom.Control.Activation.{in_place_activate, find_in_place_site}
use luacom.Control.Object.{construct, nothing_held, set_client_site, do_verb}
use luacom.Control.Verbs.{
  Verb, VerbEnum, verbs, next, count_names, remaining, suffices, nameless, next-verbs,
}
use luacom.Control.Entering.{Activated, Visible, shown, in_place_activate-Activated}
use luacom.Control.Requests.{
  Request, sets_client_site, enters_ui, does_verb, quick_activates, sets_extent, closes, serve_all,
}
use luacom.Control.Runs.{new_world, serve_all-new}
use luacom.Control.Willing.{Willing, in_place_activate-Visible}
use luacom.Control.Offered.{do_verb-next}
use luacom.Control.Site.{find_in_place_site-set_client_site}

abbrev square : Rect
square = record { left = pos 0; top = pos 0; right = pos 8; bottom = pos 8 }

-- A container that lets the control become active, with a table that makes window 7, and fails to
-- destroy it.
abbrev host : Host
host = record {
  control_site_of = λ s l. some 3;
  in_place_site_of = λ s l. (0, some 4);
  can_activate = λ l. 0;
  activated = λ l. 0;
  parent_window = λ l. (0, some 5);
  context =
      λ l. record { result = 0; frame = some 6; ui_window = none; pos = square; clip = square };
  lua_create_window = λ p x y s l. some (some 7);
  lua_destroys_window = λ l. false;
  lua_extent_accepted = λ s l. some true;
  parking_class = λ l. true;
  parking_made = λ l. some 8;
  is_window_visible = λ h l. true;
  has_visible_style = λ h l. false;
  intersect = λ a b. some a;
  equal_rects = λ a b. true;
  region_of = λ r x y l. none;
  region_set = λ l. true;
  last_error = λ l. 0;
  hresult_from_win32 = λ e. Code.e_fail;
  window_rect = λ h p l. square;
  holder_made = λ l. (0, some 9);
  holder_advised = λ s l. (0, 1);
  holder_unadvised = λ c l. 0;
  holder_enumerated = λ h l. (0, none);
  connectable = λ l. true;
  point_found = λ l. 0;
  event_advised = λ s l. (0, 1);
  client_rect = λ h l. square;
  window_proc = λ h l. true;
  dialog_proc = λ h l. true;
  to_pixels = λ s. s;
  to_himetric = λ s. s;
}

host-Contract : Contract host
host-Contract = record {
  gives_site = λ c l h. refl;
  gives_frame = λ l h. refl;
  gives_holder = λ l h. refl;
}

host-Willing : Willing host
unfolding failed
host-Willing = record {
  has_site = λ c l. refl;
  can = λ l. refl;
  accepts = λ l. refl;
  has_parent = λ l. refl;
  has_context = λ l. refl;
  makes_window = λ p x y s l. refl;
}

abbrev small : Size
small = record { cx = pos 4; cy = pos 4 }

-- A client that shows the control, resizes it, connects its event sink, gives it the focus, and
-- closes it.
abbrev requests : List Request
requests =
    sets_client_site (some 2)
    ∷ does_verb (negsuc 0)
    ∷ sets_extent 1 (some small)
    ∷ quick_activates
        (some (record { client_site = none; event_sink = some 5; advise_sink = none }))
    ∷ enters_ui
    ∷ closes 1
    ∷ []

serve_all-new_example :
    Leads (λ u v. Valid v) (serve_all host requests (new_world (some small) false false none))
serve_all-new_example =
    serve_all-new host requests (some small) false false none host-Contract (λ e l. refl)

abbrev dispatch : Server ℕ
dispatch = record { refs = 1; funcs = []; has_class_info = false; has_container = false }

abbrev nothing_served : Held
nothing_served = record {
  type_infos = 0;
  coclass_infos = 0;
  func_descs = [];
  strings = 0;
  names = 0;
  arrays = 0;
  handlers = 0;
  table_locks = 0;
  containers = 0;
}

-- A new control that has got its client site.
abbrev sited : World
sited = record {
  control = record (construct (some small) false false) { client_site = some 2 };
  held = record nothing_held { client_sites = 1 };
  log = [];
  parking = none;
}

sited-At : At inactive sited
unfolding construct replay is_active has_window is_ui_active one_if strays_in points_in
sited-At = ground arith

inactive-settled : inactive ≢ notified
inactive-settled e = cc

abbrev sited-Valid : Valid sited
sited-Valid = record { phase = inactive; settled = inactive-settled; at = sited-At }

in_place_activate-Visible_example :
    Leads (λ hr v. (hr ≡ 0) × Visible (shown true inactive) v) (in_place_activate host true sited)
in_place_activate-Visible_example =
    in_place_activate-Visible host host-Willing true 2 sited sited-Valid refl host-Contract

-- A container that takes the activation, and then has no window context to give.
abbrev contextless : Host
contextless = record host {
  context = λ l. record {
    result = Code.e_fail;
    frame = none;
    ui_window = none;
    pos = square;
    clip = square;
  };
}

contextless-Contract : Contract contextless
unfolding failed
contextless-Contract = record {
  gives_site = λ c l h. refl;
  gives_frame = λ l h. absurd cc;
  gives_holder = λ l h. refl;
}

in_place_activate-Activated_example :
    Leads (Activated true inactive) (in_place_activate contextless true sited)
in_place_activate-Activated_example =
    in_place_activate-Activated contextless true 2 inactive sited sited-At (λ e. cc) refl
      contextless-Contract

-- A table of two verbs with names, and one without.
abbrev named_verbs : List (Verb ℕ)
named_verbs =
    record { number = pos 1; name = some 10 }
    ∷ record { number = pos 2; name = none }
    ∷ record { number = pos 3; name = some 30 }
    ∷ []

abbrev fresh : VerbEnum
fresh = record { refs = 1; next = 0 }

-- The copy of a name finds memory in the first round alone.
abbrev first_only : ℕ → Bool
first_only i = i == 0

next-verbs_example :
    let r = next named_verbs first_only 2 true true fresh in
    let asked = take 2 (remaining named_verbs fresh) in
    (suffices first_only 0 asked ≡ true
      → (r.result ≡ (if length asked == 2 then Code.s_ok else Code.s_false))
        × (r.verbs ≡ asked)
        × (remaining named_verbs r.enum ≡ drop 2 (remaining named_verbs fresh))
        × (r.copies ≡ count_names asked)
        × (r.count ≡ some (length asked)))
    × (suffices first_only 0 asked ≡ false
        → (r.result ≡ Code.e_outofmemory)
          × (nameless r.verbs ≡ true)
          × (r.copies ≡ 0)
          × (r.count ≡ some 0)
          × (r.enum ≡ fresh))
next-verbs_example = next-verbs named_verbs first_only 2 fresh (omega arith) (omega arith)

new-At : At inactive (new_world none true false none)
unfolding construct replay is_active has_window is_ui_active one_if strays_in points_in
new-At = ground arith

do_verb-next_example :
    map
      (λ (v : Verb ℕ). (do_verb host v.number (new_world none true false none)).0)
      (next verbs (λ i. true) 5 true true (record { refs = 1; next = 0 })).verbs
    ≡ ok 0 ∷ ok 0 ∷ ok 0 ∷ ok Code.e_notimpl ∷ ok 0 ∷ []
unfolding construct
do_verb-next_example = do_verb-next host (λ i. true) (new_world none true false none) new-At refl

-- A control that has been active in another container.
abbrev moved : World
moved = record sited {
  control = record (construct (some small) false false) {
    client_site = some 2;
    in_place_site = some 4;
  };
}

find_in_place_site-set_client_site_example :
    Leads
      (λ hr v.
        (v.control.client_site ≡ some 12)
        × (v.control.in_place_site ≡ some 4)
        × (find_in_place_site host 12 v ≡ (ok Code.s_ok, v)))
      (set_client_site host (some 12) moved)
find_in_place_site-set_client_site_example = find_in_place_site-set_client_site host 4 12 moved refl
