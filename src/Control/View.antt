-- ===== src/Control/View.antt =====
-- The methods of IViewObject2 and IQuickActivate, and the class of the control of
-- src/library/tLuaControl.cpp.
use luacom.Prelude.{
  ℕ, ◌+◌, ◌-◌, ◌*◌, ◌/◌, ◌%◌, ◌≡◌, refl, ap, arith, Bool, true, false, not, ◌&&◌, ◌||◌, Option,
  none, some, ◌==◌, if◌then◌else◌,
}
use luacom.Prelude.Int.{ℤ, ltb_ℤ}
use luacom.Prelude.Result.{Result, ok, throw, fault, malloc_error, std_exception}
use luacom.Prelude.Run.{Run, ◌>>=◌, ◌>>◌, pure, lift, when, continue}
use luacom.Control.Code
use luacom.Control.{
  failed, Rect, rect_size, Control, Call, Host, World, one_if, read, ask, setting, holding, tell,
}
use luacom.Control.Object.{has_content, set_client_site, advise}

-- Whether a sum of flags has ADVF_PRIMEFIRST, which is 2, or ADVF_ONLYONCE, which is 4.
abbrev pub has_prime_first : ℕ → Bool
has_prime_first flags = flags / 2 % 2 == 1

abbrev pub has_only_once : ℕ → Bool
has_only_once flags = flags / 4 % 2 == 1

-- IViewObject2::SetAdvise
unfoldable pub set_view_advise : ℕ → ℕ → Option ℕ → Run World ℕ
unfolding one_if
set_view_advise aspects flags sink =
    if not (has_content aspects) then pure Code.dv_e_dvaspect else do
      setting (λ c. record c {
        advise_prime_first = has_prime_first flags;
        advise_only_once = has_only_once flags;
      })
      c ← read (λ c. c)
      holding (λ h. record h { view_sinks = h.view_sinks - one_if c.view_sink + one_if sink })
      setting (λ c. record c { view_sink = sink })
      pure Code.s_ok

-- What GetAdvise writes, to each place that is given.
pub record Advised : Type 0 where
  pub aspects : Option ℕ
  pub flags : Option ℕ
  pub sink : Option (Option ℕ)

abbrev written_if : {A : Type 0} → Bool → A → Option A
written_if given a = if given then some a else none

unfoldable pub get_view_advise : Bool → Bool → Bool → Control → ℕ × Advised
get_view_advise wants_aspects wants_flags wants_sink c = (
  Code.s_ok,
  record {
    aspects = written_if wants_aspects 1;
    flags =
        written_if wants_flags
          ((if c.advise_only_once then 4 else 0) + (if c.advise_prime_first then 2 else 0));
    sink = written_if wants_sink c.view_sink;
  },
)

-- GetColorSet and Freeze: the result code, and whether the place given is cleared.
unfoldable pub get_color_set : ℕ → Bool → ℕ × Bool
get_color_set aspect given =
    if not given
    then (Code.e_pointer, false)
    else if not (aspect == 1)
    then (Code.dv_e_dvaspect, true)
    else (Code.e_notimpl, true)

unfoldable pub freeze : Bool → ℕ × Bool
freeze given = if given then (Code.e_notimpl, true) else (Code.e_pointer, false)

-- The arguments of QuickActivate, where both structures are given and large enough.
pub record QuickArgs : Type 0 where
  pub client_site : Option ℕ
  pub event_sink : Option ℕ
  pub advise_sink : Option ℕ

abbrev different : ℤ → ℤ → Bool
different a b = ltb_ℤ a b || ltb_ℤ b a

module _ (host : Host) where
  -- IViewObject2::Draw, from its test for a window on.
  abbrev paint : Rect → Rect → ℕ → Run World ℕ
  paint client bounds n = do
    when
        (different (rect_size client).cx (rect_size bounds).cx
          && different (rect_size client).cy (rect_size bounds).cy)
        (tell Call.set_extents)
    tell Call.set_origins
    window ← ask (host.window_proc n)
    dialog ← ask (host.dialog_proc n)
    if not (window || dialog) then pure Code.e_unexpected else do tell Call.paint; pure Code.s_ok

  unfoldable pub draw : ℕ → Bool → Bool → Option Rect → Run World ℕ
  unfolding rect_size
  draw aspect has_target false bounds = pure Code.e_pointer
  draw aspect has_target true none = pure Code.e_pointer
  draw aspect has_target true (some bounds) =
      if not (aspect == 1)
      then pure Code.dv_e_dvaspect
      else if has_target
      then pure Code.e_notimpl
      else do
        h ← read (λ c. c.hwnd)
        elim h [
          | none ↦ pure Code.e_fail
          | some n ↦ do client ← ask (host.client_rect n); paint client bounds n
        ]

  -- The event sink of QuickActivate: FindConnectionPoint, then Advise; the connection point is never
  -- released.
  unfoldable pub connect_events : Option ℕ → Run World ℕ
  unfolding failed
  connect_events none = pure Code.s_ok
  connect_events (some sink) = do
    connectable ← ask host.connectable
    if not connectable then lift fault else do
      found ← ask host.point_found
      tell (Call.find_point found)
      holding (λ h. record h { event_points = h.event_points + (if failed found then 0 else 1) })
      advised ← ask (host.event_advised sink)
      let hr = if failed found then found else advised.0
      when (failed hr) (tell Call.release_event_sink)
      pure hr

  unfoldable pub connect_advise : Option ℕ → Run World ℕ
  unfolding advise
  connect_advise none = pure Code.s_ok
  connect_advise (some sink) = do r ← advise host (some sink) true; pure (r.0)

  unfoldable pub connect_client : Option ℕ → Run World ℕ
  unfolding set_client_site
  connect_client none = pure Code.s_ok
  connect_client (some site) = set_client_site host (some site)

  -- QuickActivate: none where a structure is missing or too small.
  unfoldable pub quick_activate : Option QuickArgs → Run World ℕ
  unfolding connect_client connect_events connect_advise failed
  quick_activate none = pure Code.e_unexpected
  quick_activate (some q) = do
    hr ← connect_client q.client_site
    if failed hr then pure hr else do
      hr' ← connect_events q.event_sink
      if failed hr' then pure hr' else do
        hr'' ← connect_advise q.advise_sink
        pure (if failed hr'' then hr'' else Code.s_ok)

-- GetUserClassID: the text of the Lua method `GetClass`, or none where its call fails, goes through
-- string2bstr and CLSIDFromString.
unfoldable pub get_user_class_id :
    {T B C : Type 0}
    → (T → Result (Option B))
    → (B → ℕ × C)
    → Bool
    → Option T
    → Result (ℕ × Option C)
get_user_class_id to_bstr to_clsid false text = ok (Code.e_pointer, none)
get_user_class_id to_bstr to_clsid true none = ok (Code.e_fail, none)
get_user_class_id to_bstr to_clsid true (some t) = elim (to_bstr t) [
  | ok none ↦ ok (Code.e_outofmemory, none)
  | ok (some b) ↦ ok ((to_clsid b).0, some (to_clsid b).1)
  | throw malloc_error ↦ ok (Code.e_outofmemory, none)
  | throw std_exception ↦ throw std_exception
  | throw e ↦ ok (Code.e_fail, none)
  | fault ↦ fault
]

-- After SetAdvise for the content aspect, GetAdvise writes that aspect, the flags ADVF_PRIMEFIRST
-- and ADVF_ONLYONCE as far as they were given, and the sink, whatever was set before.
pub get_view_advise-set_view_advise :
    (aspects flags : ℕ) (sink : Option ℕ) (w : World)
    → has_content aspects ≡ true
    → let o = set_view_advise aspects flags sink w in
      (o.0 ≡ ok Code.s_ok)
      × (get_view_advise true true true o.1.control ≡ (
        Code.s_ok,
        record {
          aspects = some 1;
          flags = some (flags / 4 % 2 * 4 + flags / 2 % 2 * 2);
          sink = some sink;
        },
      ))
unfolding set_view_advise get_view_advise continue
get_view_advise-set_view_advise aspects flags sink w e = rw e (
  refl,
  ap (λ f. (Code.s_ok, record { aspects = some 1; flags = some f; sink = some sink }))
      (ground arith),
)
