-- ===== src/ConnPoint/Events.antt =====
-- Events: `l_call_sinks`, which a Lua call of an event's method runs, `EnumConnections`, which
-- copies the slots in use, and the wrap of the cookie counter.
use luacom.Prelude.{
  ℕ, zero, suc, ◌+◌, ◌^◌, ◌≤◌, ◌<◌, ◌≡◌, refl, ◌≢◌, inl, inr, ap, true, false, Option, none, some,
  List, [], ◌∷◌, arith, ltb, length, get_elem?, drop, Option-cases, ◌-◌,
}
use luacom.Com.{s_ok, e_unexpected}
use luacom.ConnPoint.{
  ConnPoint, commit, advise_at, advise_dispatch, advise, accepted, storage_ready-true, unadvise,
}
use luacom.ConnPoint.Slots.{find, Parallel}

-- One slot of the loop: the sink to call, if its cookie is not 0 and its sink is not null.
pub live_sink : Option ℕ → Option (Option ℕ) → Option ℕ
live_sink (some (suc k)) (some (some s)) = some s
live_sink _ _ = none

-- What the called sink does to the connection point is `call`. The loop reads the number of slots
-- anew in each round, so it runs on fuel; `none` means that the fuel ran out. The result is the
-- list of the sinks called, and the connection point.
pub call_sinks : (ConnPoint → ℕ → ConnPoint) → ℕ → ConnPoint → ℕ → Option (List ℕ × ConnPoint)
unfolding live_sink
call_sinks call zero cp i = none
call_sinks call (suc fuel) cp i = elim (ltb i (length cp.connections)) [
  | false ↦ some ([], cp)
  | true ↦ elim (live_sink (get_elem? cp.cookies i) (get_elem? cp.sinks i)) [
    | none ↦ call_sinks call fuel cp (suc i)
    | some s ↦ elim (call_sinks call fuel (call cp s) (suc i)) [
      | none ↦ none
      | some (called, cp') ↦ some (s ∷ called, cp')
    ]
  ]
]

-- The sinks of the slots in use, in the order of the slots.
abbrev pub active : List ℕ → List (Option ℕ) → List ℕ
active [] ss = []
active (c ∷ cs) [] = []
active (zero ∷ cs) (s ∷ ss) = active cs ss
active (suc c ∷ cs) (none ∷ ss) = active cs ss
active (suc c ∷ cs) (some s ∷ ss) = s ∷ active cs ss

active-drop :
    (i : ℕ) (cs : List ℕ) (ss : List (Option ℕ))
    → i < length cs
    → i < length ss
    → active (drop i cs) (drop i ss) ≡ elim (live_sink (get_elem? cs i) (get_elem? ss i)) [
      | none ↦ active (drop (suc i) cs) (drop (suc i) ss)
      | some s ↦ s ∷ active (drop (suc i) cs) (drop (suc i) ss)
    ]
unfolding live_sink
active-drop i [] ss h g = elim h [ ]
active-drop i (c ∷ cs) [] h g = elim g [ ]
active-drop zero (zero ∷ cs) (s ∷ ss) h g = refl
active-drop zero (suc c ∷ cs) (none ∷ ss) h g = refl
active-drop zero (suc c ∷ cs) (some s ∷ ss) h g = refl
active-drop (suc i) (c ∷ cs) (s ∷ ss) h g = active-drop i cs ss (omega arith) (omega arith)

active-end :
    (i : ℕ) (cs : List ℕ) (ss : List (Option ℕ))
    → length cs ≤ i
    → active (drop i cs) (drop i ss) ≡ []
active-end zero [] ss h = refl
active-end (suc i) [] ss h = refl
active-end zero (c ∷ cs) ss h = absurd (omega arith)
active-end (suc i) (c ∷ cs) [] h = go (drop i cs)
  where
    go : (l : List ℕ) → active l [] ≡ []
    go [] = refl
    go (x ∷ l) = refl
active-end (suc i) (c ∷ cs) (s ∷ ss) h = active-end i cs ss (omega arith)

pub Parallel-length :
    (cs : List ℕ) (ps ss : List (Option ℕ))
    → Parallel cs ps ss
    → (length cs ≡ length ps) × (length ss ≡ length ps)
Parallel-length [] [] [] h = (refl, refl)
Parallel-length (zero ∷ cs) (none ∷ ps) (none ∷ ss) h =
    let e = Parallel-length cs ps ss h in (ap suc e.0, ap suc e.1)
Parallel-length (suc c ∷ cs) (some _ ∷ ps) (some _ ∷ ss) h =
    let e = Parallel-length cs ps ss h in (ap suc e.0, ap suc e.1)
Parallel-length _ _ _ h = absurd h

call_sinks-from :
    (fuel : ℕ) (cp : ConnPoint) (i : ℕ)
    → Parallel cp.cookies cp.connections cp.sinks
    → length cp.connections - i < fuel
    → call_sinks (λ c s. c) fuel cp i ≡ some (active (drop i cp.cookies) (drop i cp.sinks), cp)
unfolding call_sinks
call_sinks-from zero cp i v h = elim h [ ]
call_sinks-from (suc fuel) cp i v h =
    let same = Parallel-length cp.cookies cp.connections cp.sinks v in
    ground (
      arith,
      active-drop i cp.cookies cp.sinks,
      call_sinks-from fuel cp (suc i) v,
      active-end i cp.cookies cp.sinks,
    )

-- Sinks that leave the connection point alone: an event calls the sink of each slot in use, once,
-- in the order of the slots, and the loop ends within one round for each slot and one more.
pub call_sinks-active :
    (fuel : ℕ) (cp : ConnPoint)
    → Parallel cp.cookies cp.connections cp.sinks
    → length cp.connections < fuel
    → call_sinks (λ c s. c) fuel cp 0 ≡ some (active cp.cookies cp.sinks, cp)
call_sinks-active fuel cp v h = call_sinks-from fuel cp 0 v (omega arith)

-- Sinks that change the connection point but not the number of its slots, as by `Unadvise`: the
-- loop ends within one round for each slot that is left and one more.
pub call_sinks-ne-none :
    (call : ConnPoint → ℕ → ConnPoint) (fuel : ℕ) (cp : ConnPoint) (i : ℕ)
    → ((c : ConnPoint) (s : ℕ) → length (call c s).connections ≡ length c.connections)
    → length cp.connections - i < fuel
    → call_sinks call fuel cp i ≢ none
unfolding call_sinks
call_sinks-ne-none call zero cp i keep h = elim h [ ]
call_sinks-ne-none call (suc fuel) cp i keep h = elim (Option-cases sink) [
  | inl e ↦ ground (arith, e, call_sinks-ne-none call fuel cp (suc i) keep)
  | inr (s, e) ↦ ground (arith, e, keep cp s, call_sinks-ne-none call fuel (call cp s) (suc i) keep)
]
  where
    sink : Option ℕ
    sink = live_sink (get_elem? cp.cookies i) (get_elem? cp.sinks i)

-- The cookie after the last one is 0, which marks a free slot: once the counter stands at its
-- last value, the second `Advise` from there reports success with the cookie 0, and `Unadvise`
-- refuses that cookie.
pub advise_wraps :
    (cp : ConnPoint) (d s d' s' : ℕ)
    → cp.next_cookie + 1 ≡ 2 ^ 32
    → let first = (advise cp (accepted d s)).point in
      let second = advise first (accepted d' s') in
      (second.result ≡ s_ok)
      × (second.cookie_out ≡ some 0)
      × (unadvise second.point 0 ≡ (e_unexpected, second.point))
unfolding advise advise_dispatch advise_at commit unadvise
advise_wraps cp d s d' s' h = ground (
  arith,
  storage_ready-true (find 0 cp.cookies),
  storage_ready-true (find 0 (commit cp (find 0 cp.cookies) d s).cookies),
)
