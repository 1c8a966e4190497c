-- ===== src/ConnPoint/Owned.antt =====
-- Who unlocks a sink: each sink that `Advise` creates is unlocked once, by `Unadvise`, by `Init`
-- or by the destructor.
use luacom.Prelude.{
  ℕ, zero, suc, ◌+◌, ◌^◌, ◌≤◌, ◌<◌, ◌≡◌, refl, ◌∙◌, inl, inr, Bool, true, false, ◌&&◌, Option, none,
  some, List, [], ◌∷◌, ◌++◌, arith, ◌==◌, if◌then◌else◌, Option-cases, Bool-cases, set, get_elem?,
}
use luacom.ConnPoint.{
  ConnPoint, AdviseCall, Creation, made, luacom_exception, other_exception, commit, storage_ready,
  advise_at, advise_dispatch, advise, clear_slot, log_unlock, unlock_all, unadvise, init, destroy,
}
use luacom.ConnPoint.Slots.{find, Parallel}
use luacom.ConnPoint.Laws.{find-suc}
use luacom.ConnPoint.Table.{IsValid, advise-IsValid, unadvise-IsValid}

abbrev one_if : Bool → ℕ
one_if true = 1
one_if false = 0

unfoldable pub count : ℕ → List ℕ → ℕ
count s [] = 0
count s (x ∷ xs) = one_if (x == s) + count s xs

-- How often a vector of sinks holds the sink.
unfoldable pub held : ℕ → List (Option ℕ) → ℕ
held s [] = 0
held s (none ∷ xs) = held s xs
held s (some x ∷ xs) = one_if (x == s) + held s xs

held-append :
    (s t : ℕ) (xs : List (Option ℕ)) → held s (xs ++ some t ∷ []) ≡ one_if (t == s) + held s xs
unfolding held
held-append s t [] = refl
held-append s t (none ∷ xs) = held-append s t xs
held-append s t (some x ∷ xs) = omega (arith, held-append s t xs)

held-set :
    (s t i : ℕ) (cs : List ℕ) (ps xs : List (Option ℕ))
    → Parallel cs ps xs
    → find 0 cs ≡ some i
    → held s (set xs i (some t)) ≡ one_if (t == s) + held s xs
unfolding held
held-set s t i [] [] [] h e = absurd (unfold find in cc)
held-set s t zero (zero ∷ cs) (none ∷ ps) (none ∷ xs) h e = refl
held-set s t (suc i) (zero ∷ cs) (none ∷ ps) (none ∷ xs) h e =
    held-set s t i cs ps xs h (find-suc 0 0 i cs e).1
held-set s t zero (suc c ∷ cs) (some _ ∷ ps) (some x ∷ xs) h e =
    absurd (unfold find in ground arith)
held-set s t (suc i) (suc c ∷ cs) (some _ ∷ ps) (some x ∷ xs) h e =
    omega (arith, held-set s t i cs ps xs h (find-suc 0 (suc c) i cs e).1)
held-set s t i _ _ _ h e = absurd h

held-clear :
    (s i : ℕ) (xs : List (Option ℕ)) (log : List ℕ)
    → held s (set xs i none) + count s (log_unlock (get_elem? xs i) log) ≡ held s xs + count s log
unfolding held count
held-clear s i [] log = refl
held-clear s zero (none ∷ xs) log = refl
held-clear s zero (some x ∷ xs) log = omega arith
held-clear s (suc i) (none ∷ xs) log = held-clear s i xs log
held-clear s (suc i) (some x ∷ xs) log = omega (arith, held-clear s i xs log)

count-unlock_all :
    (s : ℕ) (xs : List (Option ℕ)) (log : List ℕ)
    → count s (unlock_all xs log) ≡ held s xs + count s log
unfolding held count unlock_all
count-unlock_all s [] log = omega arith
count-unlock_all s (none ∷ xs) log = count-unlock_all s xs log
count-unlock_all s (some x ∷ xs) log = omega (arith, count-unlock_all s xs (x ∷ log))

-- The sinks that the connection point holds or has unlocked.
abbrev pub accounted : ℕ → ConnPoint → ℕ
accounted s cp = held s cp.sinks + count s cp.unlocked

accounted-commit :
    (s d t : ℕ) (cp : ConnPoint)
    → IsValid cp
    → accounted s (commit cp (find 0 cp.cookies) d t) ≡ one_if (t == s) + accounted s cp
accounted-commit s d t cp v = go (find 0 cp.cookies) refl
  where
    go :
        (free : Option ℕ)
        → find 0 cp.cookies ≡ free
        → accounted s (commit cp free d t) ≡ one_if (t == s) + accounted s cp
    go none e = unfold commit in omega (arith, held-append s t cp.sinks)
    go (some i) e =
        unfold commit in
        omega (arith, held-set s t i cp.cookies cp.connections cp.sinks v.parallel e)

-- A client's call, or the host's `Init`.
pub data Call : Type 0 where
  advises : AdviseCall → Call
  unadvises inits : ℕ → Call

pub step : ConnPoint → Call → ConnPoint
step cp (advises c) = (advise cp c).point
step cp (unadvises cookie) = (unadvise cp cookie).1
step cp (inits iid) = (init cp iid).1

pub run : ConnPoint → List Call → ConnPoint
run cp [] = cp
run cp (c ∷ cs) = run (step cp c) cs

-- How often a call creates the sink: a creation that `Advise` gets to and that succeeds.
creates_at : ℕ → Bool → Creation → ℕ
creates_at s true (made t) = one_if (t == s)
creates_at s true luacom_exception = 0
creates_at s true other_exception = 0
creates_at s false cr = 0

creates_dispatch : ℕ → ConnPoint → Option ℕ → Bool → Creation → ℕ
unfolding creates_at
creates_dispatch s cp none reserved cr = 0
creates_dispatch s cp (some d) reserved cr =
    creates_at s (storage_ready (find 0 cp.cookies) reserved) cr

pub creates : ℕ → ConnPoint → Call → ℕ
unfolding creates_dispatch
creates s cp (advises c) =
    if c.sink_given && c.cookie_given
    then creates_dispatch s cp c.dispatch c.reserved c.creation
    else 0
creates s cp (unadvises cookie) = 0
creates s cp (inits iid) = 0

-- The calls of Advise in a history, the failed ones included.
unfoldable pub advise_calls : List Call → ℕ
advise_calls [] = 0
advise_calls (advises c ∷ cs) = suc (advise_calls cs)
advise_calls (unadvises k ∷ cs) = advise_calls cs
advise_calls (inits iid ∷ cs) = advise_calls cs

unfoldable pub total_created : ℕ → ConnPoint → List Call → ℕ
unfolding creates step
total_created s cp [] = 0
total_created s cp (c ∷ cs) = creates s cp c + total_created s (step cp c) cs

accounted-advise_at :
    (s d : ℕ) (cp : ConnPoint) (b : Bool) (cr : Creation)
    → IsValid cp
    → accounted s (advise_at cp (find 0 cp.cookies) b d cr).point
      ≡ creates_at s b cr + accounted s cp
unfolding creates_at advise_at
accounted-advise_at s d cp true (made t) v = accounted-commit s d t cp v
accounted-advise_at s d cp true luacom_exception v = omega arith
accounted-advise_at s d cp true other_exception v = omega arith
accounted-advise_at s d cp false cr v = omega arith

accounted-dispatch :
    (s : ℕ) (cp : ConnPoint) (d : Option ℕ) (b : Bool) (cr : Creation)
    → IsValid cp
    → accounted s (advise_dispatch cp d b cr).point ≡ creates_dispatch s cp d b cr + accounted s cp
unfolding creates_dispatch advise_dispatch
accounted-dispatch s cp none b cr v = omega arith
accounted-dispatch s cp (some d) b cr v = accounted-advise_at s d cp _ cr v

accounted-unadvise : (s k : ℕ) (cp : ConnPoint) → accounted s (unadvise cp k).1 ≡ accounted s cp
unfolding unadvise
accounted-unadvise s k cp = elim (Bool-cases (k == 0)) [
  | inl z ↦ rw (z, unadvise)
  | inr nz ↦ elim (Option-cases (find k cp.cookies)) [
    | inl e ↦ rw (nz, e, unadvise)
    | inr (i, e) ↦ rw (nz, e, unadvise) (unfold clear_slot in held-clear s i cp.sinks cp.unlocked)
  ]
]

-- One call accounts for each sink as often as before, and once more if it creates the sink.
pub accounted-step :
    (s : ℕ) (cp : ConnPoint) (c : Call)
    → IsValid cp
    → accounted s (step cp c) ≡ creates s cp c + accounted s cp
unfolding step creates advise init
accounted-step s cp (advises c) v =
    ground (arith, accounted-dispatch s cp c.dispatch c.reserved c.creation v)
accounted-step s cp (unadvises k) v = omega (arith, accounted-unadvise s k cp)
accounted-step s cp (inits iid) v =
    unfold held in omega (arith, count-unlock_all s cp.sinks cp.unlocked)

next_cookie-commit :
    (cp : ConnPoint) (free : Option ℕ) (d s : ℕ)
    → cp.next_cookie + 1 < 2 ^ 32
    → (commit cp free d s).next_cookie ≤ cp.next_cookie + 1
unfolding commit
next_cookie-commit cp none d s h = omega arith
next_cookie-commit cp (some i) d s h = omega arith

next_cookie-advise :
    (cp : ConnPoint) (d : Option ℕ) (b : Bool) (cr : Creation)
    → cp.next_cookie + 1 < 2 ^ 32
    → (advise_dispatch cp d b cr).point.next_cookie ≤ cp.next_cookie + 1
unfolding advise_dispatch advise_at
next_cookie-advise cp none b cr h = omega arith
next_cookie-advise cp (some d) b cr h = go (storage_ready (find 0 cp.cookies) b) cr
  where
    go :
        (ready : Bool) (cr : Creation)
        → (advise_at cp (find 0 cp.cookies) ready d cr).point.next_cookie ≤ cp.next_cookie + 1
    go false cr = omega arith
    go true luacom_exception = omega arith
    go true other_exception = omega arith
    go true (made s) = next_cookie-commit cp (find 0 cp.cookies) d s h

-- Each call takes at most one cookie.
next_cookie-step :
    (cp : ConnPoint) (c : Call)
    → cp.next_cookie + 1 < 2 ^ 32
    → (step cp c).next_cookie ≤ cp.next_cookie + 1
unfolding step advise unadvise clear_slot init
next_cookie-step cp (advises c) h =
    ground (arith, next_cookie-advise cp c.dispatch c.reserved c.creation h)
next_cookie-step cp (unadvises k) h = ground arith
next_cookie-step cp (inits iid) h = omega arith

-- A call of Unadvise takes no cookie.
next_cookie-unadvises :
    (cp : ConnPoint) (k : ℕ) → (step cp (unadvises k)).next_cookie ≡ cp.next_cookie
unfolding step unadvise clear_slot
next_cookie-unadvises cp k = ground arith

unadvises-IsValid : (cp : ConnPoint) (k : ℕ) → IsValid cp → IsValid (step cp (unadvises k))
unfolding step
unadvises-IsValid cp k v = unadvise-IsValid cp k v

inits-IsValid : (cp : ConnPoint) (iid : ℕ) → IsValid cp → IsValid (step cp (inits iid))
unfolding step init
inits-IsValid cp iid v = record { parallel = tt; distinct = tt; fresh = tt; started = v.started }

accounted-run :
    (s : ℕ) (cp : ConnPoint) (cs : List Call)
    → IsValid cp
    → cp.next_cookie + advise_calls cs < 2 ^ 32
    → accounted s (run cp cs) ≡ total_created s cp cs + accounted s cp
unfolding run total_created advise_calls init
accounted-run s cp [] v h = omega arith
accounted-run s cp (advises c ∷ cs) v h =
    let first = next_cookie-step cp (advises c) (omega arith) in
    omega (
      arith,
      accounted-step s cp (advises c) v,
      accounted-run s (step cp (advises c)) cs (advise-IsValid cp c v (omega arith)) (omega arith),
    )
accounted-run s cp (unadvises k ∷ cs) v h = omega (
  arith,
  accounted-step s cp (unadvises k) v,
  accounted-run s (step cp (unadvises k)) cs (unadvises-IsValid cp k v)
      (omega (arith, next_cookie-unadvises cp k)),
)
accounted-run s cp (inits iid ∷ cs) v h = omega (
  arith,
  accounted-step s cp (inits iid) v,
  accounted-run s (step cp (inits iid)) cs (inits-IsValid cp iid v) (omega arith),
)

-- After any history of calls, on a connection point that keeps the invariant and whose cookie counter
-- and the number of the calls of Advise, the failed ones included, come to less than 2 ^ 32 together,
-- the destructor has each sink unlocked exactly as often as the history created it, beside those that
-- the point accounted for before: none leaks, and none is unlocked twice.
pub destroy-run :
    (s : ℕ) (cp : ConnPoint) (cs : List Call)
    → IsValid cp
    → cp.next_cookie + advise_calls cs < 2 ^ 32
    → count s (destroy (run cp cs)) ≡ total_created s cp cs + accounted s cp
unfolding destroy
destroy-run s cp cs v h =
    count-unlock_all s (run cp cs).sinks (run cp cs).unlocked ∙ accounted-run s cp cs v h
