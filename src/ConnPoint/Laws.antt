-- ===== src/ConnPoint/Laws.antt =====
-- The laws of a connection point's slots: what appending, reusing and clearing one does to the
-- sinks that the cookies stand for.
use luacom.Prelude.{
  ℕ, zero, suc, ◌≡◌, refl, ◌≢◌, ◌⊎◌, inl, inr, true, false, Option, none, some, List, [], ◌∷◌, ◌++◌,
  arith, ◌==◌, if◌then◌else◌, set,
}
use luacom.ConnPoint.Slots.{find, slot, has, Distinct, Parallel}

-- A position that `find` returns is that of the first slot that holds the value.
pub find-zero : (k c : ℕ) (cs : List ℕ) → find k (c ∷ cs) ≡ some zero → c ≡ k
unfolding find
find-zero k c cs h = elim (Option-split (find k cs)) [
  | inl e ↦ ground (arith, e)
  | inr (i, e) ↦ ground (arith, e)
]
  where
    Option-split : (o : Option ℕ) → (o ≡ none) ⊎ ((i : ℕ) × (o ≡ some i))
    Option-split none = inl refl
    Option-split (some i) = inr (i, refl)

pub find-suc :
    (k c i : ℕ) (cs : List ℕ) → find k (c ∷ cs) ≡ some (suc i) → (c ≢ k) × (find k cs ≡ some i)
unfolding find
find-suc k c i cs h = ground arith

pub find-none : (k : ℕ) (cs : List ℕ) → find k cs ≡ none → has k cs ≡ false
unfolding find has
find-none k [] h = refl
find-none k (c ∷ cs) h = ground (arith, find-none k cs)

pub find-some : (k i : ℕ) (cs : List ℕ) → find k cs ≡ some i → has k cs ≡ true
unfolding find has
find-some k i [] h = cc
find-some k zero (c ∷ cs) h = ground (arith, find-zero k c cs h)
find-some k (suc i) (c ∷ cs) h =
    ground (arith, find-suc k c i cs h, find-some k i cs (find-suc k c i cs h).1)

pub slot-none :
    (j : ℕ) (cs : List ℕ) (ps ss : List (Option ℕ)) → has j cs ≡ false → slot j cs ps ss ≡ none
unfolding slot has
slot-none j [] ps ss h = refl
slot-none j (c ∷ cs) [] ss h = refl
slot-none j (c ∷ cs) (p ∷ ps) [] h = refl
slot-none j (c ∷ cs) (p ∷ ps) (s ∷ ss) h = ground (arith, slot-none j cs ps ss)

pub slot-append :
    (j k : ℕ) (p s : Option ℕ) (cs : List ℕ) (ps ss : List (Option ℕ))
    → Parallel cs ps ss
    → has k cs ≡ false
    → slot j (cs ++ k ∷ []) (ps ++ p ∷ []) (ss ++ s ∷ [])
      ≡ (if k == j then some (p, s) else slot j cs ps ss)
unfolding slot has
slot-append j k p s [] [] [] h f = refl
slot-append j k p s (zero ∷ cs) (none ∷ ps) (none ∷ ss) h f =
    ground (arith, slot-append j k p s cs ps ss h)
slot-append j k p s (suc c ∷ cs) (some _ ∷ ps) (some _ ∷ ss) h f =
    ground (arith, slot-append j k p s cs ps ss h)
slot-append j k p s _ _ _ h f = absurd h

pub slot-set :
    (j k i : ℕ) (p s : Option ℕ) (cs : List ℕ) (ps ss : List (Option ℕ))
    → Parallel cs ps ss
    → find 0 cs ≡ some i
    → j ≢ 0
    → has k cs ≡ false
    → slot j (set cs i k) (set ps i p) (set ss i s)
      ≡ (if k == j then some (p, s) else slot j cs ps ss)
unfolding slot has
slot-set j k i p s [] [] [] h e nz f = absurd (cc (find_nil 0))
  where
    find_nil : (k : ℕ) → find k [] ≡ none
    find_nil k = unfold find in refl
slot-set j k zero p s (zero ∷ cs) (none ∷ ps) (none ∷ ss) h e nz f = ground arith
slot-set j k (suc i) p s (zero ∷ cs) (none ∷ ps) (none ∷ ss) h e nz f =
    absurd ((find-suc 0 0 i cs e).0 refl)
slot-set j k zero p s (suc c ∷ cs) (some _ ∷ ps) (some _ ∷ ss) h e nz f =
    ground (arith, find-zero 0 (suc c) cs e)
slot-set j k (suc i) p s (suc c ∷ cs) (some _ ∷ ps) (some _ ∷ ss) h e nz f =
    ground (arith, slot-set j k i p s cs ps ss h (find-suc 0 (suc c) i cs e).1 nz)
slot-set j k i p s _ _ _ h e nz f = absurd h

pub slot-clear :
    (j k i : ℕ) (cs : List ℕ) (ps ss : List (Option ℕ))
    → Parallel cs ps ss
    → Distinct cs
    → find k cs ≡ some i
    → j ≢ 0
    → k ≢ 0
    → slot j (set cs i 0) (set ps i none) (set ss i none)
      ≡ (if k == j then none else slot j cs ps ss)
unfolding slot find
slot-clear j k i [] [] [] h d e nz kz = cc
slot-clear j k zero (zero ∷ cs) (none ∷ ps) (none ∷ ss) h d e nz kz =
    absurd (kz (omega (arith, find-zero k 0 cs e)))
slot-clear j k (suc i) (zero ∷ cs) (none ∷ ps) (none ∷ ss) h d e nz kz =
    ground (arith, slot-clear j k i cs ps ss h d.1 (find-suc k 0 i cs e).1 nz kz)
slot-clear j k zero (suc c ∷ cs) (some _ ∷ ps) (some _ ∷ ss) h d e nz kz =
    let only = d.0 (λ z. kz (omega (arith, find-zero k (suc c) cs e))) in
    ground (arith, find-zero k (suc c) cs e, slot-none (suc c) cs ps ss only)
slot-clear j k (suc i) (suc c ∷ cs) (some _ ∷ ps) (some _ ∷ ss) h d e nz kz = ground (
  arith,
  find-suc k (suc c) i cs e,
  slot-clear j k i cs ps ss h d.1 (find-suc k (suc c) i cs e).1 nz kz,
)
slot-clear j k i _ _ _ h d e nz kz = absurd h

pub Parallel-append :
    (k p s : ℕ) (cs : List ℕ) (ps ss : List (Option ℕ))
    → Parallel cs ps ss
    → k ≢ 0
    → Parallel (cs ++ k ∷ []) (ps ++ some p ∷ []) (ss ++ some s ∷ [])
Parallel-append zero p s [] [] [] h nz = absurd (nz refl)
Parallel-append (suc k) p s [] [] [] h nz = tt
Parallel-append k p s (zero ∷ cs) (none ∷ ps) (none ∷ ss) h nz = Parallel-append k p s cs ps ss h nz
Parallel-append k p s (suc c ∷ cs) (some _ ∷ ps) (some _ ∷ ss) h nz =
    Parallel-append k p s cs ps ss h nz
Parallel-append k p s _ _ _ h nz = absurd h

pub Parallel-set :
    (k p s i : ℕ) (cs : List ℕ) (ps ss : List (Option ℕ))
    → Parallel cs ps ss
    → k ≢ 0
    → Parallel (set cs i k) (set ps i (some p)) (set ss i (some s))
Parallel-set k p s i [] [] [] h nz = tt
Parallel-set zero p s zero (zero ∷ cs) (none ∷ ps) (none ∷ ss) h nz = absurd (nz refl)
Parallel-set zero p s zero (suc c ∷ cs) (some _ ∷ ps) (some _ ∷ ss) h nz = absurd (nz refl)
Parallel-set (suc k) p s zero (zero ∷ cs) (none ∷ ps) (none ∷ ss) h nz = h
Parallel-set (suc k) p s zero (suc c ∷ cs) (some _ ∷ ps) (some _ ∷ ss) h nz = h
Parallel-set k p s (suc i) (zero ∷ cs) (none ∷ ps) (none ∷ ss) h nz =
    Parallel-set k p s i cs ps ss h nz
Parallel-set k p s (suc i) (suc c ∷ cs) (some _ ∷ ps) (some _ ∷ ss) h nz =
    Parallel-set k p s i cs ps ss h nz
Parallel-set k p s i _ _ _ h nz = absurd h

pub Parallel-clear :
    (i : ℕ) (cs : List ℕ) (ps ss : List (Option ℕ))
    → Parallel cs ps ss
    → Parallel (set cs i 0) (set ps i none) (set ss i none)
Parallel-clear i [] [] [] h = tt
Parallel-clear zero (zero ∷ cs) (none ∷ ps) (none ∷ ss) h = h
Parallel-clear zero (suc c ∷ cs) (some _ ∷ ps) (some _ ∷ ss) h = h
Parallel-clear (suc i) (zero ∷ cs) (none ∷ ps) (none ∷ ss) h = Parallel-clear i cs ps ss h
Parallel-clear (suc i) (suc c ∷ cs) (some _ ∷ ps) (some _ ∷ ss) h = Parallel-clear i cs ps ss h
Parallel-clear i _ _ _ h = absurd h

pub slot-ne-none :
    (k : ℕ) (cs : List ℕ) (ps ss : List (Option ℕ))
    → Parallel cs ps ss
    → has k cs ≡ true
    → slot k cs ps ss ≢ none
unfolding slot has
slot-ne-none k [] [] [] h t = cc
slot-ne-none k (zero ∷ cs) (none ∷ ps) (none ∷ ss) h t = ground (arith, slot-ne-none k cs ps ss h)
slot-ne-none k (suc c ∷ cs) (some _ ∷ ps) (some _ ∷ ss) h t =
    ground (arith, slot-ne-none k cs ps ss h)
slot-ne-none k _ _ _ h t = absurd h
