-- ===== src/ConnPoint/Slots.antt =====
-- The parallel vectors of a connection point: `std::find` over the cookies, and the sink that a
-- cookie stands for, with the laws of appending, reusing and clearing a slot.
use luacom.Prelude.{
  ℕ, zero, suc, ◌<◌, ◌≡◌, refl, ◌≢◌, Bool, false, ◌||◌, Option, none, some, List, [], ◌∷◌, ◌++◌,
  arith, ◌==◌, if◌then◌else◌, set,
}

-- std::find: the first position that holds the value.
unfoldable pub find : ℕ → List ℕ → Option ℕ
find k [] = none
find k (c ∷ cs) =
    let rest = find k cs in
    if c == k then some 0 else elim rest [ none ↦ none | some i ↦ some (suc i) ]

-- The connection and sink of the first slot whose cookie is `k`.
unfoldable pub slot : ℕ → List ℕ → List (Option ℕ) → List (Option ℕ) → Option (Option ℕ × Option ℕ)
slot k [] ps ss = none
slot k (c ∷ cs) [] ss = none
slot k (c ∷ cs) (p ∷ ps) [] = none
slot k (c ∷ cs) (p ∷ ps) (s ∷ ss) = if c == k then some (p, s) else slot k cs ps ss

unfoldable pub has : ℕ → List ℕ → Bool
has k [] = false
has k (c ∷ cs) = (c == k) || has k cs

-- Every cookie is below the bound, and those that are not 0 differ.
abbrev pub Fresh : ℕ → List ℕ → Type 0
Fresh n [] = Unit {0}
Fresh n (c ∷ cs) = (c < n) × Fresh n cs

abbrev pub Distinct : List ℕ → Type 0
Distinct [] = Unit {0}
Distinct (c ∷ cs) = (c ≢ 0 → has c cs ≡ false) × Distinct cs

-- Three vectors of one length, in which a slot is free in all or in none.
abbrev pub Parallel : List ℕ → List (Option ℕ) → List (Option ℕ) → Type 0
Parallel [] [] [] = Unit {0}
Parallel (zero ∷ cs) (none ∷ ps) (none ∷ ss) = Parallel cs ps ss
Parallel (suc c ∷ cs) (some p ∷ ps) (some s ∷ ss) = Parallel cs ps ss
Parallel _ _ _ = ⊥

pub Fresh-has : (n : ℕ) (cs : List ℕ) → Fresh n cs → has n cs ≡ false
unfolding has
Fresh-has n [] f = refl
Fresh-has n (c ∷ cs) f = ground (arith, Fresh-has n cs f.1)

pub Fresh-suc : (n : ℕ) (cs : List ℕ) → Fresh n cs → Fresh (suc n) cs
Fresh-suc n [] f = tt
Fresh-suc n (c ∷ cs) f = (omega arith, Fresh-suc n cs f.1)

pub Fresh-append : (n k : ℕ) (cs : List ℕ) → Fresh n cs → k < n → Fresh n (cs ++ k ∷ [])
Fresh-append n k [] f h = (h, tt)
Fresh-append n k (c ∷ cs) f h = (f.0, Fresh-append n k cs f.1 h)

pub Fresh-set : (n k i : ℕ) (cs : List ℕ) → Fresh n cs → k < n → Fresh n (set cs i k)
Fresh-set n k i [] f h = tt
Fresh-set n k zero (c ∷ cs) f h = (h, f.1)
Fresh-set n k (suc i) (c ∷ cs) f h = (f.0, Fresh-set n k i cs f.1 h)

has-append : (j k : ℕ) (cs : List ℕ) → has j (cs ++ k ∷ []) ≡ (has j cs || (k == j))
unfolding has
has-append j k [] = ground arith
has-append j k (c ∷ cs) = ground (arith, has-append j k cs)

has-set : (j k i : ℕ) (cs : List ℕ) → has j cs ≡ false → k ≢ j → has j (set cs i k) ≡ false
unfolding has
has-set j k i [] h e = refl
has-set j k zero (c ∷ cs) h e = ground arith
has-set j k (suc i) (c ∷ cs) h e = ground (arith, has-set j k i cs)

pub Distinct-append : (k : ℕ) (cs : List ℕ) → Distinct cs → Fresh k cs → Distinct (cs ++ k ∷ [])
unfolding has
Distinct-append k [] d f = (λ _. refl, tt)
Distinct-append k (c ∷ cs) d f =
    (λ nz. ground (arith, has-append c k cs, d.0 nz), Distinct-append k cs d.1 f.1)

pub Distinct-set : (k i : ℕ) (cs : List ℕ) → Distinct cs → Fresh k cs → Distinct (set cs i k)
unfolding has
Distinct-set k i [] d f = tt
Distinct-set k zero (c ∷ cs) d f = (λ nz. Fresh-has k cs f.1, d.1)
Distinct-set k (suc i) (c ∷ cs) d f =
    (λ nz. has-set c k i cs (d.0 nz) (omega arith), Distinct-set k i cs d.1 f.1)

pub Distinct-clear : (i : ℕ) (cs : List ℕ) → Distinct cs → Distinct (set cs i 0)
Distinct-clear i [] d = tt
Distinct-clear zero (c ∷ cs) d = (λ nz. absurd (nz refl), d.1)
Distinct-clear (suc i) (c ∷ cs) d =
    (λ nz. has-set c 0 i cs (d.0 nz) (λ e. omega arith), Distinct-clear i cs d.1)
