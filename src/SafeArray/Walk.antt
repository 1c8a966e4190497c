-- ===== src/SafeArray/Walk.antt =====
-- The loop over a safearray's elements visits each of them once, in the order of their ranks.
use mathlib.Core.List.{reverse-reverse}
use mathlib.Mathlib.Data.List.Basic.{map-reverse_aux}
use luacom.Prelude.{
  ℕ, zero, suc, ◌+◌, ◌*◌, ◌≤◌, ◌<◌, ◌≡◌, refl, sym, ap, ◌∙◌, Bool, true, false, List, [], ◌∷◌, map,
  reverse, some, arith, Bool-cases, inl, inr,
}
use luacom.Prelude.Int.{ℤ, pos, ltb_ℤ, ◌+ℤ◌}
use luacom.Vector.{Bound}
use luacom.SafeArray.{inc_from, inc_indices, visit, first_indices}
use luacom.SafeArray.Rank.{
  above, rank, total, Inside, AllInLong, end_of-InLong, next_index-InLong, step_inside, step_over,
  lower_inside,
}

-- What a step promises, by its answer: the indices of the next rank, or the last rank reached.
abbrev Stepped : List ℤ → List Bound → List ℤ × Bool → Type 0
Stepped is bs r =
    ((r.1 ≡ true) → Inside r.0 bs × (rank r.0 bs ≡ rank is bs + 1))
    × ((r.1 ≡ false) → rank is bs + 1 ≡ total bs)

scaled : (k : ℕ) {m n : ℕ} → m ≡ n → k * m ≡ k * n
scaled k = ap (λ (t : ℕ). k * t)

inc_from-Stepped :
    (is : List ℤ) (bs : List Bound) → AllInLong bs → Inside is bs → Stepped is bs (inc_from is bs)
unfolding inc_from rank total
inc_from-Stepped [] [] w h = (λ e. cc, λ e. refl)
inc_from-Stepped [] (b ∷ bs) w h = absurd h
inc_from-Stepped (i ∷ is) [] w h = absurd h
inc_from-Stepped (i ∷ is) (b ∷ bs) w h =
    let ih = inc_from-Stepped is bs w.1 h.2 in
    let next = next_index-InLong i b w.0 h.0 h.1 in
    let end = end_of-InLong b w.0 in
    elim (Bool-cases (ltb_ℤ (i +ℤ pos 1) (pos b.elements +ℤ b.lower))) [
      | inl t ↦
          let (l, a, s) = step_inside i b h.0 t in
          rw (next, end, t) (λ e. ((l, omega arith, h.2), omega (arith, a)), λ e. cc)
      | inr t ↦
          let over = step_over i b h.0 h.1 t in
          let (l, z) = lower_inside b in
          rw (next, end, t)
            (
              λ e.
                  let (inside, more) = ih.0 e in
                  ((l, omega (arith, h.1), inside), omega (arith, scaled b.elements more, z, over)),
              λ e. omega (arith, scaled b.elements (ih.1 e), over),
            )
    ]

rank-lt-total : (is : List ℤ) (bs : List Bound) → Inside is bs → rank is bs < total bs
unfolding rank total
rank-lt-total [] [] h = omega arith
rank-lt-total [] (b ∷ bs) h = absurd h
rank-lt-total (i ∷ is) [] h = absurd h
rank-lt-total (i ∷ is) (b ∷ bs) h =
    let ih = rank-lt-total is bs h.2 in
    let one : above i b < b.elements = h.1 in grind (arith, ih, one)

-- The rank of indices and the number of elements, with the first dimension first.
abbrev pub place : List Bound → List ℤ → ℕ
place bs is = rank (reverse is) (reverse bs)

abbrev pub InBounds : List ℤ → List Bound → Type 0
InBounds is bs = Inside (reverse is) (reverse bs)

unfoldable pub from_to : ℕ → ℕ → List ℕ
from_to k zero = []
from_to k (suc n) = k ∷ from_to (suc k) n

-- inc_indices answers true with the indices in bounds of the next place, and false only at the
-- last place.
pub inc_indices-place :
    (is : List ℤ) (bs : List Bound)
    → AllInLong (reverse bs)
    → InBounds is bs
    → let r = inc_indices is bs in
      ((r.1 ≡ true) → InBounds r.0 bs × (place bs r.0 ≡ place bs is + 1))
      × ((r.1 ≡ false) → place bs is + 1 ≡ total (reverse bs))
unfolding inc_indices
inc_indices-place is bs w h = rw reverse-reverse (inc_from-Stepped (reverse is) (reverse bs) w h)

last_one : (n : ℕ) {k : ℕ} → n ≡ 0 → k ∷ [] ≡ from_to k (suc n)
unfolding from_to
last_one zero e = refl
last_one (suc n) e = absurd (omega arith)

visit-from_to :
    (fuel n : ℕ) (is : List ℤ) (bs : List Bound)
    → AllInLong (reverse bs)
    → InBounds is bs
    → place bs is + n ≡ total (reverse bs)
    → n ≤ fuel
    → (l : List (List ℤ)) × (visit fuel is bs ≡ some l)
      × (map (place bs) l ≡ from_to (place bs is) n)
unfolding visit from_to
visit-from_to fuel zero is bs w h e f =
    absurd (omega (arith, rank-lt-total (reverse is) (reverse bs) h))
visit-from_to zero (suc n) is bs w h e f = absurd (omega arith)
visit-from_to (suc fuel) (suc n) is bs w h e f =
    let s = inc_indices-place is bs w h in
    elim (Bool-cases (inc_indices is bs).1) [
      | inl more ↦
          let (inside, next) = s.0 more in
          let (l, v, m') =
            visit-from_to fuel n (inc_indices is bs).0 bs w inside (omega (arith, next))
              (omega arith) in
          (
            is ∷ l,
            rw (more, v) refl,
            ap (◌∷◌ (place bs is)) (m' ∙ ap (λ k. from_to k n) (omega (arith, next))),
          )
      | inr last ↦ (is ∷ [], rw last refl, last_one n (omega (arith, s.1 last)))
    ]

factor_left : (k n : ℕ) → 0 < k * n → 0 < k
factor_left zero n h = absurd (omega arith)
factor_left (suc k) n h = omega arith

factor_right : (k n : ℕ) → 0 < k * n → 0 < n
factor_right k zero h = absurd (omega (arith, h))
factor_right k (suc n) h = omega arith

first-Inside :
    (bs : List Bound)
    → 0 < total bs
    → Inside (map (λ b. b.lower) bs) bs × (rank (map (λ b. b.lower) bs) bs ≡ 0)
unfolding rank total
first-Inside [] h = (tt, refl)
first-Inside (b ∷ bs) h =
    let (l, z) = lower_inside b in
    let one : 0 < b.elements = factor_left b.elements (total bs) h in
    let (inside, r) = first-Inside bs (factor_right b.elements (total bs) h) in
    ((l, omega arith, inside), rw (z, r) (omega arith))

pub visit-places :
    (fuel : ℕ) (bs : List Bound)
    → AllInLong (reverse bs)
    → 0 < total (reverse bs)
    → total (reverse bs) ≤ fuel
    → (l : List (List ℤ)) × (visit fuel (first_indices bs) bs ≡ some l)
      × (map (place bs) l ≡ from_to 0 (total (reverse bs)))
unfolding first_indices
visit-places fuel bs w h f =
    let (inside, z) : InBounds (first_indices bs) bs × (place bs (first_indices bs) ≡ 0) =
      rw (sym (map-reverse_aux (λ b. b.lower) bs [])) (first-Inside (reverse bs) h) in
    let (l, v, m) =
      visit-from_to fuel (total (reverse bs)) (first_indices bs) bs w inside (omega (arith, z)) f in
    (l, v, m ∙ ap (λ k. from_to k (total (reverse bs))) z)
