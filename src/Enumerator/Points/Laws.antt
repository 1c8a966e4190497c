-- ===== src/Enumerator/Points/Laws.antt =====
-- What `Next`, `Skip` and `Clone` of tLuaCOMEnumConnPoints promise, in terms of the points that
-- are still to come.
use luacom.Prelude.{
  ℕ, zero, suc, ◌+◌, ◌-◌, ◌%◌, ◌^◌, ◌≤◌, ◌<◌, ◌≡◌, refl, sym, inl, inr, ap, ◌∙◌, true, none, some,
  List, [], ◌∷◌, arith, ◌==◌, ltb, leb, if◌then◌else◌, length, get_elem?, take, drop, length-take,
  length-drop, drop-drop, drop-advance, Option-cases, Bool-cases,
}
use luacom.Com.{s_ok, s_false}
use luacom.Enumerator.Points.{
  EnumPoints, new_enum_points, init, add_ref, release, query_interface, copy_points, Fetched, fetch,
  next, skip, clone_query, clone,
}

-- The index lies in the vector, whose size is below 2^32 as indices of type ULONG need.
pub record IsValid (e : EnumPoints) : Type 0 where
  pub within : e.next_index ≤ length e.points
  pub small : length e.points < 2 ^ 32

abbrev pub remaining : EnumPoints → List ℕ
remaining e = drop e.next_index e.points

drop-cons : (i p : ℕ) (ps : List ℕ) → get_elem? ps i ≡ some p → drop i ps ≡ p ∷ drop (suc i) ps
drop-cons i p [] h = cc
drop-cons zero p (x ∷ ps) h = ground arith
drop-cons (suc i) p (x ∷ ps) h = drop-cons i p ps h

pub drop-end : (i : ℕ) (ps : List ℕ) → length ps ≤ i → drop i ps ≡ []
drop-end zero [] h = refl
drop-end (suc i) [] h = refl
drop-end zero (p ∷ ps) h = absurd (omega arith)
drop-end (suc i) (p ∷ ps) h = drop-end i ps (omega arith)

get_elem?-none : (i : ℕ) (ps : List ℕ) → get_elem? ps i ≡ none → length ps ≤ i
get_elem?-none i [] h = omega arith
get_elem?-none zero (p ∷ ps) h = cc
get_elem?-none (suc i) (p ∷ ps) h = omega (arith, get_elem?-none i ps h)

get_elem?-some : (i p : ℕ) (ps : List ℕ) → get_elem? ps i ≡ some p → i < length ps
get_elem?-some i p [] h = cc
get_elem?-some zero p (x ∷ ps) h = omega arith
get_elem?-some (suc i) p (x ∷ ps) h = omega (arith, get_elem?-some i p ps h)

take-nil : (n : ℕ) → take {A = ℕ} n [] ≡ []
take-nil zero = refl
take-nil (suc n) = refl

pub copy_points-take :
    (rounds : ℕ) (ps : List ℕ) (i : ℕ)
    → length ps < 2 ^ 32
    → copy_points rounds ps i ≡ take rounds (drop i ps)
unfolding copy_points
copy_points-take zero ps i h = refl
copy_points-take (suc n) ps i h = elim (Option-cases (get_elem? ps i)) [
  | inl e ↦ rw (e, copy_points, drop-end i ps (get_elem?-none i ps e)) refl
  | inr (p, e) ↦
      let next : (i + 1) % 2 ^ 32 ≡ suc i = omega (arith, get_elem?-some i p ps e) in
      rw (e, copy_points, drop-cons i p ps e, next) (ap (◌∷◌ p) (copy_points-take n ps (suc i) h))
]

-- What `Next` promises of its outcome, on an enumerator whose index is in range.
abbrev Next : EnumPoints → ℕ → Fetched → Type 0
Next e n r =
    (r.points ≡ take n (remaining e))
    × (remaining r.enum ≡ drop n (remaining e))
    × (r.count ≡ some (length r.points))
    × (r.result ≡ (if leb n (length (remaining e)) then s_ok else s_false))
    × IsValid r.enum

fetch-Next : (e : EnumPoints) (n : ℕ) → IsValid e → Next e n (fetch e n true)
unfolding fetch
fetch-Next e n v =
    let all = drop e.next_index e.points in
    let copied = copy_points-take n e.points e.next_index v.small in
    let few = length-take n all in
    let rest = length-drop e.next_index e.points in
    rw copied (
      refl,
      drop-advance n e.next_index e.points v.within v.small,
      refl,
      ground (arith, few),
      record { within = omega (arith, v.within); small = v.small },
    )

next-fetch :
    (e : EnumPoints) (n : ℕ)
    → e.next_index < length e.points
    → next e (suc n) true true ≡ fetch e (suc n) true
unfolding next
next-fetch e n h = ground arith

next-end :
    (e : EnumPoints) (n : ℕ)
    → length e.points ≤ e.next_index
    → next e (suc n) true true ≡ record { result = s_false; points = []; count = some 0; enum = e }
unfolding next
next-end e n h = ground arith

-- `Next` with both arguments given, on an enumerator whose index is in range: it copies the first
-- points of those that are still to come, at most as many as are asked for, drops these from what
-- is to come, writes their number, answers S_OK if there were enough and S_FALSE otherwise, and
-- keeps the index in range.
pub next-remaining :
    (e : EnumPoints) (n : ℕ)
    → IsValid e
    → let r = next e n true true in
      (r.points ≡ take n (remaining e))
      × (remaining r.enum ≡ drop n (remaining e))
      × (r.count ≡ some (length r.points))
      × (r.result ≡ (if leb n (length (remaining e)) then s_ok else s_false))
      × IsValid r.enum
unfolding next
next-remaining e zero v = (refl, refl, refl, ground arith, v)
next-remaining e (suc n) v = elim (Bool-cases (ltb e.next_index (length e.points))) [
  | inl more ↦ rw (next-fetch e n (ground arith)) (fetch-Next e (suc n) v)
  | inr end ↦
      let none_left = drop-end e.next_index e.points (ground arith) in
      rw (next-end e n (ground arith), none_left) (refl, refl, refl, ground arith, v)
]

skip-remaining :
    (e : EnumPoints) (n : ℕ)
    → IsValid e
    → ((skip e n).0 ≡ (if leb n (length (remaining e)) then s_ok else s_false))
      × (remaining (skip e n).1 ≡ drop n (remaining e))
unfolding skip
skip-remaining e n v =
    let all = length-drop e.next_index e.points in
    let left : (length e.points + 2 ^ 64 - e.next_index) % 2 ^ 64 ≡ length (remaining e) =
      omega (arith, v.within, v.small) in
    elim (Bool-cases (ltb (length (remaining e)) n)) [
      | inl few ↦
          let index : length e.points % 2 ^ 32 ≡ length e.points = omega (arith, v.small) in
          rw (left, few, index)
            (
              ground arith,
              drop-end (length e.points) e.points (omega arith)
                  ∙ sym (drop-end n (remaining e) (ground arith)),
            )
      | inr enough ↦
          let index : (e.next_index + n) % 2 ^ 32 ≡ e.next_index + n =
            ground (arith, v.within, v.small) in
          rw (left, enough, index) (ground arith, sym (drop-drop n e.next_index e.points))
    ]

-- `Skip` leaves the same points to come as `Next`, and answers as `Next` does.
pub skip-next :
    (e : EnumPoints) (n : ℕ)
    → IsValid e
    → let r = next e n true true in
      ((skip e n).0 ≡ r.result) × (remaining (skip e n).1 ≡ remaining r.enum)
skip-next e n v =
    let fetched = next-remaining e n v in
    let skipped = skip-remaining e n v in (skipped.0 ∙ sym fetched.3, skipped.1 ∙ sym fetched.1)

-- A clone has the same points to come and one reference, and the enumerator is as it was, since
-- `Clone` does not write to it.
pub clone-remaining :
    (e : EnumPoints)
    → IsValid e
    → (t : EnumPoints) × (clone e true true true ≡ (s_ok, some t))
      × (remaining t ≡ remaining e)
      × (t.ref_count ≡ 1)
      × IsValid t
unfolding clone clone_query init query_interface add_ref new_enum_points
clone-remaining e v =
    (twin, ground (arith, v.within), refl, refl, record { within = v.within; small = v.small })
  where
    twin : EnumPoints
    twin = record {
      ref_count = 1;
      host_refs = 1;
      points = e.points;
      next_index = e.next_index;
      added = [];
    }

-- A reference that is added and released leaves the enumerator as it was, unless it had none:
-- then the release deletes it.
pub release-add_ref :
    (e : EnumPoints)
    → e.ref_count + 1 < 2 ^ 32
    → release (add_ref e) ≡ (e.ref_count, (if e.ref_count == 0 then none else some e))
unfolding release add_ref
release-add_ref e h = ground arith
