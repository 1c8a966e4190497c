-- ===== src/Enumerator/Connections/Simulation.antt =====
-- The enumerator of connections runs as that of connection points over its first vector, and
-- hands out with each connection the cookie that stands beside it.
use luacom.Prelude.{
  ℕ, zero, suc, ◌+◌, ◌%◌, ◌^◌, ◌≡◌, refl, ap, ◌∙◌, ◌⊎◌, inl, inr, Bool, true, none, some, List, [],
  ◌∷◌, arith, length, map, get_elem?, take, drop, length-map,
}
use luacom.Enumerator.Points.{EnumPoints}
use luacom.Enumerator.Points
use luacom.Enumerator.Points.Laws.{IsValid, copy_points-take, drop-end}
use luacom.Enumerator.Connections.{
  EnumConnections, ConnectData, copy_connections, add_refs, Fetched, fetch, next,
}

-- The enumerator without its cookies.
abbrev pub without_cookies : EnumConnections → EnumPoints
without_cookies e = record {
  ref_count = e.ref_count;
  host_refs = e.host_refs;
  points = e.connections;
  next_index = e.next_index;
  added = e.added;
}

abbrev pub unknowns : List ConnectData → List ℕ
unknowns = map (λ d. d.unknown)

copy-unknowns :
    (n : ℕ) (ps cs : List ℕ) (i : ℕ)
    → unknowns (copy_connections n ps cs i) ≡ Points.copy_points n ps i
unfolding copy_connections Points.copy_points
copy-unknowns zero ps cs i = refl
copy-unknowns (suc n) ps cs i = ground (arith, copy-unknowns n ps cs ((i + 1) % 2 ^ 32))

add_refs-unknowns :
    (ds : List ConnectData) (log : List ℕ) → add_refs ds log ≡ Points.add_refs (unknowns ds) log
unfolding add_refs Points.add_refs
add_refs-unknowns [] log = refl
add_refs-unknowns (d ∷ ds) log = ground (arith, add_refs-unknowns ds log)

-- An outcome of `Next` without its cookies.
abbrev pub fetched_points : Fetched → Points.Fetched
fetched_points r = record {
  result = r.result;
  points = unknowns r.connections;
  count = r.count;
  enum = without_cookies r.enum;
}

fetch-fetched_points :
    (e : EnumConnections) (n : ℕ) (b : Bool)
    → fetched_points (fetch e n b) ≡ Points.fetch (without_cookies e) n b
unfolding fetch Points.fetch
fetch-fetched_points e n b =
    let copied = copy_connections n e.connections e.cookies e.next_index in
    let same = copy-unknowns n e.connections e.cookies e.next_index in
    let size : length copied ≡ length (Points.copy_points n e.connections e.next_index) =
      omega (arith, length-map (λ (d : ConnectData). d.unknown) copied, ap length same) in
    rw (size, add_refs-unknowns copied e.added, same) refl

-- `Next` of the two enumerators, whatever the arguments: they answer alike, hand out the same
-- addresses, call `AddRef` alike, and go on alike.
pub next-fetched_points :
    (e : EnumConnections) (n : ℕ) (array_given count_given : Bool)
    → fetched_points (next e n array_given count_given)
      ≡ Points.next (without_cookies e) n array_given count_given
unfolding next Points.next
next-fetched_points e n a c = ground (arith, fetch-fetched_points e n c)

get_elem?-both :
    (i : ℕ) (ps cs : List ℕ)
    → length ps ≡ length cs
    → ((get_elem? ps i ≡ none) × (get_elem? cs i ≡ none))
      ⊎ ((p : ℕ) × (c : ℕ) × (get_elem? ps i ≡ some p) × (get_elem? cs i ≡ some c))
get_elem?-both i [] [] h = inl (refl, refl)
get_elem?-both i [] (c ∷ cs) h = absurd (omega arith)
get_elem?-both i (p ∷ ps) [] h = absurd (omega arith)
get_elem?-both zero (p ∷ ps) (c ∷ cs) h = inr (p, c, refl, refl)
get_elem?-both (suc i) (p ∷ ps) (c ∷ cs) h = get_elem?-both i ps cs (omega arith)

copy-cookies :
    (n : ℕ) (ps cs : List ℕ) (i : ℕ)
    → length ps ≡ length cs
    → map (λ (d : ConnectData). d.cookie) (copy_connections n ps cs i) ≡ Points.copy_points n cs i
unfolding copy_connections Points.copy_points
copy-cookies zero ps cs i h = refl
copy-cookies (suc n) ps cs i h =
    ground (arith, get_elem?-both i ps cs h, copy-cookies n ps cs ((i + 1) % 2 ^ 32) h)

-- `Next` with both arguments given, on an enumerator whose index is in range and whose vectors
-- have one length: with the connections it hands out the first cookies that are still to come.
pub next-cookies :
    (e : EnumConnections) (n : ℕ)
    → IsValid (without_cookies e)
    → length e.connections ≡ length e.cookies
    → map (λ (d : ConnectData). d.cookie) (next e n true true).connections
      ≡ take n (drop e.next_index e.cookies)
unfolding next
next-cookies e zero v h = refl
next-cookies e (suc n) v h =
    ground (arith, cookies_to_come (suc n), drop-end e.next_index e.cookies)
  where
    cookies_to_come :
        (m : ℕ)
        → map (λ (d : ConnectData). d.cookie) (fetch e m true).connections
          ≡ take m (drop e.next_index e.cookies)
    cookies_to_come m =
        unfold fetch in
        copy-cookies m e.connections e.cookies e.next_index h
        ∙ copy_points-take m e.cookies e.next_index (omega (arith, v.small))
