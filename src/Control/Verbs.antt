-- ===== src/Control/Verbs.antt =====
-- The verbs of the control: EnumVerbs of src/library/tLuaControl.cpp, and the enumerator
-- CEnumOLEVERB of src/library/tLuaControl.h.
use luacom.Prelude.{
  ℕ, zero, suc, ◌+◌, ◌-◌, ◌^◌, ◌%◌, ◌≤◌, ◌<◌, ◌≡◌, refl, Bool, true, false, not, ◌&&◌, ◌||◌, Option,
  none, some, List, [], ◌∷◌, arith, ◌==◌, ltb, if◌then◌else◌, length, take, drop, drop-advance,
  Bool-cases, inl, inr, ◌++◌, append-nil, append_assoc, sym, ap, subst, ◌∙◌,
}
use luacom.Prelude.Int.{ℤ, pos, negsuc}
use luacom.Control.Code

-- An OLEVERB: its number, and its name, if any.
pub record Verb (T : Type 0) : Type 0 where
  pub number : ℤ
  pub name : Option T

-- The table of the control: SHOW, HIDE, INPLACEACTIVATE, PRIMARY, UIACTIVATE, without names.
unfoldable pub verbs : {T : Type 0} → List (Verb T)
verbs =
    record { number = negsuc 0; name = none }
    ∷ record { number = negsuc 2; name = none }
    ∷ record { number = negsuc 4; name = none }
    ∷ record { number = pos 0; name = none }
    ∷ record { number = negsuc 3; name = none }
    ∷ []

pub record VerbEnum : Type 0 where
  pub refs : ℕ
  pub next : ℕ

-- EnumVerbs: false is a constructor that throws.
unfoldable pub enum_verbs : Bool → Bool → ℕ × Option VerbEnum
enum_verbs given memory =
    if not given
    then (Code.e_pointer, none)
    else if memory
    then (Code.s_ok, some (record { refs = 1; next = 0 }))
    else (Code.e_outofmemory, none)

abbrev is_named : {T : Type 0} → Verb T → Bool
is_named v = elim v.name [ none ↦ false | some t ↦ true ]

abbrev plus_if : Bool → ℕ → ℕ
plus_if b n = if b then n + 1 else n

-- What Next writes, and what is left: the verbs in the array, the number of copies of names that are
-- allocated and not freed, and the count.
pub record VerbsFetched (T : Type 0) : Type 0 where
  pub result : ℕ
  pub verbs : List (Verb T)
  pub copies : ℕ
  pub count : Option ℕ
  pub enum : VerbEnum

-- The loop of Next: whether it came to its end, the array as far as it is written, and the copies.
pub record Looped (T : Type 0) : Type 0 where
  pub done : Bool
  pub written : List (Verb T)
  pub held : ℕ

module _ {T : Type 0} where
  -- The loop that frees the names: CoTaskMemFree of a name, if there is one, which is cleared.
  unfoldable pub free_names : List (Verb T) → ℕ → List (Verb T) × ℕ
  free_names [] copies = ([], copies)
  free_names (v ∷ vs) copies =
      let rest = free_names vs (if is_named v then copies - 1 else copies) in
      (record v { name = none } ∷ rest.0, rest.1)

  -- What becomes of the loop where the copy of a name finds no memory.
  unfoldable pub break_off : Verb T → List (Verb T) → ℕ → Looped T
  unfolding free_names
  break_off v out copies =
      let freed = free_names out copies in
      record { done = false; written = freed.0 ++ record v { name = none } ∷ []; held = freed.1 }

  -- The loop over the verbs that are left, for at most `celt` rounds; `memory` says for each round
  -- whether a copy of a name finds its memory, and `out` is what is written so far.
  unfoldable pub hand_out : (ℕ → Bool) → ℕ → List (Verb T) → ℕ → ℕ → List (Verb T) → Looped T
  unfolding break_off
  hand_out memory i out copies celt [] = record { done = true; written = out; held = copies }
  hand_out memory i out copies zero (v ∷ vs) = record { done = true; written = out; held = copies }
  hand_out memory i out copies (suc celt) (v ∷ vs) =
      let rest = hand_out memory (suc i) (out ++ v ∷ []) (plus_if (is_named v) copies) celt vs in
      if is_named v && not (memory i) then break_off v out copies else rest

  -- Next once the loop has ended.
  unfoldable pub finish : ℕ → Bool → VerbEnum → Looped T → VerbsFetched T
  finish celt count_given e r =
      if not r.done
      then record {
        result = Code.e_outofmemory;
        verbs = r.written;
        copies = r.held;
        count = if count_given then some 0 else none;
        enum = e;
      }
      else record {
        result = if length r.written == celt then Code.s_ok else Code.s_false;
        verbs = r.written;
        copies = r.held;
        count = if count_given then some (length r.written) else none;
        enum = record e { next = (e.next + length r.written) % 2 ^ 32 };
      }

  -- Next, on an enumerator over a table.
  unfoldable pub next : List (Verb T) → (ℕ → Bool) → ℕ → Bool → Bool → VerbEnum → VerbsFetched T
  unfolding hand_out finish
  next table memory celt array_given count_given e =
      if not array_given || (not count_given && not (celt == 1))
      then record { result = Code.e_pointer; verbs = []; copies = 0; count = none; enum = e }
      else finish celt count_given e (hand_out memory 0 [] 0 celt (drop e.next table))

  -- Skip; the difference is one of 32 bits.
  unfoldable pub skip : List (Verb T) → ℕ → VerbEnum → ℕ × VerbEnum
  skip table celt e =
      let remaining = (length table + 2 ^ 32 - e.next) % 2 ^ 32 in
      if ltb remaining celt
      then (Code.s_false, record e { next = length table })
      else (Code.s_ok, record e { next = (e.next + celt) % 2 ^ 32 })

-- Reset
unfoldable pub reset : VerbEnum → VerbEnum
reset e = record e { next = 0 }

-- Clone: the copy starts with one reference, at the same place.
unfoldable pub clone : Bool → Bool → VerbEnum → ℕ × Option VerbEnum
clone given memory e =
    if not given
    then (Code.e_pointer, none)
    else if memory
    then (Code.s_ok, some (record e { refs = 1 }))
    else (Code.e_outofmemory, none)

-- AddRef, and Release with the enumerator that is left, if any.
unfoldable pub add_ref : VerbEnum → ℕ × VerbEnum
add_ref e = let n = (e.refs + 1) % 2 ^ 32 in (n, record e { refs = n })

unfoldable pub release : VerbEnum → ℕ × Option VerbEnum
release e =
    let n = (e.refs + 2 ^ 32 - 1) % 2 ^ 32 in
    (n, if n == 0 then none else some (record e { refs = n }))

-- QueryInterface, for an interface that is its own or not.
unfoldable pub query_interface : Bool → Bool → VerbEnum → ℕ × VerbEnum
unfolding add_ref
query_interface given own e =
    if not given
    then (Code.e_pointer, e)
    else if own
    then (Code.s_ok, (add_ref e).1)
    else (Code.e_nointerface, e)

-- The copies that a list of verbs comes with.
unfoldable pub count_names : {T : Type 0} → List (Verb T) → ℕ
count_names [] = 0
count_names (v ∷ vs) = plus_if (is_named v) (count_names vs)

-- Whether every name among some verbs finds the memory for its copy.
unfoldable pub suffices : {T : Type 0} → (ℕ → Bool) → ℕ → List (Verb T) → Bool
suffices memory i [] = true
suffices memory i (v ∷ vs) =
    let rest = suffices memory (suc i) vs in (not (is_named v) || memory i) && rest

-- No verb of a list has a name.
unfoldable pub nameless : {T : Type 0} → List (Verb T) → Bool
nameless [] = true
nameless (v ∷ vs) = let rest = nameless vs in not (is_named v) && rest

freed :
    (b : Bool) (copies n : ℕ)
    → (if b then copies + plus_if b n - 1 else copies + plus_if b n) ≡ copies + n
freed b copies n = ground arith

module _ {T : Type 0} where
  free_names-count :
      (vs : List (Verb T)) (copies : ℕ) → (free_names vs (copies + count_names vs)).1 ≡ copies
  unfolding free_names count_names
  free_names-count [] copies = omega arith
  free_names-count (v ∷ vs) copies =
      ap (λ k. (free_names vs k).1) (freed (is_named v) copies (count_names vs))
      ∙ free_names-count vs copies

  all_freed : (vs : List (Verb T)) → (free_names vs (count_names vs)).1 ≡ 0
  all_freed vs =
      let e : 0 + count_names vs ≡ count_names vs = omega arith in
      subst (λ n. (free_names vs n).1 ≡ 0) e (free_names-count vs 0)

  free_names-nameless :
      (v : Verb T) (vs : List (Verb T)) (copies : ℕ)
      → nameless ((free_names vs copies).0 ++ record v { name = none } ∷ []) ≡ true
  unfolding free_names nameless
  free_names-nameless v [] copies = refl
  free_names-nameless v (w ∷ vs) copies =
      free_names-nameless v vs (if is_named w then copies - 1 else copies)

  count_names-snoc :
      (vs : List (Verb T)) (v : Verb T)
      → count_names (vs ++ v ∷ []) ≡ plus_if (is_named v) (count_names vs)
  unfolding count_names
  count_names-snoc [] v = refl
  count_names-snoc (w ∷ vs) v = ground (arith, count_names-snoc vs v)

  -- A loop that finds its memory has written the first verbs, and holds a copy of each name.
  hand_out-suffices :
      (memory : ℕ → Bool) (i : ℕ) (out : List (Verb T)) (celt : ℕ) (vs : List (Verb T))
      → suffices memory i (take celt vs) ≡ true
      → hand_out memory i out (count_names out) celt vs ≡ record {
        done = true;
        written = out ++ take celt vs;
        held = count_names (out ++ take celt vs);
      }
  unfolding hand_out suffices
  hand_out-suffices memory i out zero [] h = rw (append-nil out) refl
  hand_out-suffices memory i out (suc celt) [] h = rw (append-nil out) refl
  hand_out-suffices memory i out zero (v ∷ vs) h = rw (append-nil out) refl
  hand_out-suffices memory i out (suc celt) (v ∷ vs) h =
      let found : (is_named v && not (memory i)) ≡ false = ground (arith, h) in
      let more : suffices memory (suc i) (take celt vs) ≡ true = ground (arith, h) in
      let ih = hand_out-suffices memory (suc i) (out ++ v ∷ []) celt vs more in
      let one = sym (count_names-snoc out v) in
      rw (found, one, hand_out)
        (ih
          ∙ ap (λ l. record { done = true; written = l; held = count_names l })
              (append_assoc out (v ∷ []) (take celt vs)))

  -- A loop that does not holds none, and no verb has a name.
  hand_out-broken :
      (memory : ℕ → Bool) (i : ℕ) (out : List (Verb T)) (celt : ℕ) (vs : List (Verb T))
      → suffices memory i (take celt vs) ≡ false
      → let r = hand_out memory i out (count_names out) celt vs in
        (r.done ≡ false) × (r.held ≡ 0) × (nameless r.written ≡ true)
  unfolding hand_out suffices break_off
  hand_out-broken memory i out zero [] h = absurd cc
  hand_out-broken memory i out (suc celt) [] h = absurd cc
  hand_out-broken memory i out zero (v ∷ vs) h = absurd cc
  hand_out-broken memory i out (suc celt) (v ∷ vs) h =
      elim (Bool-cases (is_named v && not (memory i))) [
        | inl k ↦
            rw (k, hand_out) (refl, all_freed out, free_names-nameless v out (count_names out))
        | inr k ↦
            let more : suffices memory (suc i) (take celt vs) ≡ false = ground (arith, h, k) in
            let one = sym (count_names-snoc out v) in
            rw (k, one, hand_out) (hand_out-broken memory (suc i) (out ++ v ∷ []) celt vs more)
      ]

-- The verbs to come.
abbrev pub remaining : {T : Type 0} → List (Verb T) → VerbEnum → List (Verb T)
remaining table e = drop e.next table

-- Next on an enumerator whose index is in range, with both places given, where each name among the
-- verbs that are asked for finds the memory for its copy, hands out the first verbs that are to come,
-- with one copy of each name, and these are not to come any more; it answers S_OK exactly if they are
-- as many as asked for. Where one name does not find it, Next answers E_OUTOFMEMORY and a count of 0,
-- has freed every copy and cleared every name that it wrote, and the enumerator is as it was.
pub next-verbs :
    {T : Type 0} (table : List (Verb T)) (memory : ℕ → Bool) (celt : ℕ) (e : VerbEnum)
    → e.next ≤ length table
    → length table < 2 ^ 32
    → let r = next table memory celt true true e in
      let asked = take celt (remaining table e) in
      (suffices memory 0 asked ≡ true
        → (r.result ≡ (if length asked == celt then Code.s_ok else Code.s_false))
          × (r.verbs ≡ asked)
          × (remaining table r.enum ≡ drop celt (remaining table e))
          × (r.copies ≡ count_names asked)
          × (r.count ≡ some (length asked)))
      × (suffices memory 0 asked ≡ false
          → (r.result ≡ Code.e_outofmemory)
            × (nameless r.verbs ≡ true)
            × (r.copies ≡ 0)
            × (r.count ≡ some 0)
            × (r.enum ≡ e))
unfolding next count_names
next-verbs table memory celt e within small = (
  λ h.
      rw (hand_out-suffices memory 0 [] celt (drop e.next table) h, finish)
        (refl, refl, drop-advance celt e.next table within small, refl, refl),
  λ h.
      let (d, c, n) = hand_out-broken memory 0 [] celt (drop e.next table) h in
      rw (d, finish) (refl, n, c, refl, refl),
)
