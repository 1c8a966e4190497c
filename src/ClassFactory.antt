-- ===== src/ClassFactory.antt =====
-- The class factory of src/library/tLuaCOMClassFactory.cpp, which hands out one object.
use luacom.Prelude.{
  ℕ, ◌+◌, ◌-◌, ◌^◌, ◌%◌, ◌<◌, ◌≡◌, Bool, false, not, Option, none, some, arith, ◌==◌, if◌then◌else◌,
}
use luacom.Control.Code

-- What the factory holds of the world outside: references to the object, those that it has given to
-- clients included, and whether the Lua state of a server in the process is open.
pub record Outside : Type 0 where
  pub object_refs : ℕ
  pub lua_open : Bool

pub record Factory : Type 0 where
  pub refs : ℕ
  pub owns_lua : Bool

-- The constructors, for a given object and for a Lua state whose registry names the object.
unfoldable pub construct : Bool → Outside → Factory × Outside
construct in_process o =
    (record { refs = 0; owns_lua = in_process }, record o { object_refs = o.object_refs + 1 })

-- The destructor.
unfoldable pub destruct : Factory → Outside → Outside
destruct f o = record {
  object_refs = o.object_refs - 1;
  lua_open = if f.owns_lua then false else o.lua_open;
}

unfoldable pub add_ref : Factory → ℕ × Factory
add_ref f = let n = (f.refs + 1) % 2 ^ 32 in (n, record f { refs = n })

-- QueryInterface, for IID_IUnknown and IID_IClassFactory or another interface.
unfoldable pub query_interface : Bool → Bool → Factory → ℕ × Factory
unfolding add_ref
query_interface given own f =
    if not given
    then (Code.e_pointer, f)
    else if own
    then (Code.s_ok, (add_ref f).1)
    else (Code.e_nointerface, f)

-- Release: the factory that is left, if any.
unfoldable pub release : Factory → Outside → Option Factory × Outside
unfolding destruct
release f o =
    let n = (f.refs + 2 ^ 32 - 1) % 2 ^ 32 in
    if n == 0 then (none, destruct (record f { refs = n }) o) else (some (record f { refs = n }), o)

-- CLASS_E_NOAGGREGATION
abbrev pub class_e_noaggregation : ℕ
class_e_noaggregation = 2147746064

-- CreateInstance, with the code of the object's QueryInterface and whether it gives a reference.
unfoldable pub create_instance : Bool → Bool → ℕ → Bool → Outside → ℕ × Outside
create_instance given outer hr gives o =
    if not given
    then (Code.e_pointer, o)
    else if outer
    then (class_e_noaggregation, o)
    else (hr, if gives then record o { object_refs = o.object_refs + 1 } else o)

-- How many references to the factory are out after a QueryInterface.
abbrev pub handed : Bool → Bool → ℕ → ℕ
handed given own n = if given then (if own then n + 1 else n) else n

-- A state that a factory comes to while `n` references to it are out and clients have got `k`
-- references to the object from it: by QueryInterface and AddRef below the end of the counter, by
-- Release of a reference that is out while others are, and by CreateInstance.
pub data Used (in_process : Bool) (before : Outside) : ℕ → ℕ → Factory → Outside → Type 0 where
  begun : Used in_process before 0 0 (construct in_process before).0 (construct in_process before).1
  queried :
      (n k : ℕ) (f : Factory) (o : Outside) (given own : Bool)
      → Used in_process before n k f o
      → n + 1 < 2 ^ 32
      → Used in_process before (handed given own n) k (query_interface given own f).1 o
  added :
      (n k : ℕ) (f : Factory) (o : Outside)
      → Used in_process before n k f o
      → n + 1 < 2 ^ 32
      → Used in_process before (n + 1) k (add_ref f).1 o
  released :
      (n k : ℕ) (f : Factory) (o : Outside) (g : Factory) (p : Outside)
      → Used in_process before (n + 1) k f o
      → release f o ≡ (some g, p)
      → Used in_process before n k g p
  created :
      (n k : ℕ) (f : Factory) (o : Outside) (given outer gives : Bool) (hr : ℕ)
      → Used in_process before n k f o
      → Used in_process before n
          (if given then (if outer then k else if gives then k + 1 else k) else k)
          f
          (create_instance given outer hr gives o).1

-- What holds in such a state.
record Sound (in_process : Bool) (before : Outside) (n k : ℕ) (f : Factory) (o : Outside)
    : Type 0 where
  counts : f.refs ≡ n
  bounded : n < 2 ^ 32
  owns : f.owns_lua ≡ in_process
  holds : o.object_refs ≡ before.object_refs + 1 + k
  keeps : o.lua_open ≡ before.lua_open

Used-Sound :
    {in_process : Bool} {before : Outside} {n k : ℕ} {f : Factory} {o : Outside}
    → Used in_process before n k f o
    → Sound in_process before n k f o
unfolding construct add_ref query_interface release create_instance
Used-Sound begun = ground arith
Used-Sound (queried n k f o given own u b) = let s = Used-Sound u in ground (arith, s)
Used-Sound (added n k f o u b) = let s = Used-Sound u in ground (arith, s)
Used-Sound (released n k f o g p u e) = let s = Used-Sound u in ground (arith, s, e)
Used-Sound (created n k f o given outer gives hr u) = let s = Used-Sound u in ground (arith, s)

-- In each state that a factory comes to, its counter is the number of the references that are out,
-- and the Release of the last one ends it: then the references to the object are as before, but for
-- those that its clients have got, and a Lua state of its own is closed.
pub Used-release :
    (in_process : Bool) (before : Outside) (n k : ℕ) (f : Factory) (o : Outside)
    → Used in_process before n k f o
    → (f.refs ≡ n)
      × (n ≡ 1
          → release f o ≡ (
            none,
            record {
              object_refs = before.object_refs + k;
              lua_open = if in_process then false else before.lua_open;
            },
          ))
unfolding release destruct
Used-release in_process before n k f o u =
    let s = Used-Sound u in (s.counts, λ e. ground (arith, s, e))
