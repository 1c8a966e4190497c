-- ===== src/Members.antt =====
-- The cache of function descriptions of a COM object (src/library/tLuaCOM.cpp): getFUNCDESC, and
-- what the destructor releases of it.
pub mod Again
pub mod Takes
pub mod Balance
use luacom.Prelude.{
  ℕ, ◌+◌, ◌-◌, Bool, true, false, not, ◌&&◌, Option, none, some, List, [], ◌∷◌, ◌++◌, ◌==◌,
  if◌then◌else◌,
}
use luacom.Prelude.Result.{Result, ok, throw, malloc_error}

-- The references that are held: to each FUNCDESC, to each type information, and the numbers of
-- VARDESCs and of ITypeComps.
pub record Held : Type 0 where
  pub descs : ℕ → ℕ
  pub infos : ℕ → ℕ
  pub var_descs : ℕ
  pub comps : ℕ

-- A FUNCDESC with the type information that owns it.
pub record Owned : Type 0 where
  pub desc : ℕ
  pub owner : ℕ

-- FuncInfo
pub record FuncInfo : Type 0 where
  pub name : ℕ
  pub propget : Option Owned
  pub propput : Option Owned
  pub func : Option Owned

-- What ITypeComp::Bind answers: a FUNCDESC, a VARDESC, an ITypeComp, or nothing.
pub data Bound : Type 0 where
  function : Owned → Bound
  variable : ℕ → Bound
  component : Bound
  nothing : Bound

-- The answers of Bind for the four kinds, and whether the name's copy and the room in the cache
-- are there.
pub record Answers : Type 0 where
  pub get : Bound
  pub func : Bound
  pub put : Bound
  pub putref : Bound
  pub copied : Bool
  pub stored : Bool

-- tLuaCOM, its cache alone, with what is held.
pub record Cache : Type 0 where
  pub infos : List FuncInfo
  pub held : Held

abbrev pub one_at : ℕ → ℕ → ℕ
one_at x y = if x == y then 1 else 0

abbrev pub take : ℕ → (ℕ → ℕ) → ℕ → ℕ
take x refs y = refs y + one_at x y

abbrev pub drop : ℕ → (ℕ → ℕ) → ℕ → ℕ
drop x refs y = refs y - one_at x y

-- Bind takes what it answers.
unfoldable pub bind : Bound → Held → Held
bind (function o) h = record h { descs = take o.desc h.descs; infos = take o.owner h.infos }
bind (variable i) h = record h { infos = take i h.infos; var_descs = h.var_descs + 1 }
bind component h = record h { comps = h.comps + 1 }
bind nothing h = h

-- ReleaseBindResult
unfoldable pub release_bind_result : Bound → Held → Held
release_bind_result (function o) h = record h {
  descs = drop o.desc h.descs;
  infos = drop o.owner h.infos;
}
release_bind_result (variable i) h = record h {
  infos = drop i h.infos;
  var_descs = h.var_descs - 1;
}
release_bind_result component h = record h { comps = h.comps - 1 }
release_bind_result nothing h = h

-- One call of Bind with what follows it: a function is kept, all else released.
unfoldable pub bound : Bound → Held → Option Owned × Held
unfolding bind release_bind_result
bound (function o) h = (some o, bind (function o) h)
bound (variable i) h = (none, release_bind_result (variable i) (bind (variable i) h))
bound component h = (none, release_bind_result component (bind component h))
bound nothing h = (none, release_bind_result nothing (bind nothing h))

-- ReleaseFuncDesc
unfoldable pub release_func_desc : Option Owned → Held → Held
release_func_desc none h = h
release_func_desc (some o) h = record h {
  descs = drop o.desc h.descs;
  infos = drop o.owner h.infos;
}

unfoldable pub release_info : FuncInfo → Held → Held
unfolding release_func_desc
release_info f h =
    release_func_desc f.func (release_func_desc f.propput (release_func_desc f.propget h))

-- The loop over mFuncInfo.
unfoldable pub find_cached : ℕ → List FuncInfo → Option FuncInfo
find_cached name [] = none
find_cached name (f ∷ fs) = if f.name == name then some f else find_cached name fs

-- The property for writing, or else the one for writing references.
unfoldable pub bind_put : Bound → Bound → Held → Option Owned × Held
unfolding bound
bind_put put putref h =
    let p = bound put h in elim p.0 [ none ↦ bound putref p.1 | some o ↦ (some o, p.1) ]

abbrev pub is_none : Option Owned → Bool
is_none none = true
is_none (some o) = false

-- What becomes of the descriptions that Bind has given.
unfoldable pub store_info : Answers → FuncInfo → Held → Cache → Result (Option FuncInfo) × Cache
unfolding release_info
store_info a info h c =
    if is_none info.propget && is_none info.propput && is_none info.func
    then (ok none, record c { held = h })
    else if not (a.copied && a.stored)
    then (throw malloc_error, record c { held = release_info info h })
    else (ok (some info), record { infos = c.infos ++ info ∷ []; held = h })

abbrev pub cached_or :
    Option FuncInfo → Cache → Result (Option FuncInfo) × Cache → Result (Option FuncInfo) × Cache
cached_or (some f) c miss = (ok (some f), c)
cached_or none c miss = miss

-- getFUNCDESC; its result is `none` for a name that is no function.
unfoldable pub get_func_desc : Answers → ℕ → Cache → Result (Option FuncInfo) × Cache
unfolding find_cached bind_put store_info
get_func_desc a name c =
    let g = bound a.get c.held in
    let f = bound a.func g.1 in
    let p = bind_put a.put a.putref f.1 in
    cached_or (find_cached name c.infos) c
      (store_info a (record { name = name; propget = g.0; propput = p.0; func = f.0 }) p.1 c)

-- The loop of the destructor.
unfoldable pub release_infos : List FuncInfo → Held → Held
unfolding release_info
release_infos [] h = h
release_infos (f ∷ fs) h = release_infos fs (release_info f h)

-- Look-ups one after the other.
unfoldable pub look_up : List (Answers × ℕ) → Cache → Cache
unfolding get_func_desc
look_up [] c = c
look_up ((a, name) ∷ qs) c = look_up qs (get_func_desc a name c).1
