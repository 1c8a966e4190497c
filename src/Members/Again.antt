-- ===== src/Members/Again.antt =====
-- A name that was found once is found again (src/library/tLuaCOM.cpp).
use luacom.Prelude.{
  ℕ, ◌≡◌, refl, ◌∙◌, Bool, true, false, Option, none, some, List, [], ◌∷◌, ◌++◌, arith, ==_refl,
  if◌then◌else◌,
}
use luacom.Prelude.Result.{ok_eq, Result, ok, throw, malloc_error}
use luacom.Members.{
  Held, FuncInfo, Answers, Cache, release_info, find_cached, cached_or, store_info, get_func_desc,
}

find_cached-append :
    (name : ℕ) (fs : List FuncInfo) (f : FuncInfo)
    → find_cached name fs ≡ none
    → f.name ≡ name
    → find_cached name (fs ++ f ∷ []) ≡ some f
unfolding find_cached
find_cached-append name [] f e n = rw (n, ==_refl name) refl
find_cached-append name (g ∷ fs) f e n = ground (arith, find_cached-append name fs f)

found_again :
    (b : Answers) (name : ℕ) (c : Cache) (f : FuncInfo)
    → find_cached name c.infos ≡ some f
    → get_func_desc b name c ≡ (ok (some f), c)
unfolding get_func_desc
found_again b name c f e = rw (e, get_func_desc) refl

-- Outcomes after which an answer is found in the cache.
abbrev Kept : ℕ → Result (Option FuncInfo) × Cache → Type 0
Kept name o = (f : FuncInfo) → o.0 ≡ ok (some f) → find_cached name o.1.infos ≡ some f

if-Kept :
    (name : ℕ) (b : Bool) (x y : Result (Option FuncInfo) × Cache)
    → Kept name x
    → Kept name y
    → Kept name (if b then x else y)
if-Kept name true x y h k = h
if-Kept name false x y h k = k

absent-Kept : (name : ℕ) (c : Cache) → Kept name (ok none, c)
absent-Kept name c f i = absurd cc

thrown-Kept : (name : ℕ) (c : Cache) → Kept name (throw malloc_error, c)
thrown-Kept name c f i = absurd cc

store_info-Kept :
    (a : Answers) (info : FuncInfo) (h : Held) (c : Cache)
    → find_cached info.name c.infos ≡ none
    → Kept info.name (store_info a info h c)
unfolding store_info
store_info-Kept a info h c e =
    if-Kept info.name _ _ _ (absent-Kept info.name (record c { held = h })) (
      if-Kept info.name _ _ _ (thrown-Kept info.name (record c { held = release_info info h }))
        (λ f i. find_cached-append info.name c.infos info e refl ∙ ok_eq i))

cached_or-Kept :
    (name : ℕ) (o : Option FuncInfo) (c : Cache) (miss : Result (Option FuncInfo) × Cache)
    → find_cached name c.infos ≡ o
    → (find_cached name c.infos ≡ none → Kept name miss)
    → Kept name (cached_or o c miss)
cached_or-Kept name (some d) c miss e h f i = e ∙ ok_eq i
cached_or-Kept name none c miss e h f i = h e f i

get_func_desc-Kept : (a : Answers) (name : ℕ) (c : Cache) → Kept name (get_func_desc a name c)
unfolding get_func_desc
get_func_desc-Kept a name c =
    cached_or-Kept name (find_cached name c.infos) c _ refl (store_info-Kept a _ _ c)

-- A name that is found is in the cache, so the next look-up answers the same, whatever Bind would
-- answer then, and changes nothing.
pub get_func_desc-again :
    (a b : Answers) (name : ℕ) (c : Cache) (f : FuncInfo)
    → (get_func_desc a name c).0 ≡ ok (some f)
    → get_func_desc b name (get_func_desc a name c).1 ≡ (ok (some f), (get_func_desc a name c).1)
get_func_desc-again a b name c f e =
    found_again b name (get_func_desc a name c).1 f (get_func_desc-Kept a name c f e)
