-- ===== src/Members/Balance.antt =====
-- The destructor releases what the look-ups have taken (src/library/tLuaCOM.cpp).
use luacom.Prelude.{
  ℕ, ◌+◌, ◌-◌, ◌≡◌, refl, ◌∙◌, Bool, true, false, not, ◌&&◌, Option, none, some, List, [], ◌∷◌,
  ◌++◌, arith, if◌then◌else◌,
}
use luacom.Prelude.Result.{Result}
use luacom.Members.{
  Held, Owned, FuncInfo, Answers, Cache, bound, release_func_desc, release_info, find_cached,
  is_none, cached_or, store_info, get_func_desc, release_infos, look_up,
}
use luacom.Members.Takes.{desc_of, owner_of, bound-Takes, bind_put-Takes, release_func_desc-drops}

-- What a description of the cache accounts for.
abbrev pub info_descs : FuncInfo → ℕ → ℕ
info_descs f x = desc_of f.propget x + desc_of f.propput x + desc_of f.func x

abbrev pub info_owners : FuncInfo → ℕ → ℕ
info_owners f x = owner_of f.propget x + owner_of f.propput x + owner_of f.func x

release_info-drops :
    (f : FuncInfo) (h : Held) (x : ℕ)
    → ((release_info f h).descs x ≡ h.descs x - info_descs f x)
      × ((release_info f h).infos x ≡ h.infos x - info_owners f x)
      × ((release_info f h).var_descs ≡ h.var_descs)
      × ((release_info f h).comps ≡ h.comps)
unfolding release_info
release_info-drops f h x =
    let g = release_func_desc f.propget h in
    let p = release_func_desc f.propput g in
    let a = release_func_desc-drops f.propget h x in
    let b = release_func_desc-drops f.propput g x in
    let c = release_func_desc-drops f.func p x in
    (omega (arith, a.0, b.0, c.0), omega (arith, a.1, b.1, c.1), c.2 ∙ b.2 ∙ a.2, c.3 ∙ b.3 ∙ a.3)

abbrev pub all_descs : List FuncInfo → ℕ → ℕ
all_descs [] x = 0
all_descs (f ∷ fs) x = info_descs f x + all_descs fs x

abbrev pub all_owners : List FuncInfo → ℕ → ℕ
all_owners [] x = 0
all_owners (f ∷ fs) x = info_owners f x + all_owners fs x

-- Beside `h`, what is held is what the cache accounts for.
pub record Balanced (h : Held) (c : Cache) : Type 0 where
  pub of_descs : (x : ℕ) → c.held.descs x ≡ h.descs x + all_descs c.infos x
  pub of_infos : (x : ℕ) → c.held.infos x ≡ h.infos x + all_owners c.infos x
  pub of_var_descs : c.held.var_descs ≡ h.var_descs
  pub of_comps : c.held.comps ≡ h.comps

if-Balanced :
    (h : Held) (b : Bool) (x y : Result (Option FuncInfo) × Cache)
    → (b ≡ true → Balanced h x.1)
    → Balanced h y.1
    → Balanced h (if b then x else y).1
if-Balanced h true x y k l = k refl
if-Balanced h false x y k l = l

-- Beside `h`, `g` holds what a description accounts for.
record Gives (f : FuncInfo) (h g : Held) : Type 0 where
  pub given_descs : (x : ℕ) → g.descs x ≡ h.descs x + info_descs f x
  pub given_infos : (x : ℕ) → g.infos x ≡ h.infos x + info_owners f x
  pub given_var_descs : g.var_descs ≡ h.var_descs
  pub given_comps : g.comps ≡ h.comps

empty_zero :
    (g p f : Option Owned)
    → (is_none g && is_none p && is_none f) ≡ true
    → (x : ℕ)
    → (desc_of g x + desc_of p x + desc_of f x ≡ 0)
      × (owner_of g x + owner_of p x + owner_of f x ≡ 0)
empty_zero none none none e x = (refl, refl)
empty_zero none none (some o) e x = absurd cc
empty_zero none (some o) f e x = absurd cc
empty_zero (some o) p f e x = absurd cc

all_descs-append :
    (fs : List FuncInfo) (f : FuncInfo) (x : ℕ)
    → (all_descs (fs ++ f ∷ []) x ≡ all_descs fs x + info_descs f x)
      × (all_owners (fs ++ f ∷ []) x ≡ all_owners fs x + info_owners f x)
all_descs-append [] f x = (omega arith, omega arith)
all_descs-append (g ∷ fs) f x =
    let a = all_descs-append fs f x in (omega (arith, a.0), omega (arith, a.1))

store_info-Balanced :
    (h : Held) (a : Answers) (info : FuncInfo) (g : Held) (c : Cache)
    → Balanced h c
    → Gives info c.held g
    → Balanced h (store_info a info g c).1
unfolding store_info
store_info-Balanced h a info g c k t =
    let drops = λ (x : ℕ). release_info-drops info g x in
    if-Balanced h (is_none info.propget && is_none info.propput && is_none info.func) _ _
      (λ e.
        let z = empty_zero info.propget info.propput info.func e in
        record {
          of_descs = λ x. omega (arith, k.of_descs x, t.given_descs x, (z x).0);
          of_infos = λ x. omega (arith, k.of_infos x, t.given_infos x, (z x).1);
          of_var_descs = t.given_var_descs ∙ k.of_var_descs;
          of_comps = t.given_comps ∙ k.of_comps;
        })
      (if-Balanced h (not (a.copied && a.stored)) _ _
        (λ e. record {
          of_descs = λ x. omega (arith, k.of_descs x, t.given_descs x, (drops x).0);
          of_infos = λ x. omega (arith, k.of_infos x, t.given_infos x, (drops x).1);
          of_var_descs = (drops 0).2 ∙ t.given_var_descs ∙ k.of_var_descs;
          of_comps = (drops 0).3 ∙ t.given_comps ∙ k.of_comps;
        })
        (record {
          of_descs = λ x.
              omega (arith, k.of_descs x, t.given_descs x, (all_descs-append c.infos info x).0);
          of_infos = λ x.
              omega (arith, k.of_infos x, t.given_infos x, (all_descs-append c.infos info x).1);
          of_var_descs = t.given_var_descs ∙ k.of_var_descs;
          of_comps = t.given_comps ∙ k.of_comps;
        }))

cached_or-Balanced :
    (h : Held) (o : Option FuncInfo) (c : Cache) (miss : Result (Option FuncInfo) × Cache)
    → Balanced h c
    → Balanced h miss.1
    → Balanced h (cached_or o c miss).1
cached_or-Balanced h (some f) c miss k l = k
cached_or-Balanced h none c miss k l = l

get_func_desc-Balanced :
    (h : Held) (a : Answers) (name : ℕ) (c : Cache)
    → Balanced h c
    → Balanced h (get_func_desc a name c).1
unfolding get_func_desc
get_func_desc-Balanced h a name c k =
    let g = bound a.get c.held in
    let f = bound a.func g.1 in
    let u = bound-Takes a.get c.held in
    let v = bound-Takes a.func g.1 in
    let w = bind_put-Takes a.put a.putref f.1 in
    cached_or-Balanced h (find_cached name c.infos) c _ k (
      store_info-Balanced h a _ _ c k (record {
        given_descs = λ x. omega (arith, u.more_descs x, v.more_descs x, w.more_descs x);
        given_infos = λ x. omega (arith, u.more_infos x, v.more_infos x, w.more_infos x);
        given_var_descs = w.same_var_descs ∙ v.same_var_descs ∙ u.same_var_descs;
        given_comps = w.same_comps ∙ v.same_comps ∙ u.same_comps;
      }))

look_up-Balanced :
    (h : Held) (qs : List (Answers × ℕ)) (c : Cache) → Balanced h c → Balanced h (look_up qs c)
unfolding look_up
look_up-Balanced h [] c k = k
look_up-Balanced h ((a, name) ∷ qs) c k =
    look_up-Balanced h qs _ (get_func_desc-Balanced h a name c k)

release_infos-drops :
    (fs : List FuncInfo) (h : Held) (x : ℕ)
    → ((release_infos fs h).descs x ≡ h.descs x - all_descs fs x)
      × ((release_infos fs h).infos x ≡ h.infos x - all_owners fs x)
      × ((release_infos fs h).var_descs ≡ h.var_descs)
      × ((release_infos fs h).comps ≡ h.comps)
unfolding release_infos
release_infos-drops [] h x = (omega arith, omega arith, refl, refl)
release_infos-drops (f ∷ fs) h x =
    let a = release_info-drops f h x in
    let b = release_infos-drops fs (release_info f h) x in
    (omega (arith, a.0, b.0), omega (arith, a.1, b.1), b.2 ∙ a.2, b.3 ∙ a.3)

-- After any look-ups on an empty cache, whatever Bind answers and whether or not there is memory,
-- the destructor leaves each FUNCDESC, each type information, the VARDESCs and the ITypeComps held
-- as often as before the look-ups.
pub release_infos-look_up :
    (h : Held) (qs : List (Answers × ℕ)) (x : ℕ)
    → let c = look_up qs (record { infos = []; held = h }) in
      let g = release_infos c.infos c.held in
      (g.descs x ≡ h.descs x)
      × (g.infos x ≡ h.infos x)
      × (g.var_descs ≡ h.var_descs)
      × (g.comps ≡ h.comps)
release_infos-look_up h qs x =
    let start : Balanced h (record { infos = []; held = h }) = record {
      of_descs = λ x. omega arith;
      of_infos = λ x. omega arith;
      of_var_descs = refl;
      of_comps = refl;
    } in
    let k = look_up-Balanced h qs _ start in
    let c = look_up qs (record { infos = []; held = h }) in
    let d = release_infos-drops c.infos c.held x in
    (
      omega (arith, k.of_descs x, d.0),
      omega (arith, k.of_infos x, d.1),
      d.2 ∙ k.of_var_descs,
      d.3 ∙ k.of_comps,
    )
