-- ===== src/Members/Takes.antt =====
-- What one call of Bind takes, and one of ReleaseFuncDesc releases (src/library/tLuaCOM.cpp).
use luacom.Prelude.{ℕ, ◌+◌, ◌-◌, ◌≡◌, refl, ◌∙◌, Option, none, some, arith}
use luacom.Members.{
  Held, Owned, Bound, function, variable, component, nothing, one_at, bind, release_bind_result,
  bound, release_func_desc, bind_put,
}

abbrev pub desc_of : Option Owned → ℕ → ℕ
desc_of none x = 0
desc_of (some o) x = one_at o.desc x

abbrev pub owner_of : Option Owned → ℕ → ℕ
owner_of none x = 0
owner_of (some o) x = one_at o.owner x

-- What is held after one of the calls, beside what was held before.
pub record Takes (o : Option Owned) (h g : Held) : Type 0 where
  pub more_descs : (x : ℕ) → g.descs x ≡ h.descs x + desc_of o x
  pub more_infos : (x : ℕ) → g.infos x ≡ h.infos x + owner_of o x
  pub same_var_descs : g.var_descs ≡ h.var_descs
  pub same_comps : g.comps ≡ h.comps

pub bound-Takes : (b : Bound) (h : Held) → Takes (bound b h).0 h (bound b h).1
unfolding bound bind release_bind_result
bound-Takes (function o) h = record {
  more_descs = λ x. refl;
  more_infos = λ x. refl;
  same_var_descs = refl;
  same_comps = refl;
}
bound-Takes (variable i) h = record {
  more_descs = λ x. omega arith;
  more_infos = λ x. omega arith;
  same_var_descs = omega arith;
  same_comps = refl;
}
bound-Takes component h = record {
  more_descs = λ x. omega arith;
  more_infos = λ x. omega arith;
  same_var_descs = refl;
  same_comps = omega arith;
}
bound-Takes nothing h = record {
  more_descs = λ x. omega arith;
  more_infos = λ x. omega arith;
  same_var_descs = refl;
  same_comps = refl;
}

after_put :
    (putref : Bound) (o : Option Owned) (h g : Held)
    → Takes o h g
    → let z : Option Owned × Held = elim o [ none ↦ bound putref g | some q ↦ (some q, g) ] in
      Takes z.0 h z.1
after_put putref none h g t =
    let u = bound-Takes putref g in
    record {
      more_descs = λ x. omega (arith, t.more_descs x, u.more_descs x);
      more_infos = λ x. omega (arith, t.more_infos x, u.more_infos x);
      same_var_descs = u.same_var_descs ∙ t.same_var_descs;
      same_comps = u.same_comps ∙ t.same_comps;
    }
after_put putref (some q) h g t = t

pub bind_put-Takes :
    (put putref : Bound) (h : Held) → Takes (bind_put put putref h).0 h (bind_put put putref h).1
unfolding bind_put
bind_put-Takes put putref h = after_put putref (bound put h).0 h (bound put h).1 (bound-Takes put h)

pub release_func_desc-drops :
    (o : Option Owned) (h : Held) (x : ℕ)
    → ((release_func_desc o h).descs x ≡ h.descs x - desc_of o x)
      × ((release_func_desc o h).infos x ≡ h.infos x - owner_of o x)
      × ((release_func_desc o h).var_descs ≡ h.var_descs)
      × ((release_func_desc o h).comps ≡ h.comps)
unfolding release_func_desc
release_func_desc-drops none h x = (omega arith, omega arith, refl, refl)
release_func_desc-drops (some o) h x = (refl, refl, refl, refl)
