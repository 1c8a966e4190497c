-- ===== src/Examples/Lookups.antt =====
-- The cache of function descriptions (src/library/tLuaCOM.cpp).
use luacom.Prelude.{◌≡◌, true, false, some, none, [], ◌∷◌}
use luacom.Members.{
  Held, FuncInfo, function, variable, nothing, Answers, Cache, release_infos, look_up,
}
use luacom.Members.Balance.{release_infos-look_up}

-- A property for reading and writing.
abbrev property : Answers
property = record {
  get = function (record { desc = 4; owner = 9 });
  func = variable 9;
  put = nothing;
  putref = function (record { desc = 5; owner = 9 });
  copied = true;
  stored = true;
}

abbrev no_memory : Answers
no_memory = record property { stored = false }

abbrev nothing_held : Held
nothing_held = record { descs = λ x. 0; infos = λ x. 2; var_descs = 0; comps = 0 }

abbrev empty_cache : Cache
empty_cache = record { infos = []; held = nothing_held }

abbrev info : FuncInfo
info = record {
  name = 7;
  propget = some (record { desc = 4; owner = 9 });
  propput = some (record { desc = 5; owner = 9 });
  func = none;
}

release_infos-look_up_example :
    let c = look_up ((property, 7) ∷ (no_memory, 8) ∷ (property, 7) ∷ []) empty_cache in
    let g = release_infos c.infos c.held in
    (g.descs 4 ≡ 0) × (g.infos 4 ≡ 2) × (g.var_descs ≡ 0) × (g.comps ≡ 0)
release_infos-look_up_example =
    release_infos-look_up nothing_held ((property, 7) ∷ (no_memory, 8) ∷ (property, 7) ∷ []) 4
