-- ===== src/Examples/Drains.antt =====
-- The theorems about the wrapper of a COM enumerator and the class factory, at concrete inputs.
use luacom.Prelude.{ℕ, ◌+◌, ◌≡◌, ◌≢◌, refl, true, false, some, none, [], ◌∷◌, List, arith}
use luacom.Prelude.Result.{Result, ok, throw, fault, typeconv_error}
use luacom.ComEnumerator.{World, next}
use luacom.ComEnumerator.Laws.{next-released}
use luacom.ComEnumerator.Values.{list_next, next_all, sum, next_all-take}
use luacom.ClassFactory.{
  Outside, Factory, construct, query_interface, add_ref, create_instance, release, Used, begun,
  queried, created, Used-release,
}

abbrev start : World (List ℕ)
start = record { server = 10 ∷ 20 ∷ 30 ∷ []; live = []; arrays = 0; clones = 1 }

-- No value can be converted.
abbrev picky : ℕ → Result ℕ
picky v = throw typeconv_error

picky-ne-fault : (v : ℕ) → picky v ≢ fault
picky-ne-fault v e = cc

next-released_example :
    let o = next (list_next 0) picky true true 8 (some (some 2)) start in
    (o.0 ≢ fault) × (o.1.live ≡ []) × (o.1.arrays ≡ 0)
next-released_example =
    next-released (list_next 0) picky picky-ne-fault true true 8 (some (some 2)) start refl

abbrev shifted : ℕ → ℕ
shifted v = v + 1

next_all-take_example :
    next_all 0 shifted 8 (2 ∷ 0 ∷ 4 ∷ []) start
    ≡ (ok (11 ∷ 21 ∷ 31 ∷ []), record start { server = [] })
unfolding sum
next_all-take_example = next_all-take 0 shifted 8 (2 ∷ 0 ∷ 4 ∷ []) start (omega arith) (omega arith)

abbrev one_object : Outside
one_object = record { object_refs = 1; lua_open = true }

abbrev factory : Factory
factory = record { refs = 1; owns_lua = true }

abbrev holding_three : Outside
holding_three = record { object_refs = 3; lua_open = true }

abbrev out : ℕ
out = 1

-- A client gets the factory, then an object from it.
used : Used true one_object out 1 factory holding_three
unfolding construct query_interface add_ref create_instance
used = created 1 0 _ _ true false true 0 (queried 0 0 _ _ true true begun (omega arith))

Used-release_example :
    (factory.refs ≡ out)
    × (out ≡ 1
        → release factory holding_three ≡ (none, record { object_refs = 2; lua_open = false }))
Used-release_example = Used-release true one_object out 1 factory holding_three used
