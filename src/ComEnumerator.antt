-- ===== src/ComEnumerator.antt =====
-- The Lua wrapper of a COM enumerator, src/library/tLuaCOMEnumerator.cpp. The IEnumVARIANT behind it
-- is a parameter with a state of its own, as is the conversion of a value to Lua.
use luacom.Prelude.{
  ℕ, zero, suc, ◌+◌, ◌-◌, ◌^◌, Bool, true, false, not, ◌||◌, Option, none, some, List, [], ◌∷◌,
  ◌++◌, ◌==◌, ltb, if◌then◌else◌,
}
use luacom.Prelude.Result.{
  Error, Result, ok, throw, fault, internal_error, parameter_out_of_range, com_error, luacom_error,
  malloc_error, is_luacom_exception,
}
use luacom.Prelude.Run.{Run, continue, handle, ◌>>=◌, ◌>>◌, pure, lift, modify, when}
pub mod Laws
pub mod Values

-- What the call of a method leaves to Lua: values, or an error of lua_error.
pub data Called (L : Type 0) : Type 0 where
  returned : List L → Called L
  lua_failed : Called L

-- The answer of IEnumVARIANT::Next: whether its code is a failure, the number of elements, and the
-- array as it was filled.
pub record Fetched (V : Type 0) : Type 0 where
  pub failed : Bool
  pub fetched : ℕ
  pub values : ℕ → V

-- The server, with the VARIANTs of the array that are initialised, by their index, and the number of
-- arrays and of references to the clones of the server that are held.
pub record World (S : Type 0) : Type 0 where
  pub server : S
  pub live : List ℕ
  pub arrays : ℕ
  pub clones : ℕ

-- Take out an index, or none where it is not there.
unfoldable pub take_out : ℕ → List ℕ → Option (List ℕ)
take_out i [] = none
take_out i (j ∷ l) =
    let rest = take_out i l in
    if i == j then some l else elim rest [ none ↦ none | some r ↦ some (j ∷ r) ]

module _ {S : Type 0} where
  -- The loop of VariantInit, for the indices from `i` on.
  unfoldable pub init_variants : ℕ → ℕ → World S → World S
  init_variants i zero w = w
  init_variants i (suc n) w = init_variants (suc i) n (record w { live = w.live ++ i ∷ [] })

  -- The loop of releaseVariant in ~NextContext; to release what is not initialised is a fault.
  unfoldable pub release_variants : ℕ → ℕ → Run (World S) (Unit {0})
  unfolding take_out
  release_variants i zero w = (ok tt, w)
  release_variants i (suc n) w = elim (take_out i w.live) [
    | none ↦ (fault, w)
    | some l ↦ release_variants (suc i) n (record w { live = l })
  ]

  -- ~NextContext for an array of n elements.
  unfoldable pub destroy_context : ℕ → Run (World S) (Unit {0})
  unfolding release_variants
  destroy_context n = release_variants 0 n >> modify (λ w. record w { arrays = w.arrays - 1 })

  -- A block has ended, with an exception or without: the context goes.
  unfoldable pub leave_context : {A : Type 0} → ℕ → Result A → Run (World S) A
  unfolding destroy_context
  leave_context n (ok a) = destroy_context n >> pure a
  leave_context n (throw e) = destroy_context n >> lift (throw e)
  leave_context n fault = lift fault

module _ {S V L : Type 0} (server_next : S → ℕ → Fetched V × S) (com_to_lua : V → Result L) where
  -- The loop of protectedNext, over the elements from `i` on.
  unfoldable pub convert : (ℕ → V) → ℕ → ℕ → Result (List L)
  convert values i zero = ok []
  convert values i (suc n) = elim (com_to_lua (values i)) [
    | throw e ↦ throw e
    | fault ↦ fault
    | ok l ↦ elim (convert values (suc i) n) [
      | throw e ↦ throw e
      | fault ↦ fault
      | ok ls ↦ ok (l ∷ ls)
    ]
  ]

  -- protectedNext, where Lua's stack has room for `room` values.
  unfoldable pub protected_next : ℕ → Fetched V → Result (Called L)
  unfolding convert
  protected_next room f =
      if ltb (2 ^ 31 - 1) f.fetched || ltb room f.fetched
      then ok lua_failed
      else elim (convert f.values 0 f.fetched) [
        | ok ls ↦ ok (returned ls)
        | throw e ↦ throw e
        | fault ↦ fault
      ]

  -- The call of the server, and of protectedNext with what it has written.
  unfoldable pub fetch : ℕ → ℕ → Run (World S) (Called L)
  unfolding protected_next
  fetch room n w =
      let (f, s) = server_next w.server n in
      let v = record w { server = s } in
      if ltb n f.fetched
      then (throw internal_error, v)
      else if f.failed
      then (throw com_error, v)
      else (protected_next room f, v)

  -- The first parameter of Next and Skip, if there is one; none inside is a value that is no whole
  -- number of 32 bits.
  unfoldable pub requested : Option (Option ℕ) → Result ℕ
  requested none = ok 1
  requested (some none) = throw parameter_out_of_range
  requested (some (some n)) = ok n

  -- The block of Next with its context, for an array that has found its memory.
  unfoldable pub fetch_with_context : ℕ → ℕ → Run (World S) (Called L)
  unfolding init_variants fetch leave_context
  fetch_with_context room n w =
      let v = init_variants 0 n (record w { arrays = w.arrays + 1 }) in
      let o = fetch room n v in leave_context n (o.0) (o.1)

  -- The method Next; `room` is for the worker, `memory` for the array.
  unfoldable pub next : Bool → Bool → ℕ → Option (Option ℕ) → Run (World S) (Called L)
  unfolding requested fetch_with_context
  next stack memory room param = lift (requested param) >>= λ n.
      if n == 0
      then pure (returned [])
      else if not stack || not memory
      then lift (throw malloc_error)
      else fetch_with_context room n

  -- Reset: whether the server answers S_OK.
  unfoldable pub reset : (S → Bool × S) → Run (World S) (Called L)
  reset server_reset w =
      let (done, s) = server_reset w.server in
      (if done then ok (returned []) else throw luacom_error, record w { server = s })

  -- Skip: the Boolean that it returns.
  unfoldable pub skip : (S → ℕ → Bool × S) → Option (Option ℕ) → Run (World S) Bool
  unfolding requested
  skip server_skip none = lift (throw luacom_error)
  skip server_skip (some param) = lift (requested (some param)) >>= λ n.
      λ w. let (done, s) = server_skip w.server n in (ok done, record w { server = s })

  -- Clone: whether the server makes a clone, and whether there is memory for the wrapper, which keeps
  -- a reference of its own while that of the method goes.
  unfoldable pub clone : Bool → Bool → Run (World S) (Unit {0})
  clone cloned memory w =
      if not cloned
      then (throw com_error, w)
      else (let v = record w { clones = w.clones + 1 } in
          if memory
          then (ok tt, record v { clones = v.clones + 1 - 1 })
          else (throw malloc_error, record v { clones = v.clones - 1 }))

  -- call_method: a tLuaCOMException becomes an error of Lua.
  unfoldable pub call_method : Result (Called L) → Result (Called L)
  call_method (ok c) = ok c
  call_method (throw e) = if is_luacom_exception e then ok lua_failed else throw e
  call_method fault = fault
