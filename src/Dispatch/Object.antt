-- ===== src/Dispatch/Object.antt =====
-- The life of a tLuaDispatch (src/library/tLuaDispatch.cpp): its constructor, its references and
-- interfaces, and what it frees with its last reference.
use luacom.Prelude.{
  ℕ, suc, ◌+◌, ◌-◌, Bool, true, false, not, List, [], ◌∷◌, ◌++◌, reverse, ◌==◌, if◌then◌else◌,
}
use luacom.Prelude.Result.{Result, ok, throw, fault, internal_error, windows_error, malloc_error}
use luacom.Prelude.Run.{Run, ◌>>◌, pure, lift, modify, when}
use luacom.Dispatch.{FuncInfo}

-- What is held of the world outside: references to the type information and to that of a coclass,
-- FUNCDESCs by their number, BSTRs, names, the array of them, type handlers, locks of the
-- Lua table, connection point containers.
pub record Held : Type 0 where
  pub type_infos : ℕ
  pub coclass_infos : ℕ
  pub func_descs : List ℕ
  pub strings : ℕ
  pub names : ℕ
  pub arrays : ℕ
  pub handlers : ℕ
  pub table_locks : ℕ
  pub containers : ℕ

-- Take out the first FUNCDESC with a number.
unfoldable pub without : ℕ → List ℕ → List ℕ
without i [] = []
without i (j ∷ l) = if i == j then l else j ∷ without i l

abbrev pub take_desc : ℕ → Held → Held
take_desc i h = record h { func_descs = i ∷ h.func_descs }

unfoldable pub release_desc : ℕ → Held → Held
unfolding without
release_desc i h = record h { func_descs = without i h.func_descs }

abbrev pub take_string : Held → Held
take_string h = record h { strings = h.strings + 1 }

abbrev pub free_string : Held → Held
free_string h = record h { strings = h.strings - 1 }

abbrev pub take_name : Held → Held
take_name h = record h { names = h.names + 1 }

abbrev pub delete_name : Held → Held
delete_name h = record h { names = h.names - 1 }

-- What the system answers for a function: whether there is a FUNCDESC, whether it is restricted,
-- whether its name is found, or a text comes back all the same, and whether the name's size, its
-- memory and its bytes are obtained.
pub record FuncAnswer (V : Type 0) : Type 0 where
  pub described : Bool
  pub restricted : Bool
  pub named : Bool
  pub stray_text : Bool
  pub sized : Bool
  pub allocated : Bool
  pub converted : Bool
  pub info : FuncInfo V

-- The object under construction, and what is held.
pub record Building (V : Type 0) : Type 0 where
  pub funcs : List (FuncInfo V)
  pub held : Held

-- What the constructor is answered before the loop: the type handler, the TYPEATTR, the array.
pub record Answers (V : Type 0) : Type 0 where
  pub handler : Bool
  pub attributes : Bool
  pub array : Bool
  pub functions : List (FuncAnswer V)

module _ {V : Type 0} where
  abbrev pub holding : (Held → Held) → Run (Building V) (Unit {0})
  holding f = modify (λ b. record b { held = f b.held })

  -- One round of the loop over the functions.
  unfoldable pub load_function : ℕ → FuncAnswer V → Run (Building V) (Unit {0})
  unfolding release_desc
  load_function i a =
      if not a.described
      then lift (throw internal_error)
      else holding (take_desc i)
        >> (if a.restricted
            then holding (release_desc i)
            else if not a.named
            then when a.stray_text (holding take_string >> holding free_string)
              >> holding (release_desc i)
              >> lift (throw internal_error)
            else holding take_string
              >> (if not a.sized
                  then holding free_string >> holding (release_desc i) >> lift (throw windows_error)
                  else if not a.allocated
                  then holding free_string >> holding (release_desc i) >> lift (throw malloc_error)
                  else holding take_name
                    >> (if not a.converted
                        then holding delete_name
                          >> holding free_string
                          >> holding (release_desc i)
                          >> lift (throw windows_error)
                        else holding free_string
                          >> modify (λ b. record b {
                            funcs = b.funcs ++ record a.info { index = i } ∷ [];
                          }))))

  unfoldable pub load_functions : ℕ → List (FuncAnswer V) → Run (Building V) (Unit {0})
  unfolding load_function
  load_functions i [] = pure tt
  load_functions i (a ∷ as') = load_function i a >> load_functions (suc i) as'

  -- The loop `while(num_methods--)`, over the functions from the last one.
  unfoldable pub release_functions : List (FuncInfo V) → Held → Held
  unfolding release_desc
  release_functions [] h = h
  release_functions (f ∷ fs) h = release_functions fs (delete_name (release_desc f.index h))

  -- The handler of the constructor, with whether the type handler and the array are there.
  unfoldable pub give_up : Bool → Bool → Building V → Held
  unfolding release_functions
  give_up handler array b =
      let h = release_functions (reverse b.funcs) b.held in
      record h {
        arrays = if array then h.arrays - 1 else h.arrays;
        handlers = if handler then h.handlers - 1 else h.handlers;
        type_infos = h.type_infos - 1;
        table_locks = h.table_locks - 1;
      }

-- A constructed object.
pub record Server (V : Type 0) : Type 0 where
  pub refs : ℕ
  pub funcs : List (FuncInfo V)
  pub has_class_info : Bool
  pub has_container : Bool

module _ {V : Type 0} where
  unfoldable pub built : Result (Unit {0}) → Building V → Result (Server V) × Held
  unfolding give_up
  built (ok t) b = (
    ok (record { refs = 0; funcs = b.funcs; has_class_info = false; has_container = false }),
    b.held,
  )
  built (throw e) b = (throw e, give_up true true b)
  built fault b = (fault, b.held)

  unfoldable pub construct : Answers V → Held → Result (Server V) × Held
  unfolding built load_functions
  construct a h =
      let locked = record h { table_locks = h.table_locks + 1; type_infos = h.type_infos + 1 } in
      let handled = record locked { handlers = locked.handlers + 1 } in
      let start = record handled { arrays = handled.arrays + 1 } in
      let r = load_functions 0 a.functions (record { funcs = []; held = start }) in
      if not a.handler
      then (throw malloc_error, give_up {V = V} false false (record { funcs = []; held = locked }))
      else if not a.attributes
      then (
        throw internal_error,
        give_up {V = V} true false (record { funcs = []; held = handled }),
      )
      else if not a.array
      then (throw malloc_error, give_up {V = V} true false (record { funcs = []; held = handled }))
      else built r.0 r.1

  -- CreateLuaDispatch
  unfoldable pub created : Result (Server V) → Held → Result (Server V) × Held
  created (ok s) h = (ok (record s { refs = s.refs + 1 }), h)
  created (throw e) h = (throw e, h)
  created fault h = (fault, h)
