-- ===== src/ConnPoint/Snapshot.antt =====
-- `EnumConnections`: the copy of the slots in use that it hands to the enumerator's `Init`.
use luacom.Prelude.{
  ℕ, zero, suc, ◌≡◌, refl, ◌≢◌, false, Option, none, some, List, [], ◌∷◌, arith, ◌==◌,
  if◌then◌else◌, length,
}
use luacom.ConnPoint.{ConnPoint}
use luacom.ConnPoint.Slots.{slot, has, Parallel}
use luacom.ConnPoint.Table.{IsValid, connection}

-- The loop that copies each connection whose cookie is not 0, with its cookie.
pub used_connections : List ℕ → List (Option ℕ) → List (Option ℕ) × List ℕ
used_connections [] ps = ([], [])
used_connections (c ∷ cs) [] = ([], [])
used_connections (c ∷ cs) (p ∷ ps) =
    let rest = used_connections cs ps in if c == 0 then rest else (p ∷ rest.0, c ∷ rest.1)

-- The connection beside a cookie in the two vectors of an enumerator.
unfoldable pub paired : ℕ → List (Option ℕ) → List ℕ → Option (Option ℕ)
paired k [] cs = none
paired k (p ∷ ps) [] = none
paired k (p ∷ ps) (c ∷ cs) = if c == k then some p else paired k ps cs

abbrev pub connected : Option (Option ℕ × Option ℕ) → Option (Option ℕ)
connected none = none
connected (some (p, s)) = some p

used-paired :
    (k : ℕ) (cs : List ℕ) (ps ss : List (Option ℕ))
    → Parallel cs ps ss
    → k ≢ 0
    → paired k (used_connections cs ps).0 (used_connections cs ps).1 ≡ connected (slot k cs ps ss)
unfolding used_connections paired slot
used-paired k [] [] [] h nz = refl
used-paired k (zero ∷ cs) (none ∷ ps) (none ∷ ss) h nz = ground (arith, used-paired k cs ps ss h nz)
used-paired k (suc c ∷ cs) (some p ∷ ps) (some s ∷ ss) h nz =
    ground (arith, used-paired k cs ps ss h nz)
used-paired k _ _ _ h nz = absurd h

used-has : (cs : List ℕ) (ps : List (Option ℕ)) → has 0 (used_connections cs ps).1 ≡ false
unfolding used_connections has
used-has [] ps = refl
used-has (c ∷ cs) [] = refl
used-has (c ∷ cs) (p ∷ ps) = ground (arith, used-has cs ps)

used-length :
    (cs : List ℕ) (ps : List (Option ℕ))
    → length (used_connections cs ps).0 ≡ length (used_connections cs ps).1
unfolding used_connections
used-length [] ps = refl
used-length (c ∷ cs) [] = refl
used-length (c ∷ cs) (p ∷ ps) = ground (arith, used-length cs ps)

-- The copy has two vectors of one length, no free slot, and under each cookie but 0 the
-- connection that the connection point has under it.
pub used_connections-connection :
    (cp : ConnPoint) (k : ℕ)
    → IsValid cp
    → k ≢ 0
    → let copy = used_connections cp.cookies cp.connections in
      (length copy.0 ≡ length copy.1)
      × (has 0 copy.1 ≡ false)
      × (paired k copy.0 copy.1 ≡ connected (connection cp k))
unfolding connection
used_connections-connection cp k v nz = (
  used-length cp.cookies cp.connections,
  used-has cp.cookies cp.connections,
  ground (arith, used-paired k cp.cookies cp.connections cp.sinks v.parallel nz),
)
