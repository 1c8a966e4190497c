-- ===== src/ConnPoint.antt =====
-- tLuaCOMConnPoint (src/library/tLuaCOMConnPoints.cpp): the table of connected sinks that a
-- connection point keeps in three parallel vectors, and its operations.
pub mod Slots
pub mod Laws
pub mod Table
pub mod Owned
pub mod Events
pub mod Snapshot
use luacom.Prelude.{
  ℕ, zero, suc, ◌+◌, ◌%◌, ◌^◌, ◌≡◌, refl, Bool, true, false, ◌&&◌, not, Option, none, some, List,
  [], ◌∷◌, ◌++◌, ◌==◌, if◌then◌else◌, length, set, get_elem?,
}
use luacom.Com.{
  HResult, s_ok, e_pointer, e_outofmemory, e_unexpected, connect_e_cannotconnect,
  connect_e_noconnection,
}
use Slots.{find}

-- enum { COOKIE_START_VALUE = 400 }
abbrev pub cookie_start_value : ℕ
cookie_start_value = 400

-- A null interface pointer is `none`. A cookie of 0 marks a free slot. `unlocked` is the log of
-- the sinks whose `Unlock` the connection point has called.
pub record ConnPoint : Type 0 where
  pub iid : ℕ
  pub connections : List (Option ℕ)
  pub cookies : List ℕ
  pub sinks : List (Option ℕ)
  pub next_cookie : ℕ
  pub unlocked : List ℕ

unfoldable pub new_conn_point : ConnPoint
new_conn_point = record {
  iid = 0;
  connections = [];
  cookies = [];
  sinks = [];
  next_cookie = cookie_start_value;
  unlocked = [];
}

-- The loop of `Init` and of the destructor: `Unlock` of each sink that is not null.
pub unlock_all : List (Option ℕ) → List ℕ → List ℕ
unlock_all [] log = log
unlock_all (none ∷ sinks) log = unlock_all sinks log
unlock_all (some s ∷ sinks) log = unlock_all sinks (s ∷ log)

pub init : ConnPoint → ℕ → HResult × ConnPoint
init cp iid = (
  s_ok,
  record cp {
    iid = iid;
    connections = [];
    cookies = [];
    sinks = [];
    unlocked = unlock_all cp.sinks cp.unlocked;
  },
)

-- The destructor, as the log of the sinks that are unlocked when it returns.
pub destroy : ConnPoint → List ℕ
destroy cp = unlock_all cp.sinks cp.unlocked

-- What `tLuaCOM::CreateLuaCOM` does: a new sink, a tLuaCOMException, or another exception.
pub data Creation : Type 0 where
  made : ℕ → Creation
  luacom_exception other_exception : Creation

-- The arguments of `Advise` and what the code it calls answers: whether `pUnkSink` and
-- `pdwCookie` are given, the IDispatch that `QueryInterface` finds, whether the three `reserve`
-- calls succeed, and what becomes of the sink's creation.
pub record AdviseCall : Type 0 where
  pub sink_given : Bool
  pub cookie_given : Bool
  pub dispatch : Option ℕ
  pub reserved : Bool
  pub creation : Creation

-- A call whose arguments are given, whose sink is an IDispatch and is created, and which has the
-- storage that it reserves.
abbrev pub accepted : ℕ → ℕ → AdviseCall
accepted d s = record {
  sink_given = true;
  cookie_given = true;
  dispatch = some d;
  reserved = true;
  creation = made s;
}

-- A call's result code, what it writes to `*pdwCookie`, and the connection point it leaves.
pub record Advised : Type 0 where
  pub result : HResult
  pub cookie_out : Option ℕ
  pub point : ConnPoint

-- Append a slot, or fill the free one, and take the next cookie.
pub commit : ConnPoint → Option ℕ → ℕ → ℕ → ConnPoint
commit cp none dispatch sink = record cp {
  connections = cp.connections ++ some dispatch ∷ [];
  cookies = cp.cookies ++ cp.next_cookie ∷ [];
  sinks = cp.sinks ++ some sink ∷ [];
  next_cookie = (cp.next_cookie + 1) % 2 ^ 32;
}
commit cp (some free) dispatch sink = record cp {
  connections = set cp.connections free (some dispatch);
  cookies = set cp.cookies free cp.next_cookie;
  sinks = set cp.sinks free (some sink);
  next_cookie = (cp.next_cookie + 1) % 2 ^ 32;
}

-- `Advise` behind its argument checks, with the free slot that `std::find` has found.
unfoldable pub advise_at : ConnPoint → Option ℕ → Bool → ℕ → Creation → Advised
unfolding commit
advise_at cp free storage dispatch creation =
    if not storage
    then record { result = e_outofmemory; cookie_out = some 0; point = cp }
    else elim creation [
      | luacom_exception ↦ record {
        result = connect_e_cannotconnect;
        cookie_out = some 0;
        point = cp;
      }
      | other_exception ↦ record { result = e_outofmemory; cookie_out = some 0; point = cp }
      | made sink ↦ record {
        result = s_ok;
        cookie_out = some cp.next_cookie;
        point = commit cp free dispatch sink;
      }
    ]

-- Storage is reserved only where a slot is appended.
abbrev pub storage_ready : Option ℕ → Bool → Bool
storage_ready none reserved = reserved
storage_ready (some free) reserved = true

pub storage_ready-true : (free : Option ℕ) → storage_ready free true ≡ true
storage_ready-true none = refl
storage_ready-true (some i) = refl

-- `Advise` behind `QueryInterface`.
unfoldable pub advise_dispatch : ConnPoint → Option ℕ → Bool → Creation → Advised
unfolding advise_at find
advise_dispatch cp none reserved creation = record {
  result = connect_e_cannotconnect;
  cookie_out = some 0;
  point = cp;
}
advise_dispatch cp (some dispatch) reserved creation =
    let free = find 0 cp.cookies in
    advise_at cp free (storage_ready free reserved) dispatch creation

unfoldable pub advise : ConnPoint → AdviseCall → Advised
unfolding advise_dispatch
advise cp c =
    if c.sink_given && c.cookie_given
    then advise_dispatch cp c.dispatch c.reserved c.creation
    else record { result = e_pointer; cookie_out = none; point = cp }

abbrev log_unlock : Option (Option ℕ) → List ℕ → List ℕ
log_unlock none log = log
log_unlock (some none) log = log
log_unlock (some (some sink)) log = sink ∷ log

-- `Unadvise` at the position that `std::find` has found.
pub clear_slot : ConnPoint → ℕ → ConnPoint
clear_slot cp pos = record cp {
  connections = set cp.connections pos none;
  cookies = set cp.cookies pos 0;
  sinks = set cp.sinks pos none;
  unlocked = log_unlock (get_elem? cp.sinks pos) cp.unlocked;
}

pub unadvise : ConnPoint → ℕ → HResult × ConnPoint
unfolding clear_slot find
unadvise cp cookie = if cookie == 0 then (e_unexpected, cp) else elim (find cookie cp.cookies) [
  | none ↦ (connect_e_noconnection, cp)
  | some pos ↦ (s_ok, clear_slot cp pos)
]
