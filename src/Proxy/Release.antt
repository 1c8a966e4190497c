-- ===== src/Proxy/Release.antt =====
-- Histories of calls on the object, and what releasing its connections leaves behind.
use luacom.Prelude.{
  ℕ, ◌≡◌, refl, sym, ap, ◌∙◌, ◌≢◌, ◌↔◌, Bool, true, false, Option, List, [], ◌∷◌, ◌++◌, append-nil,
  append_assoc, arith, if◌then◌else◌, Bool-cases, inl, inr,
}
use luacom.Prelude.Result.{ok, throw, luacom_error}
use luacom.Proxy.{
  Connection, Proxy, Route, end_live, record_connection, unadvise, add_connection, release_last,
  release_connection, release_all, release_connections, release_com_object, answered,
}
use luacom.Proxy.Tracked.{live_count, record_count, Tracked}
use luacom.Proxy.Methods.{
  Keeps, add_connection-Tracked, release_last-Tracked, release_connection-Tracked,
  release_connections-Tracked,
}

-- A call of a method, with what the other side answers.
pub data Call : Type 0 where
  adds : Route → ℕ → Option ℕ → Bool → Call
  releases_last : Bool → Call
  releases : Bool → ℕ → ℕ → Bool → Call
  releases_all : (ℕ → ℕ → Bool) → Call
  releases_object : (ℕ → ℕ → Bool) → Call

module _ (callback : ℕ → ℕ → Proxy → Proxy) (metadata : Proxy → Proxy) (find : ℕ → ℕ) where
  unfoldable pub step : Proxy → Call → Proxy
  step x (adds r guid answer success) =
      (add_connection callback metadata find x r guid answer success).1
  step x (releases_last success) = (release_last callback metadata find x success).1
  step x (releases found guid k success) =
      (release_connection callback metadata find x found guid k success).1
  step x (releases_all answers) = (release_connections callback metadata find answers x).1
  step x (releases_object answers) = (release_com_object callback metadata find answers x).1

  unfoldable pub run : Proxy → List Call → Proxy
  unfolding step
  run x [] = x
  run x (c ∷ cs) = run (step x c) cs

module _ (callback : ℕ → ℕ → Proxy → Proxy) (metadata : Proxy → Proxy) (find : ℕ → ℕ)
    (callback_keeps : (p k : ℕ) → Keeps find (callback p k))
    (metadata_keeps : Keeps find metadata) where
  release_com_object-Tracked :
      (answers : ℕ → ℕ → Bool) (ds : List Connection) (x : Proxy)
      → Tracked find ds x
      → Tracked find ds (release_com_object callback metadata find answers x).1
  unfolding release_com_object
  release_com_object-Tracked answers ds x t =
      release_connections-Tracked callback metadata find callback_keeps metadata_keeps answers ds _
        (record { on_record = t.on_record; placed = t.placed; placed_detached = t.placed_detached })

  -- A method called by a callback of another keeps connections on record in the same way.
  pub step-Tracked : (c : Call) → Keeps find (λ x. step callback metadata find x c)
  unfolding step
  step-Tracked (adds r guid answer success) ds x t =
      add_connection-Tracked callback metadata find callback_keeps metadata_keeps r guid answer
        success ds x t
  step-Tracked (releases_last success) ds x t =
      release_last-Tracked callback metadata find callback_keeps metadata_keeps success ds x t
  step-Tracked (releases found guid k success) ds x t =
      release_connection-Tracked callback metadata find callback_keeps metadata_keeps found success
        guid k ds x t
  step-Tracked (releases_all answers) ds x t =
      release_connections-Tracked callback metadata find callback_keeps metadata_keeps answers ds x
        t
  step-Tracked (releases_object answers) ds x t = release_com_object-Tracked answers ds x t

  -- After any calls of the methods, whatever the other side answers, and with callbacks that keep
  -- connections on record, every connection under a cookie that is not 0 and that a point holds is
  -- on record, at least as often as the point holds it.
  pub run-Tracked :
      (cs : List Call) (ds : List Connection) (x : Proxy)
      → Tracked find ds x
      → Tracked find ds (run callback metadata find x cs)
  unfolding run
  run-Tracked [] ds x t = t
  run-Tracked (c ∷ cs) ds x t = run-Tracked cs ds _ (step-Tracked c ds x t)

-- The records whose release has failed, in their order.
unfoldable pub failed : (ℕ → ℕ → Bool) → List Connection → List Connection
failed answers [] = []
failed answers (c ∷ cs) =
    if answers c.point c.cookie then failed answers cs else c ∷ failed answers cs

failed_none : (cs : List Connection) → failed (λ q j. true) cs ≡ []
unfolding failed
failed_none [] = refl
failed_none (c ∷ cs) = failed_none cs

answered_iff : (b : Bool) → (answered b ≡ ok tt) ↔ (b ≡ true)
answered_iff true = (λ e. refl, λ e. refl)
answered_iff false = (λ e. absurd cc, λ e. absurd cc)

abbrev pub quiet : ℕ → ℕ → Proxy → Proxy
quiet p k x = x

module _ (find : ℕ → ℕ) where
  release_all-failed :
      (answers : ℕ → ℕ → Bool) (cs : List Connection) (x : Proxy)
      → let r = release_all quiet (λ y. y) find answers cs x in
        (r.1.connections ≡ x.connections ++ failed answers cs)
        × ((r.0 ≡ true) ↔ (failed answers cs ≡ []))
        × (r.1.attached ≡ x.attached)
  unfolding release_all unadvise failed
  release_all-failed answers [] x = (sym (append-nil x.connections), (λ e. refl, λ e. refl), refl)
  release_all-failed answers (c ∷ cs) x = elim (Bool-cases (answers c.point c.cookie)) [
    | inl e ↦
        rw e (release_all-failed answers cs (record x { live = end_live c.point c.cookie x.live }))
    | inr e ↦
        let (l, b, a) = release_all-failed answers cs (record_connection c x) in
        rw e (l ∙ append_assoc x.connections (c ∷ []) (failed answers cs), (λ h. cc, λ h. cc), a)
  ]

  -- With callbacks that leave the object alone: releaseConnections keeps on record exactly the
  -- connections whose `Unadvise` has failed, in their order, for another try, and reports success
  -- exactly if there is none; releaseComObject does the same, and leaves the object detached, so
  -- that addConnection throws.
  pub release_com_object-failed :
      (answers : ℕ → ℕ → Bool) (x : Proxy) (r : Route) (guid : ℕ) (answer : Option ℕ)
      (success : Bool)
      → let y = release_connections quiet (λ z. z) find answers x in
        let z = release_com_object quiet (λ z. z) find answers x in
        (y.1.connections ≡ failed answers x.connections)
        × ((y.0 ≡ true) ↔ (failed answers x.connections ≡ []))
        × (z.1.connections ≡ failed answers x.connections)
        × ((z.0 ≡ ok tt) ↔ (failed answers x.connections ≡ []))
        × (add_connection quiet (λ z. z) find z.1 r guid answer success ≡ (throw luacom_error, z.1))
  unfolding release_connections release_com_object add_connection
  release_com_object-failed answers x r guid answer success =
      let (l, b, a) = release_all-failed answers x.connections (record x { connections = [] }) in
      let (m, c, d) =
        release_all-failed answers x.connections
          (record x { attached = false; connections = [] }) in
      (l, b, m, (λ e. c.0 ((answered_iff _).0 e), λ e. (answered_iff _).1 (c.1 e)), rw d refl)

  -- Where every `Unadvise` succeeds and callbacks leave the object alone, releasing an object whose
  -- connections are on record ends each connection under a cookie that is not 0.
  pub release_com_object-live_count :
      (x : Proxy) (p k : ℕ)
      → Tracked find [] x
      → k ≢ 0
      → live_count p k (release_com_object quiet (λ z. z) find (λ q j. true) x).1.live ≡ 0
  unfolding step release_com_object release_connections record_count
  release_com_object-live_count x p k t n =
      let u =
        step-Tracked quiet (λ z. z) find (λ q j ds y s. s) (λ ds y s. s)
          (releases_object (λ q j. true)) [] x t in
      let m =
        release_all-failed (λ q j. true) x.connections
          (record x { attached = false; connections = [] }) in
      omega (arith, u.on_record p k n, ap (record_count p k) (m.0 ∙ failed_none x.connections))
