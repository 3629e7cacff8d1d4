-- ===== src/Hal/Port/Lifetime.antt =====
-- Setting a port up and tearing it down.
use android_device_peter_gsi.Base.{
  ℕ, ◌≡◌, refl, sym, ap, ◌∙◌, subst, inl, inr, arith, Bool, true, false, not, ◌&&◌, none, some,
  ◌==◌, Bool-cases, Option-cases, ==_iff, if◌then◌else◌,
}
use android_device_peter_gsi.Session.Types.{
  SessionType, SessionCodes, PortStatusCallbacks, cookie_undefined,
}
use android_device_peter_gsi.Session.Observers.{find}
use android_device_peter_gsi.Session.State.{is_session_ready}
use android_device_peter_gsi.Session.Registration.{AreDistinct, register_status_cback-AreDistinct}
use android_device_peter_gsi.Session.Instances.{Instances, same_type}
use android_device_peter_gsi.Session.Instances.Control as Sessions
use android_device_peter_gsi.Session.Instances.Refinement.{session_of}
use android_device_peter_gsi.Hal.Port.{
  StreamState, Device, Port, PortEvent, device_session_type, in_use, handle, init_session_type,
  set_up, tear_down, callbacks, register_port, check_session,
}
use android_device_peter_gsi.Hal.Port.Registration.{
  observer, same-subst, is_ready-session_of, register-session_of, register-observer,
  unregister-observer,
}

module _ (codes : SessionCodes) where
  -- The port that a set-up leaves is in use and in standby; its cookie was free, and it is the one observer
  -- that is new: every session finds what it found before under every other cookie.
  abbrev pub IsSetUp : ℕ → Instances → Port × Instances → Type 0
  IsSetUp owner m (p', m') =
      (in_use codes p' ≡ true)
      × (p'.state ≡ StreamState.standby)
      × (observer codes m p'.session_type p'.cookie ≡ none)
      × ((u : SessionType) (j : ℕ)
          → observer codes m' u j ≡ (
              if same_type codes p'.session_type u && (p'.cookie == j)
              then some (callbacks codes owner)
              else observer codes m u j))

  -- Moreover, distinct cookies stay distinct.
  abbrev pub IsFresh : ℕ → Instances → Port × Instances → Type 0
  IsFresh owner m (p', m') =
      IsSetUp owner m (p', m')
      × (AreDistinct (session_of codes m p'.session_type).observers
          → AreDistinct (session_of codes m' p'.session_type).observers)

  register-AreDistinct :
      (t : SessionType) (cb : PortStatusCallbacks) (m : Instances)
      → AreDistinct (session_of codes m t).observers
      → let m' = (Sessions.register_control_result_cback codes t cb m).0 in
        AreDistinct (session_of codes m' t).observers
  register-AreDistinct t cb m distinct =
      let view = (register-session_of codes t cb m).0 t in
      let self : same_type codes t t ≡ true = ground arith in
      subst (λ s. AreDistinct s.observers) (sym view)
        (rw self (register_status_cback-AreDistinct codes (session_of codes m t) cb distinct))

  not-true : (b : Bool) → not b ≡ true → b ≡ false
  not-true b h = ground arith

  register_port-IsFresh :
      (owner : ℕ) (p : Port) (m : Instances)
      → (register_port codes owner p m).1 ≡ true
      → IsFresh owner m (register_port codes owner p m).0
  unfolding register_port in_use
  register_port-IsFresh owner p m h =
      let (free, found) =
        register-observer codes p.session_type (callbacks codes owner) m (not-true _ h) in
      ((h, refl, free, found), register-AreDistinct p.session_type (callbacks codes owner) m)

  set_up-known :
      (owner : ℕ) (device : Device) (p : Port) (m : Instances) (t : SessionType)
      → device_session_type device ≡ some t
      → let (m1, ready) = Sessions.is_ready codes t m in
        set_up codes owner device p m ≡ (
          if ready
          then register_port codes owner (record p { session_type = t }) m1
          else ((record p { session_type = t }, m1), false))
  unfolding set_up init_session_type
  set_up-known owner device p m t known =
      ap
        (λ o.
          let ((p', m'), ready) = check_session codes o p m in
          if ready then register_port codes owner p' m' else ((p', m'), false))
        known

  register_port-session_type :
      (owner : ℕ) (p : Port) (m : Instances)
      → (register_port codes owner p m).0.0.session_type ≡ p.session_type
  unfolding register_port
  register_port-session_type owner p m = refl

  set_up-unknown :
      (owner : ℕ) (device : Device) (p : Port) (m : Instances)
      → device_session_type device ≡ none
      → (set_up codes owner device p m).1 ≡ true
      → ⊥
  unfolding set_up init_session_type
  set_up-unknown owner device p m unknown h = ground (arith, unknown, h)

  false-true : false ≡ true → ⊥
  false-true h = cc

  cleared-in_use : (p : Port) → in_use codes (record p { cookie = cookie_undefined codes }) ≡ false
  unfolding in_use
  cleared-in_use p = ground arith

  unused-handle : (e : PortEvent) (p : Port) → in_use codes p ≡ false → handle codes e p ≡ p
  unfolding handle
  unused-handle (PortEvent.control_result cookie status) p h = rw h refl
  unused-handle (PortEvent.session_changed cookie) p h = rw h refl

  -- A map in which every session is as before the set-up serves as well.
  IsFresh-before :
      (owner : ℕ) (m m1 : Instances) (r : Port × Instances)
      → ((u : SessionType) → session_of codes m1 u ≡ session_of codes m u)
      → IsFresh owner m1 r
      → IsFresh owner m r
  IsFresh-before owner m m1 (p', m') view ((used, standby, free, found), distinct) = (
    (
      used,
      standby,
      subst (λ s. find p'.cookie s.observers ≡ none) (view p'.session_type) free,
      λ u j.
          subst
            (λ s. observer codes m' u j ≡ (
              if same_type codes p'.session_type u && (p'.cookie == j)
              then some (callbacks codes owner)
              else find j s.observers))
            (view u) (found u j),
    ),
    λ d. distinct (subst (λ s. AreDistinct s.observers) (sym (view p'.session_type)) d),
  )

  pub set_up-IsFresh :
      (owner : ℕ) (device : Device) (p : Port) (m : Instances)
      → (set_up codes owner device p m).1 ≡ true
      → let r = (set_up codes owner device p m).0 in
        (device_session_type device ≡ some r.0.session_type)
        × (is_session_ready (session_of codes m r.0.session_type) ≡ true)
        × IsFresh owner m r
  set_up-IsFresh owner device p m h = elim (Option-cases (device_session_type device)) [
    | inl unknown ↦ absurd (set_up-unknown owner device p m unknown h)
    | inr (t, known) ↦
        let (m1, ready) = Sessions.is_ready codes t m in
        let (view, same) = is_ready-session_of codes t m in
        let q : Port = record p { session_type = t } in
        let eq = set_up-known owner device p m t known in
        elim (Bool-cases ready) [
          | inr idle ↦ absurd (
              false-true (
                sym (
                  ap (λ b. (if b then register_port codes owner q m1 else ((q, m1), false)).1) idle)
                ∙ sym (ap (λ x. x.1) eq)
                ∙ h))
          | inl started ↦
              let now : set_up codes owner device p m ≡ register_port codes owner q m1 =
                eq
                ∙ ap (λ b. if b then register_port codes owner q m1 else ((q, m1), false))
                    started in
              subst
                (λ r.
                  (device_session_type device ≡ some r.0.0.session_type)
                  × (is_session_ready (session_of codes m r.0.0.session_type) ≡ true)
                  × IsFresh owner m r.0)
                (sym now)
                (
                  known ∙ ap some (sym (register_port-session_type owner q m1)),
                  subst (λ x. is_session_ready (session_of codes m x) ≡ true)
                      (sym (register_port-session_type owner q m1)) (sym same ∙ started),
                  IsFresh-before owner m m1 (register_port codes owner q m1).0 view
                      (register_port-IsFresh owner q m1 (ap (λ x. x.1) (sym now) ∙ h)),
                )
        ]
  ]

  -- If `set_up` returns true, the device has a session type, whose session is ready, the port has that type,
  -- is in use and in standby, its cookie was free, and it is the one observer that is new: every session
  -- finds what it found before under every other cookie.
  pub set_up-outcome :
      (owner : ℕ) (device : Device) (p : Port) (m : Instances)
      → (set_up codes owner device p m).1 ≡ true
      → let r = (set_up codes owner device p m).0 in
        (device_session_type device ≡ some r.0.session_type)
        × (is_session_ready (session_of codes m r.0.session_type) ≡ true)
        × IsSetUp owner m r
  set_up-outcome owner device p m h =
      let (known, started, up) = set_up-IsFresh owner device p m h in (known, started, up.0)

  -- Tearing down a port that is in use takes its observer out of its session and no other observer out of any
  -- session, if the cookies of that session are distinct; the port is not in use afterwards, and no
  -- callback changes it any more.
  pub tear_down-outcome :
      (p : Port) (m : Instances)
      → in_use codes p ≡ true
      → AreDistinct (session_of codes m p.session_type).observers
      → let (p', m') = tear_down codes p m in
        (in_use codes p' ≡ false)
        × ((e : PortEvent) → handle codes e p' ≡ p')
        × ((u : SessionType) (j : ℕ)
            → observer codes m' u j ≡ (
                if same_type codes p.session_type u && (p.cookie == j)
                then none
                else observer codes m u j))
  unfolding tear_down
  tear_down-outcome p m used distinct =
      let gone : in_use codes (record p { cookie = cookie_undefined codes }) ≡ false =
        cleared-in_use p in
      rw used (
        gone,
        (λ e. unused-handle e _ gone),
        unregister-observer codes p.session_type p.cookie m distinct,
      )

  pub restored :
      (owner : ℕ) (t u : SessionType) (c j : ℕ) (m : Instances)
      → observer codes m t c ≡ none
      → (if same_type codes t u && (c == j)
          then none
          else (if same_type codes t u && (c == j)
              then some (callbacks codes owner)
              else observer codes m u j))
        ≡ observer codes m u j
  restored owner t u c j m free = elim (Bool-cases (same_type codes t u)) [
    | inr d ↦ rw d refl
    | inl e ↦ elim (Bool-cases (c == j)) [
      | inr d ↦ rw (e, d) refl
      | inl f ↦
          rw (e, f)
            (sym (
              same-subst codes (λ x. observer codes m x j ≡ none) t u e
                (subst (λ x. observer codes m t x ≡ none) ((==_iff c j).0 f) free)))
    ]
  ]

  -- Tearing down the port that a successful `set_up` leaves gives every session back the observers that it
  -- had, if the cookies of the port's session were distinct.
  pub set_up-tear_down :
      (owner : ℕ) (device : Device) (p : Port) (m : Instances)
      → (set_up codes owner device p m).1 ≡ true
      → AreDistinct (session_of codes m (set_up codes owner device p m).0.0.session_type).observers
      → (u : SessionType) (j : ℕ)
      → let (p', m') = (set_up codes owner device p m).0 in
        observer codes (tear_down codes p' m').1 u j ≡ observer codes m u j
  set_up-tear_down owner device p m h d u j =
      let ((p', m'), ready) = set_up codes owner device p m in
      let (known, started, ((used, standby, free, found), distinct)) =
        set_up-IsFresh owner device p m h in
      let (gone, silent, removed) = tear_down-outcome p' m' used (distinct d) in
      removed u j
      ∙ ap (λ o. if same_type codes p'.session_type u && (p'.cookie == j) then none else o)
          (found u j)
      ∙ restored owner p'.session_type u p'.cookie j m free
