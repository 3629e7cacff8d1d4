-- ===== src/Hal/Port/Registration.antt =====
-- What registering and unregistering the callbacks of a port do to the observers of all sessions.
use android_device_peter_gsi.Base.{
  ℕ, ◌≡◌, refl, sym, ap, ◌∙◌, subst, inl, inr, arith, true, false, ◌&&◌, Option, none, some, ◌==◌,
  Bool-cases, ==_iff, if◌then◌else◌,
}
use android_device_peter_gsi.Session.Types.{
  SessionType, SessionCodes, PortStatusCallbacks, cookie_undefined,
}
use android_device_peter_gsi.Session.Observers.{find}
use android_device_peter_gsi.Session.State.{Session, is_session_ready}
use android_device_peter_gsi.Session.Control.{register_status_cback, unregister_status_cback}
use android_device_peter_gsi.Session.Registration.{
  AreDistinct, find-erase, register_status_cback-outcome,
}
use android_device_peter_gsi.Session.Instances.{Instances, same_type, reading}
use android_device_peter_gsi.Session.Instances.Control as Sessions
use android_device_peter_gsi.Session.Instances.Refinement.{
  session_of, update, spec_with_session, with_session-refines,
}

module _ (codes : SessionCodes) where
  -- What an observer list finds under a cookie, in the session of a type.
  abbrev pub observer : Instances → SessionType → ℕ → Option PortStatusCallbacks
  observer m u j = find j (session_of codes m u).observers

  pub same-subst :
      (P : SessionType → Type 0) (t u : SessionType) → same_type codes t u ≡ true → P t → P u
  same-subst P t u e h =
      subst P (codes.code-injective t u ((==_iff (codes.code t) (codes.code u)).0 e)) h

  pub update-same :
      (t : SessionType) (v : SessionType → Session) (u : SessionType)
      → update codes t (v t) v u ≡ v u
  update-same t v u = elim (Bool-cases (same_type codes t u)) [
    | inl e ↦ rw e (same-subst (λ x. v t ≡ v x) t u e refl)
    | inr d ↦ rw d refl
  ]

  pub is_ready-session_of :
      (t : SessionType) (m : Instances)
      → let (m', ready) = Sessions.is_ready codes t m in
        ((u : SessionType) → session_of codes m' u ≡ session_of codes m u)
        × (ready ≡ is_session_ready (session_of codes m t))
  unfolding Sessions.is_ready spec_with_session
  is_ready-session_of t m =
      let (view, r) = with_session-refines codes t (reading is_session_ready) m in
      (λ u. ap (λ v. v u) view ∙ update-same t (session_of codes m) u, r)

  pub register-session_of :
      (t : SessionType) (cb : PortStatusCallbacks) (m : Instances)
      → let (m', c) = Sessions.register_control_result_cback codes t cb m in
        let (s', d) = register_status_cback codes (session_of codes m t) cb in
        ((u : SessionType) → session_of codes m' u ≡ update codes t s' (session_of codes m) u)
        × (c ≡ d)
  unfolding Sessions.register_control_result_cback spec_with_session
  register-session_of t cb m =
      let (view, r) = with_session-refines codes t (λ s. register_status_cback codes s cb) m in
      (λ u. ap (λ v. v u) view, r)

  pub unregister-session_of :
      (t : SessionType) (c : ℕ) (m : Instances)
      → let m' = (Sessions.unregister_control_result_cback codes t c m).0 in
        (u : SessionType)
        → session_of codes m' u
          ≡ update codes t (unregister_status_cback (session_of codes m t) c) (session_of codes m) u
  unfolding Sessions.unregister_control_result_cback spec_with_session
  unregister-session_of t c m u =
      ap (λ v. v u) (with_session-refines {0} codes t (λ s. (unregister_status_cback s c, tt)) m).0

  -- A registration that gets a cookie adds one observer under it.
  pub register-observer :
      (t : SessionType) (cb : PortStatusCallbacks) (m : Instances)
      → let (m', c) = Sessions.register_control_result_cback codes t cb m in
        (c == cookie_undefined codes) ≡ false
        → (observer m t c ≡ none)
          × ((u : SessionType) (j : ℕ)
              → observer m' u j
                ≡ (if same_type codes t u && (c == j) then some cb else observer m u j))
  register-observer t cb m h =
      let (view, same) = register-session_of t cb m in
      let c = (register_status_cback codes (session_of codes m t) cb).1 in
      elim (register_status_cback-outcome codes (session_of codes m t) cb) [
        | inr full ↦ absurd (ground (arith, same, full.1, h))
        | inl (above, below, free, lowest, found) ↦ (
          subst (λ x. observer m t x ≡ none) (sym same) free,
          λ u j. elim (Bool-cases (same_type codes t u)) [
            | inr d ↦ ap (λ s. find j s.observers) (view u) ∙ rw d refl
            | inl e ↦
                ap (λ s. find j s.observers) (view u)
                ∙ ground (
                  arith,
                  e,
                  same,
                  found j,
                  same-subst (λ x. observer m t j ≡ observer m x j) t u e refl,
                )
          ],
        )
      ]

  -- Forgetting a cookie removes what is under it, in the session of the type.
  pub unregister-observer :
      (t : SessionType) (c : ℕ) (m : Instances)
      → AreDistinct (session_of codes m t).observers
      → (u : SessionType) (j : ℕ)
      → observer (Sessions.unregister_control_result_cback codes t c m).0 u j
        ≡ (if same_type codes t u && (c == j) then none else observer m u j)
  unfolding unregister_status_cback
  unregister-observer t c m distinct u j =
      let view = unregister-session_of t c m u in
      elim (Bool-cases (same_type codes t u)) [
        | inr d ↦ ap (λ s. find j s.observers) view ∙ rw d refl
        | inl e ↦
            ap (λ s. find j s.observers) view
            ∙ ground (
              arith,
              e,
              find-erase (session_of codes m t).observers c j distinct,
              same-subst (λ x. observer m t j ≡ observer m x j) t u e refl,
            )
      ]
