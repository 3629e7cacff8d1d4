-- ===== src/Session/Instances/Refinement.antt =====
-- The map of sessions, seen as a function from session types: every session is there from the beginning.
use android_device_peter_gsi.Base.{
  ◌≡◌, refl, sym, ap, ◌∙◌, arith, inl, inr, true, Option, none, some, [], ◌∷◌, Bool-cases,
  Option-cases, if◌then◌else◌, ==_iff,
}
use android_device_peter_gsi.Session.Types.{SessionType, SessionCodes}
use android_device_peter_gsi.Session.State.{Session, new_session}
use android_device_peter_gsi.Session.Instances.{
  Instances, same_type, find_session, get_session_instance, write_session, with_session,
}

module _ (codes : SessionCodes) where
  abbrev or_new : SessionType → Option Session → Session
  or_new t (some s) = s
  or_new t none = new_session t

  -- The session that a map stands for under a type.
  unfoldable pub session_of : Instances → SessionType → Session
  session_of sessions t = or_new t (find_session codes t sessions)

  abbrev pub update : SessionType → Session → (SessionType → Session) → SessionType → Session
  update t s sessions u = if same_type codes t u then s else sessions u

  -- An operation on the session of a type, in the specification.
  unfoldable pub spec_with_session {ℓ} :
      {R : Type ℓ}
      → SessionType
      → (Session → Session × R)
      → (SessionType → Session)
      → (SessionType → Session) × R
  spec_with_session t operation sessions =
      let (s', r) = operation (sessions t) in (update t s' sessions, r)

  find-write :
      (t u : SessionType) (s old : Session) (sessions : Instances)
      → find_session codes t sessions ≡ some old
      → find_session codes u (write_session codes t s sessions)
        ≡ (if same_type codes t u then some s else find_session codes u sessions)
  unfolding find_session write_session
  find-write t u s old [] h = cc
  find-write t u s old ((k, x) ∷ rest) h = elim (Bool-cases (same_type codes k t)) [
    | inl e ↦ ground (arith, e)
    | inr d ↦ ground (arith, d, find-write t u s old rest)
  ]

  write_session-session_of :
      (t u : SessionType) (s old : Session) (sessions : Instances)
      → find_session codes t sessions ≡ some old
      → session_of (write_session codes t s sessions) u ≡ update t s (session_of sessions) u
  unfolding session_of
  write_session-session_of t u s old sessions h = ground (arith, find-write t u s old sessions h)

  absent-session_of :
      (t u : SessionType) (sessions : Instances)
      → find_session codes t sessions ≡ none
      → same_type codes t u ≡ true
      → new_session t ≡ session_of sessions u
  unfolding session_of
  absent-session_of t u sessions absent e =
      let same : t ≡ u = codes.code-injective t u ((==_iff (codes.code t) (codes.code u)).0 e) in
      sym (ap (or_new t) absent) ∙ ap (λ x. or_new x (find_session codes x sessions)) same

  -- Getting an instance makes the session that the map stood for already.
  pub get_session_instance-session_of :
      (t : SessionType) (sessions : Instances)
      → let (found, s) = get_session_instance codes t sessions in
        (find_session codes t found ≡ some s)
        × (s ≡ session_of sessions t)
        × ((u : SessionType) → session_of found u ≡ session_of sessions u)
  unfolding get_session_instance session_of find_session
  get_session_instance-session_of t sessions = elim (Option-cases (find_session codes t sessions)) [
    | inl absent ↦ rw absent (
      ground arith,
      refl,
      λ u. elim (Bool-cases (same_type codes t u)) [
        | inl e ↦ ground (arith, e, absent-session_of t u sessions absent e)
        | inr d ↦ ground (arith, d)
      ],
    )
    | inr (s, present) ↦ rw present (present, refl, λ u. refl)
  ]

  -- A call on the map is the operation on the session that it stands for.
  pub with_session-refines {ℓ} :
      {R : Type ℓ} (t : SessionType) (operation : Session → Session × R) (sessions : Instances)
      → let (sessions', r) = with_session codes t operation sessions in
        let (view', q) = spec_with_session t operation (session_of sessions) in
        (session_of sessions' ≡ view') × (r ≡ q)
  unfolding with_session spec_with_session
  with_session-refines t operation sessions =
      let (found, s) = get_session_instance codes t sessions in
      let (present, current, view) = get_session_instance-session_of t sessions in
      let s' = (operation (session_of sessions t)).0 in
      (
        λ i u.
            (write_session-session_of t u (operation s).0 s found present
                ∙ ap (λ x. update t (operation x).0 (session_of found) u) current
                ∙ ap (λ x. if same_type codes t u then s' else x) (view u))
              i,
        ap (λ x. (operation x).1) current,
      )
