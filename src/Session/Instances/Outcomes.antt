-- ===== src/Session/Instances/Outcomes.antt =====
-- What a sequence of calls leaves: as many separate sessions as there are session types, each of them
-- well-formed.
use android_device_peter_gsi.Base.{
  ◌≡◌, refl, sym, ap, ◌∙◌, subst, inl, inr, List, [], ◌∷◌, Bool-cases, ==_iff,
}
use android_device_peter_gsi.Session.Types.{SessionType, SessionCodes, PcmConfiguration}
use android_device_peter_gsi.Session.State.{Session, new_session}
use android_device_peter_gsi.Session.Invariant.{
  Event, step, IsWellFormed, step-IsWellFormed, new_session-IsWellFormed, step-session_type,
}
use android_device_peter_gsi.Session.Instances.{Instances, same_type, find_session}
use android_device_peter_gsi.Session.Instances.Refinement.{
  session_of, spec_with_session, with_session-refines,
}
use android_device_peter_gsi.Session.Instances.Calls.{
  Call, register, unregister, started, ended, config_changed, latency_mode_allowed, perform,
  operation, run_calls, spec_calls, perform-with_session,
}

module _ (codes : SessionCodes) (d : PcmConfiguration) where
  perform-refines :
      (t : SessionType) (c : Call) (m : Instances)
      → let (m', r) = perform codes d t c m in
        let (v', q) = spec_with_session codes t (operation codes d c) (session_of codes m) in
        (session_of codes m' ≡ v') × (r ≡ q)
  perform-refines t c m =
      rw (perform-with_session codes d t c m) (with_session-refines codes t (operation codes d c) m)

  run_calls-refines :
      (m : Instances) (calls : List (SessionType × Call))
      → let (m', rs) = run_calls codes d m calls in
        let (v', qs) = spec_calls codes d (session_of codes m) calls in
        (session_of codes m' ≡ v') × (rs ≡ qs)
  unfolding run_calls spec_calls
  run_calls-refines m [] = (refl, refl)
  run_calls-refines m ((t, c) ∷ calls) =
      let (m', r) = perform codes d t c m in
      let (view, same) = perform-refines t c m in
      let (views, replies) = run_calls-refines m' calls in
      (
        views ∙ ap (λ v. (spec_calls codes d v calls).0) view,
        (λ i. same i ∷ (replies ∙ ap (λ v. (spec_calls codes d v calls).1) view) i),
      )

  -- Whatever calls of the static functions are made, on whatever session types and in whatever order, on the
  -- map that is empty at first: their replies are those of a system that has one session for each type
  -- from the beginning, and the map stands for the sessions of that system afterwards.
  pub run_calls-refinement :
      (calls : List (SessionType × Call))
      → let (m', rs) = run_calls codes d [] calls in
        let (v', qs) = spec_calls codes d new_session calls in
        ((t : SessionType) → session_of codes m' t ≡ v' t) × (rs ≡ qs)
  unfolding session_of find_session
  run_calls-refinement calls =
      let (view, replies) = run_calls-refines [] calls in (λ t. ap (λ v. v t) view, replies)

  -- A session of its type that is well-formed.
  abbrev pub IsInstance : SessionType → Session → Type 0
  IsInstance t s = IsWellFormed codes s × (s.session_type ≡ t)

  step-IsInstance :
      (t : SessionType) (e : Event) (s : Session) → IsInstance t s → IsInstance t (step codes s e)
  step-IsInstance t e s (w, k) = (step-IsWellFormed codes s e w, step-session_type codes s e ∙ k)

  operation-IsInstance :
      (t : SessionType) (c : Call) (s : Session)
      → IsInstance t s
      → IsInstance t (operation codes d c s).0
  unfolding operation step
  operation-IsInstance t (register cb) s w = step-IsInstance t (Event.registered cb) s w
  operation-IsInstance t (unregister c) s w = step-IsInstance t (Event.unregistered c) s w
  operation-IsInstance t (started iface mq c ms) s w =
      step-IsInstance t (Event.started iface mq c ms) s w
  operation-IsInstance t ended s w = step-IsInstance t Event.ended s w
  operation-IsInstance t (config_changed c) s w = step-IsInstance t (Event.config_changed c) s w
  operation-IsInstance t (latency_mode_allowed b) s w =
      step-IsInstance t (Event.latency_mode_allowed b) s w
  operation-IsInstance t _ s w = w

  spec_calls-IsInstance :
      (v : SessionType → Session) (calls : List (SessionType × Call))
      → ((t : SessionType) → IsInstance t (v t))
      → (t : SessionType) → IsInstance t ((spec_calls codes d v calls).0 t)
  unfolding spec_calls spec_with_session
  spec_calls-IsInstance v [] h t = h t
  spec_calls-IsInstance v ((u, c) ∷ calls) h t =
      spec_calls-IsInstance (spec_with_session codes u (operation codes d c) v).0 calls
        (λ k. elim (Bool-cases (same_type codes u k)) [
          | inl e ↦
              let same : u ≡ k =
                codes.code-injective u k ((==_iff (codes.code u) (codes.code k)).0 e) in
              rw e (
                subst (λ x. IsInstance x (operation codes d c (v u)).0) same
                  (operation-IsInstance u c (v u) (h u)))
          | inr d ↦ rw d (h k)
        ])
        t

  -- After any sequence of calls of the static functions, the session under every type has that type, and its
  -- observers, its configuration and its queue are well-formed.
  pub run_calls-IsInstance :
      (calls : List (SessionType × Call)) (t : SessionType)
      → IsInstance t (session_of codes (run_calls codes d [] calls).0 t)
  unfolding new_session
  run_calls-IsInstance calls t =
      subst (IsInstance t) (sym ((run_calls-refinement calls).0 t))
        (spec_calls-IsInstance new_session calls (λ u. (new_session-IsWellFormed codes u, refl)) t)
