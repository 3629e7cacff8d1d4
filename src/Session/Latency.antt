-- ===== src/Session/Latency.antt =====
-- The latency modes that a session reports to the audio HAL, and the presentation position.
use android_device_peter_gsi.Base.{
  ◌≡◌, refl, sym, ap, ◌∙◌, subst, ◌↔◌, ◌⊎◌, inl, inr, arith, Bool, true, false, ◌||◌, ◌&&◌, List,
  [], ◌∷◌, ◌++◌, Bool-cases,
}
use android_device_peter_gsi.Session.Types.{
  SessionType, LatencyMode, low_latency, a2dp_hardware_offload_encoding,
}
use android_device_peter_gsi.Session.State.{Session, is_session_ready}
use android_device_peter_gsi.Session.Control.{
  report_low_latency_mode_allowed_changed, has_low_latency, is_low_latency, is_dynamic_spatial,
  is_le_audio_encoding_offload, is_a2dp_encoding_offload, reported, supported_modes,
  get_supported_latency_modes, get_presentation_position_control,
}

-- A mode stands in a list.
abbrev pub Lists : LatencyMode → List LatencyMode → Type 0
Lists mode [] = ⊥
Lists mode (m ∷ modes) = (mode ≡ m) ⊎ Lists mode modes

supported_modes_iff :
    (s : Session) (modes : List LatencyMode) (mode : LatencyMode)
    → Lists mode (supported_modes s modes) ↔ (Lists mode modes × (reported s mode ≡ true))
unfolding supported_modes
supported_modes_iff s [] mode = ground arith
supported_modes_iff s (m ∷ modes) mode = elim (Bool-cases (reported s m)) [
  | inl kept ↦ rw kept (
    elim [
      | inl e ↦ (inl e, subst (λ x. reported s x ≡ true) (sym e) kept)
      | inr l ↦ ground (arith, supported_modes_iff s modes mode)
    ],
    λ h. ground (arith, supported_modes_iff s modes mode),
  )
  | inr dropped ↦ rw dropped (
    λ l. ground (arith, supported_modes_iff s modes mode),
    λ h. elim h.0 [
      | inl e ↦ let r' : reported s m ≡ true = subst (λ x. reported s x ≡ true) e h.1 in absurd (cc)
      | inr l ↦ (supported_modes_iff s modes mode).1 (l, h.1)
    ],
  )
]

has_low_latency-append :
    (xs ys : List LatencyMode)
    → has_low_latency (xs ++ ys) ≡ (has_low_latency xs || has_low_latency ys)
unfolding has_low_latency
has_low_latency-append [] ys = refl
has_low_latency-append (x ∷ xs) ys = ground (arith, has_low_latency-append xs ys)

supported_modes-has_low_latency :
    (s : Session) (modes : List LatencyMode)
    → is_le_audio_encoding_offload s.session_type ≡ false
    → has_low_latency (supported_modes s modes) ≡ (s.low_latency_allowed && has_low_latency modes)
unfolding supported_modes has_low_latency
supported_modes-has_low_latency s [] h = ground arith
supported_modes-has_low_latency s (low_latency ∷ modes) h =
    ground (arith, supported_modes-has_low_latency s modes h, h)
supported_modes-has_low_latency s (_ ∷ modes) h =
    ground (arith, supported_modes-has_low_latency s modes h, h)

-- `get_presentation_position_control` reports failure for every session, ready or not, and whatever the
-- stack answers, although it has asked the stack exactly if the session is ready.
pub get_presentation_position_control_lem :
    (s : Session) (answer : Bool) → (get_presentation_position_control s answer).1 ≡ false
unfolding get_presentation_position_control
get_presentation_position_control_lem s answer = ground arith

-- `get_supported_latency_modes` reports a mode exactly if the session is ready and its list holds the mode,
-- and then: an LE audio offload encoding session reports all but low latency; another session reports
-- neither dynamic spatial audio mode, and low latency only while the stack allows it.
pub get_supported_latency_modes_iff :
    (s : Session) (mode : LatencyMode)
    → Lists mode (get_supported_latency_modes s) ↔ (
        (is_session_ready s ≡ true)
        × Lists mode s.latency_modes
        × (((is_le_audio_encoding_offload s.session_type ≡ true) × (is_low_latency mode ≡ false))
            ⊎ ((is_le_audio_encoding_offload s.session_type ≡ false)
                × (is_dynamic_spatial mode ≡ false)
                × ((is_low_latency mode ≡ false) ⊎ (s.low_latency_allowed ≡ true)))))
unfolding get_supported_latency_modes
get_supported_latency_modes_iff s mode = ground (arith, supported_modes_iff s s.latency_modes mode)

supported-has_low_latency :
    (s : Session)
    → is_le_audio_encoding_offload s.session_type ≡ false
    → is_session_ready s ≡ true
    → has_low_latency (get_supported_latency_modes s)
      ≡ (s.low_latency_allowed && has_low_latency s.latency_modes)
unfolding get_supported_latency_modes
supported-has_low_latency s l r = rw r (supported_modes-has_low_latency s s.latency_modes l)

encoding_offload-distinct :
    (t : SessionType) → is_a2dp_encoding_offload t ≡ true → is_le_audio_encoding_offload t ≡ false
encoding_offload-distinct a2dp_hardware_offload_encoding h = refl
encoding_offload-distinct _ h = cc

-- The state that the report leaves.
reported-state :
    (s : Session) (allowed : Bool)
    → is_a2dp_encoding_offload s.session_type ≡ true
    → is_session_ready s ≡ true
    → let s' = (report_low_latency_mode_allowed_changed s allowed).0 in
      (is_a2dp_encoding_offload s'.session_type ≡ true)
      × (is_session_ready s' ≡ true)
      × (s'.low_latency_allowed ≡ allowed)
      × (allowed ≡ true → has_low_latency s'.latency_modes ≡ true)
unfolding report_low_latency_mode_allowed_changed is_session_ready has_low_latency
reported-state s allowed t r =
    ground (arith, has_low_latency-append s.latency_modes (low_latency ∷ []))

-- On a ready A2DP offload encoding session, once the stack has reported whether low latency is allowed,
-- `get_supported_latency_modes` has the low-latency mode exactly if it is.
pub report_low_latency_mode_allowed_changed-has_low_latency :
    (s : Session) (allowed : Bool)
    → s.session_type ≡ a2dp_hardware_offload_encoding
    → is_session_ready s ≡ true
    → has_low_latency
        (get_supported_latency_modes (report_low_latency_mode_allowed_changed s allowed).0)
      ≡ allowed
report_low_latency_mode_allowed_changed-has_low_latency s allowed t r =
    let s' = (report_low_latency_mode_allowed_changed s allowed).0 in
    let (t', r', a, l) = reported-state s allowed (ap is_a2dp_encoding_offload t) r in
    let other : is_le_audio_encoding_offload s'.session_type ≡ false =
      encoding_offload-distinct s'.session_type t' in
    supported-has_low_latency s' other r' ∙ ground (arith, a, l)
