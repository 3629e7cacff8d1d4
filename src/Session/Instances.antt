-- ===== src/Session/Instances.antt =====
-- bluetooth/audio/utils/aidl_session: `BluetoothAudioSessionInstance` of BluetoothAudioSession.cpp, the map
-- of the sessions, through which the audio HAL and the providers reach a session. The map is an
-- association list; keys compare by the numbers of the enum. A shared session is what the map holds
-- under its type: a function writes back the session that its operation leaves.
pub mod Control
pub mod Report
pub mod Refinement
pub mod Calls
pub mod Outcomes
mod Examples
use android_device_peter_gsi.Base.{Bool, Option, none, some, List, [], ◌∷◌, ◌==◌, if◌then◌else◌}
use android_device_peter_gsi.Session.Types.{SessionType, SessionCodes}
use android_device_peter_gsi.Session.State.{Session, new_session}

-- `sessions_map_`.
abbrev pub Instances : Type 0
Instances = List (SessionType × Session)

-- An operation that only reads the session.
abbrev pub reading {ℓ} : {R : Type ℓ} → (Session → R) → Session → Session × R
reading answer s = (s, answer s)

module _ (codes : SessionCodes) where
  abbrev pub same_type : SessionType → SessionType → Bool
  same_type t u = codes.code t == codes.code u

  -- `sessions_map_.find(session_type)`.
  unfoldable pub find_session : SessionType → Instances → Option Session
  find_session t [] = none
  find_session t ((u, s) ∷ rest) = if same_type u t then some s else find_session t rest

  abbrev pub found_or_new : SessionType → Instances → Option Session → Instances × Session
  found_or_new t sessions (some s) = (sessions, s)
  found_or_new t sessions none = ((t, new_session t) ∷ sessions, new_session t)

  unfoldable pub get_session_instance : SessionType → Instances → Instances × Session
  unfolding find_session
  get_session_instance t sessions = found_or_new t sessions (find_session t sessions)

  -- The shared session of a type that the map holds, after an operation has changed it.
  unfoldable pub write_session : SessionType → Session → Instances → Instances
  write_session t s [] = []
  write_session t s ((u, old) ∷ rest) =
      if same_type u t then (u, s) ∷ rest else (u, old) ∷ write_session t s rest

  -- What all the static functions do: they get the session of the type and call one of its operations.
  unfoldable pub with_session {ℓ} :
      {R : Type ℓ} → SessionType → (Session → Session × R) → Instances → Instances × R
  unfolding get_session_instance write_session
  with_session t operation sessions =
      let (found, s) = get_session_instance t sessions in
      let (s', r) = operation s in (write_session t s' found, r)
