-- ===== src/Session/Observers.antt =====
-- The map `observers_` of BluetoothAudioSession.cpp, as an association list, and the search for a free
-- cookie. The order of an `unordered_map` is not specified; the list has one, on which no theorem rests.
use android_device_peter_gsi.Base.{
  ℕ, zero, suc, ◌+◌, Option, none, some, List, [], ◌∷◌, ◌==◌, if◌then◌else◌, is_some,
}
use android_device_peter_gsi.Session.Types.{PortStatusCallbacks}

abbrev pub Observers : Type 0
Observers = List (ℕ × PortStatusCallbacks)

-- `observers_.find(cookie)`.
unfoldable pub find : ℕ → Observers → Option PortStatusCallbacks
find cookie [] = none
find cookie ((k, cb) ∷ rest) = if k == cookie then some cb else find cookie rest

-- `observers_.erase(cookie)`.
unfoldable pub erase : ℕ → Observers → Observers
erase cookie [] = []
erase cookie ((k, cb) ∷ rest) = if k == cookie then rest else (k, cb) ∷ erase cookie rest

-- `observers_[cookie] = cb`, for a cookie that is not there.
unfoldable pub insert : ℕ → PortStatusCallbacks → Observers → Observers
insert cookie cb observers = (cookie, cb) ∷ observers

-- The loop of `RegisterStatusCback`: the first cookie that is free, or the upper bound, which lies
-- `rounds` above.
unfoldable pub first_free : Observers → ℕ → ℕ → ℕ
first_free observers cookie zero = cookie
first_free observers cookie (suc rounds) =
    let next = first_free observers (cookie + 1) rounds in
    if is_some (find cookie observers) then next else cookie
