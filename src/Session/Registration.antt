-- ===== src/Session/Registration.antt =====
-- Registering and unregistering observers: a new observer gets the lowest free cookie of its session
-- type, until all sixteen are taken.
use android_device_peter_gsi.Base.{
  ℕ, zero, suc, ◌+◌, ◌*◌, ◌≤◌, ◌<◌, ◌≡◌, refl, ap, ◌∙◌, arith, ◌⊎◌, inl, inr, true, none, some, [],
  ◌∷◌, ◌==◌, leb, if◌then◌else◌, is_some, Option-cases, Bool-cases, ==_iff, subst,
}
use android_device_peter_gsi.Session.Types.{SessionCodes, PortStatusCallbacks, cookie_undefined}
use android_device_peter_gsi.Session.Observers.{Observers, find, erase, insert, first_free}
use android_device_peter_gsi.Session.State.{Session}
use android_device_peter_gsi.Session.Control.{register_status_cback}
use android_device_peter_gsi.Session.Cookies.{cookie_init_value_lem, cookie_upper_bound_lem}

-- No cookie stands twice.
abbrev pub AreDistinct : Observers → Type 0
AreDistinct [] = Unit {0}
AreDistinct ((k, cb) ∷ rest) = (find k rest ≡ none) × AreDistinct rest

-- Every cookie lies from `lo` up to `hi`.
abbrev pub AreWithin : ℕ → ℕ → Observers → Type 0
AreWithin lo hi [] = Unit {0}
AreWithin lo hi ((k, cb) ∷ rest) = (lo ≤ k) × (k < hi) × AreWithin lo hi rest

-- The search passes over taken cookies only, and stops at a free one or at the bound.
first_free_lem :
    (os : Observers) (k n : ℕ)
    → (k ≤ first_free os k n)
      × (first_free os k n ≤ k + n)
      × (first_free os k n < k + n → find (first_free os k n) os ≡ none)
unfolding first_free
first_free_lem os k zero = (omega arith, omega arith, λ h. absurd (omega arith))
first_free_lem os k (suc n) = elim (Option-cases (find k os)) [
  | inl free ↦ ground (arith, free)
  | inr (cb, taken) ↦
      let (lo, hi, stop) = first_free_lem os (k + 1) n in
      rw taken (omega arith, omega arith, λ h. stop (omega arith))
]

first_free_taken :
    (os : Observers) (k n c : ℕ) → k ≤ c → c < first_free os k n → is_some (find c os) ≡ true
unfolding first_free
first_free_taken os k zero c lo hi = absurd (omega arith)
first_free_taken os k (suc n) c lo hi = elim (Option-cases (find k os)) [
  | inl free ↦
      let h : c < k = subst (λ o. c < (if is_some o then first_free os (k + 1) n else k)) free hi in
      absurd (omega arith)
  | inr (cb, taken) ↦
      let h : c < first_free os (k + 1) n =
        subst (λ o. c < (if is_some o then first_free os (k + 1) n else k)) taken hi in
      elim (Bool-cases (k == c)) [
        | inl e ↦ subst (λ x. is_some (find x os) ≡ true) ((==_iff k c).0 e) (ap is_some taken)
        | inr ne ↦ first_free_taken os (k + 1) n c (ground arith) h
      ]
]

pub find-insert :
    (os : Observers) (c j : ℕ) (cb : PortStatusCallbacks)
    → find j (insert c cb os) ≡ (if c == j then some cb else find j os)
unfolding find insert
find-insert os c j cb = refl

find-erase-none : (os : Observers) (c j : ℕ) → find j os ≡ none → find j (erase c os) ≡ none
unfolding find erase
find-erase-none [] c j h = refl
find-erase-none ((k, cb) ∷ os) c j h = ground (arith, find-erase-none os c j)

pub find-erase :
    (os : Observers) (c j : ℕ)
    → AreDistinct os
    → find j (erase c os) ≡ (if c == j then none else find j os)
unfolding find erase
find-erase [] c j h = ground arith
find-erase ((k, cb) ∷ os) c j h = elim (Bool-cases (k == c)) [
  | inr e ↦ rw e (ground (arith, find-erase os c j h.1))
  | inl e ↦ elim (Bool-cases (c == j)) [
    | inl d ↦ rw e (rw d (subst (λ x. find x os ≡ none) ((==_iff k c).0 e ∙ (==_iff c j).0 d) h.0))
    | inr d ↦ rw e (rw d (ground arith))
  ]
]

pub erase-AreDistinct : (os : Observers) (c : ℕ) → AreDistinct os → AreDistinct (erase c os)
unfolding erase
erase-AreDistinct [] c h = tt
erase-AreDistinct ((k, cb) ∷ os) c h =
    ground (arith, erase-AreDistinct os c h.1, find-erase-none os c k h.0)

pub erase-AreWithin :
    (os : Observers) (c lo hi : ℕ) → AreWithin lo hi os → AreWithin lo hi (erase c os)
unfolding erase
erase-AreWithin [] c lo hi h = tt
erase-AreWithin ((k, cb) ∷ os) c lo hi h = ground (arith, erase-AreWithin os c lo hi h.2)

-- `register_status_cback` has two outcomes. If one of the sixteen cookies of the session type is free, it
-- returns the lowest free one, the observer is found under it afterwards, and what every other cookie
-- finds is unchanged. If all sixteen are taken, it returns the undefined cookie and the session is
-- unchanged.
pub register_status_cback-outcome :
    (codes : SessionCodes) (s : Session) (cb : PortStatusCallbacks)
    → let lo = codes.code s.session_type * 256 in
      let (s', c) = register_status_cback codes s cb in
      ((lo ≤ c)
        × (c < lo + 16)
        × (find c s.observers ≡ none)
        × ((j : ℕ) → lo ≤ j → j < c → is_some (find j s.observers) ≡ true)
        × ((j : ℕ) → find j s'.observers ≡ (if c == j then some cb else find j s.observers)))
      ⊎ (((j : ℕ) → lo ≤ j → j < lo + 16 → is_some (find j s.observers) ≡ true)
          × (c ≡ cookie_undefined codes)
          × (s' ≡ s))
unfolding register_status_cback
register_status_cback-outcome codes s cb =
    let i = cookie_init_value_lem codes s.session_type in
    let u = cookie_upper_bound_lem codes s.session_type in
    let lo = codes.code s.session_type * 256 in
    let c = first_free s.observers lo 16 in
    let (above, below, stop) = first_free_lem s.observers lo 16 in
    rw i (
      rw u (elim (Bool-cases (leb (lo + 16) c)) [
        | inl full ↦
            rw full
              (inr (λ j h k. first_free_taken s.observers lo 16 j h (ground arith), refl, refl))
        | inr free ↦ rw free (
            inl (
              above,
              ground arith,
              stop (ground arith),
              λ j h k. first_free_taken s.observers lo 16 j h k,
              λ j. find-insert s.observers c j cb,
            ))
      ]))

-- What registering does to the list of observers.
pub register_status_cback-insert :
    (codes : SessionCodes) (s : Session) (cb : PortStatusCallbacks)
    → AreDistinct s.observers
    → AreWithin (codes.code s.session_type * 256) (codes.code s.session_type * 256 + 16) s.observers
    → let s' = (register_status_cback codes s cb).0 in
      AreDistinct s'.observers
      × AreWithin
          (codes.code s.session_type * 256)
          (codes.code s.session_type * 256 + 16)
          s'.observers
      × (s'.session_type ≡ s.session_type)
      × (s'.audio_config ≡ s.audio_config)
      × (s'.data_mq ≡ s.data_mq)
unfolding register_status_cback insert
register_status_cback-insert codes s cb d w =
    let i = cookie_init_value_lem codes s.session_type in
    let u = cookie_upper_bound_lem codes s.session_type in
    let lo = codes.code s.session_type * 256 in
    let c = first_free s.observers lo 16 in
    let (above, below, stop) = first_free_lem s.observers lo 16 in
    rw i (
      rw u (elim (Bool-cases (leb (lo + 16) c)) [
        | inl full ↦ rw full (d, w, refl, refl, refl)
        | inr free ↦ rw free ((stop (ground arith), d), (above, ground arith, w), refl, refl, refl)
      ]))

-- A new observer gets a cookie that is not there.
pub register_status_cback-AreDistinct :
    (codes : SessionCodes) (s : Session) (cb : PortStatusCallbacks)
    → AreDistinct s.observers
    → AreDistinct (register_status_cback codes s cb).0.observers
unfolding register_status_cback insert
register_status_cback-AreDistinct codes s cb d =
    let i = cookie_init_value_lem codes s.session_type in
    let u = cookie_upper_bound_lem codes s.session_type in
    let lo = codes.code s.session_type * 256 in
    let c = first_free s.observers lo 16 in
    let (above, below, stop) = first_free_lem s.observers lo 16 in
    rw i (
      rw u (elim (Bool-cases (leb (lo + 16) c)) [
        | inl full ↦ rw full d
        | inr free ↦ rw free (stop (ground arith), d)
      ]))
