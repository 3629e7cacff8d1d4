-- ===== src/Provider/Opening/Outcome.antt =====
-- What the factory opens for each type of session, and the start of what it opens.
use android_device_peter_gsi.Base.{
  ℕ, ◌≡◌, refl, ap, ◌⊎◌, inl, inr, Bool, true, false, Option, none, some, List, if◌then◌else◌,
  Bool-cases, arith, sym, ◌∙◌, subst,
}
use android_device_peter_gsi.Session.Types.{
  SessionType, SessionCodes, unknown, hearing_aid_software_encoding, a2dp_software_encoding,
  a2dp_hardware_offload_encoding, a2dp_software_decoding, a2dp_hardware_offload_decoding,
  hfp_software_encoding, hfp_software_decoding, hfp_hardware_offload, le_audio_software_encoding,
  le_audio_software_decoding, le_audio_hardware_offload_encoding,
  le_audio_hardware_offload_decoding, le_audio_broadcast_software_encoding,
  le_audio_broadcast_hardware_offload_encoding, AudioConfiguration, PcmConfiguration, LatencyMode,
  DataMq,
}
use android_device_peter_gsi.Session.State.{Session, mq_valid}
use android_device_peter_gsi.Session.Instances.{same_type}
use android_device_peter_gsi.Provider.A2dp.{new_provider, is_valid_software, start_session_software}
use android_device_peter_gsi.Provider.Lifecycle.{
  IsA2dpSoftware, IsStarted, IsRefused, start_session_software-outcome,
}
use android_device_peter_gsi.Provider.Opening.{
  Opened, ProviderClass, has_queue, hearing_aid, a2dp_offload, le_audio_software, le_audio_offload,
  hfp_software, hfp_offload, a2dp_data_mq_size, hearing_aid_data_mq_size, a2dp_software,
  hearing_aid_provider, plain, make_provider, checked, is_valid, open_provider,
}

-- The types of session whose provider makes its queue when it is made.
abbrev pub has_own_queue : SessionType → Bool
has_own_queue a2dp_software_encoding = true
has_own_queue a2dp_software_decoding = true
has_own_queue hearing_aid_software_encoding = true
has_own_queue _ = false

-- The class of providers that serves a type of session: no class serves the unknown type.
abbrev pub class_of : SessionType → Option ProviderClass
class_of a2dp_software_encoding = some a2dp_software
class_of a2dp_software_decoding = some a2dp_software
class_of a2dp_hardware_offload_encoding = some a2dp_offload
class_of a2dp_hardware_offload_decoding = some a2dp_offload
class_of hearing_aid_software_encoding = some hearing_aid
class_of hfp_software_encoding = some hfp_software
class_of hfp_software_decoding = some hfp_software
class_of hfp_hardware_offload = some hfp_offload
class_of le_audio_software_encoding = some le_audio_software
class_of le_audio_software_decoding = some le_audio_software
class_of le_audio_broadcast_software_encoding = some le_audio_software
class_of le_audio_hardware_offload_encoding = some le_audio_offload
class_of le_audio_hardware_offload_decoding = some le_audio_offload
class_of le_audio_broadcast_hardware_offload_encoding = some le_audio_offload
class_of unknown = none

-- An answer of `openProvider`, where the queue of a provider that is just made is `q`.
abbrev pub IsOpenedWith : SessionType → Option DataMq → Option Opened → Type 0
IsOpenedWith t q o =
    ((o ≡ none) × ((t ≡ unknown) ⊎ ((has_own_queue t ≡ true) × (mq_valid q ≡ false))))
    ⊎ ((opened : Opened) × (o ≡ some opened)
        × (class_of t ≡ some opened.provider_class)
        × (opened.provider ≡ new_provider t q)
        × ((has_own_queue t ≡ false) ⊎ (mq_valid q ≡ true)))

module _ (make_queue : ℕ → Option DataMq) (unset : SessionType) (codes : SessionCodes) where
  -- The queue of a provider that is just made.
  abbrev pub first_queue : SessionType → Option DataMq
  first_queue a2dp_software_encoding = make_queue a2dp_data_mq_size
  first_queue a2dp_software_decoding = make_queue a2dp_data_mq_size
  first_queue hearing_aid_software_encoding = make_queue hearing_aid_data_mq_size
  first_queue _ = none

  same_type_refl : (t : SessionType) → same_type codes t t ≡ true
  same_type_refl t = ground arith

  plain-opened :
      (t : SessionType) (c : ProviderClass)
      → class_of t ≡ some c
      → has_own_queue t ≡ false
      → has_queue c none ≡ true
      → IsOpenedWith t none (checked make_queue unset codes t (plain c t))
  unfolding is_valid new_provider
  plain-opened t c served own q = inr (
    record { provider_class = c; provider = new_provider t none },
    rw (same_type_refl t) (rw q refl),
    served,
    refl,
    inl own,
  )

  -- A provider that its class takes only with a queue.
  queued-opened :
      (t u : SessionType) (c : ProviderClass) (q : Option DataMq)
      → class_of t ≡ some c
      → has_own_queue t ≡ true
      → ((mq : Option DataMq) → has_queue c mq ≡ mq_valid mq)
      → (mq_valid q ≡ true → u ≡ t)
      → IsOpenedWith t q (
          checked make_queue unset codes t
            (some (record { provider_class = c; provider = new_provider u q })))
  unfolding is_valid new_provider
  queued-opened t u c q served own by_queue same = elim (Bool-cases (mq_valid q)) [
    | inl good ↦
        let e = same good in
        inr (
          record { provider_class = c; provider = new_provider u q },
          rw e (rw (same_type_refl t) (rw good (rw (by_queue q) (rw good refl)))),
          served,
          rw e refl,
          inr good,
        )
    | inr bad ↦ inl (rw bad (rw (by_queue none) (ground arith)), inr (own, bad))
  ]

  hearing_aid-opened :
      IsOpenedWith hearing_aid_software_encoding (make_queue hearing_aid_data_mq_size) (
        checked make_queue unset codes hearing_aid_software_encoding
          (some (hearing_aid_provider make_queue unset)))
  hearing_aid-opened =
      queued-opened hearing_aid_software_encoding
        (if mq_valid (make_queue hearing_aid_data_mq_size)
          then hearing_aid_software_encoding
          else unset)
        hearing_aid (make_queue hearing_aid_data_mq_size) refl refl (λ mq. refl)
        (λ good. rw good refl)

  -- The factory answers for each type of session. It refuses the unknown type, and a type of A2DP software
  -- or of hearing aids for which no valid queue can be made; for any other type it opens a provider of
  -- the class that serves that type, for that type, with no interface and no configuration, and with a
  -- valid queue if the type is one that needs a queue from the start.
  pub open_provider-outcome :
      (t : SessionType)
      → ((open_provider make_queue unset codes t ≡ none)
          × ((t ≡ unknown) ⊎ ((has_own_queue t ≡ true) × (mq_valid (first_queue t) ≡ false))))
        ⊎ ((opened : Opened) × (open_provider make_queue unset codes t ≡ some opened)
            × (class_of t ≡ some opened.provider_class)
            × (opened.provider ≡ new_provider t (first_queue t))
            × ((has_own_queue t ≡ false) ⊎ (mq_valid (first_queue t) ≡ true)))
  unfolding open_provider make_provider
  open_provider-outcome unknown = inl (refl, inl refl)
  open_provider-outcome hearing_aid_software_encoding = hearing_aid-opened
  open_provider-outcome a2dp_software_encoding =
      queued-opened a2dp_software_encoding a2dp_software_encoding a2dp_software
        (make_queue a2dp_data_mq_size) refl refl (λ mq. refl) (λ good. refl)
  open_provider-outcome a2dp_software_decoding =
      queued-opened a2dp_software_decoding a2dp_software_decoding a2dp_software
        (make_queue a2dp_data_mq_size) refl refl (λ mq. refl) (λ good. refl)
  open_provider-outcome a2dp_hardware_offload_encoding =
      plain-opened a2dp_hardware_offload_encoding a2dp_offload refl refl refl
  open_provider-outcome le_audio_software_encoding =
      plain-opened le_audio_software_encoding le_audio_software refl refl refl
  open_provider-outcome le_audio_hardware_offload_encoding =
      plain-opened le_audio_hardware_offload_encoding le_audio_offload refl refl refl
  open_provider-outcome le_audio_software_decoding =
      plain-opened le_audio_software_decoding le_audio_software refl refl refl
  open_provider-outcome le_audio_hardware_offload_decoding =
      plain-opened le_audio_hardware_offload_decoding le_audio_offload refl refl refl
  open_provider-outcome le_audio_broadcast_software_encoding =
      plain-opened le_audio_broadcast_software_encoding le_audio_software refl refl refl
  open_provider-outcome le_audio_broadcast_hardware_offload_encoding =
      plain-opened le_audio_broadcast_hardware_offload_encoding le_audio_offload refl refl refl
  open_provider-outcome a2dp_hardware_offload_decoding =
      plain-opened a2dp_hardware_offload_decoding a2dp_offload refl refl refl
  open_provider-outcome hfp_software_encoding =
      plain-opened hfp_software_encoding hfp_software refl refl refl
  open_provider-outcome hfp_software_decoding =
      plain-opened hfp_software_decoding hfp_software refl refl refl
  open_provider-outcome hfp_hardware_offload =
      plain-opened hfp_hardware_offload hfp_offload refl refl refl

module _ (make_queue : ℕ → Option DataMq) (unset : SessionType) (codes : SessionCodes)
    (valid : PcmConfiguration → Bool) where
  a2dp-has_own_queue : (t : SessionType) → IsA2dpSoftware t → has_own_queue t ≡ true
  a2dp-has_own_queue t (inl e) = rw e refl
  a2dp-has_own_queue t (inr e) = rw e refl

  new_provider-mq_valid :
      (t : SessionType) (q : Option DataMq)
      → mq_valid q ≡ true
      → mq_valid (new_provider t q).data_mq ≡ true
  unfolding new_provider
  new_provider-mq_valid t q good = rw good good

  new_provider-session_type :
      (t : SessionType) (q : Option DataMq) → (new_provider t q).session_type ≡ t
  unfolding new_provider
  new_provider-session_type t q = refl

  -- An opened A2DP software provider has its type and a valid queue.
  opened-mq_valid :
      (t : SessionType) (opened : Opened)
      → IsA2dpSoftware t
      → open_provider make_queue unset codes t ≡ some opened
      → (opened.provider.session_type ≡ t) × (mq_valid opened.provider.data_mq ≡ true)
  opened-mq_valid t opened o e = elim (open_provider-outcome make_queue unset codes t) [
    | inl (shut, why) ↦ absurd (cc)
    | inr (opened', e', served, made, inl other) ↦ let own = a2dp-has_own_queue t o in absurd (cc)
    | inr (opened', e', served, made, inr good) ↦
        let same : opened' ≡ opened = cc in
        let good' = new_provider-mq_valid t (first_queue make_queue unset codes t) good in
        let provided : opened.provider ≡ new_provider t (first_queue make_queue unset codes t) =
          ap (λ x. x.provider) (sym same) ∙ made in
        (
          rw provided (new_provider-session_type t (first_queue make_queue unset codes t)),
          rw provided good',
        )
  ]

  -- An A2DP software provider that the factory opened always starts: with an interface and a
  -- configuration that passes the checks the session becomes ready and each of its observers is told,
  -- and any other start is refused and changes nothing.
  pub open_provider-start_session_software :
      (t : SessionType) (opened : Opened) (s : Session) (host_if : Option ℕ)
      (config : AudioConfiguration) (modes : List LatencyMode)
      → IsA2dpSoftware t
      → open_provider make_queue unset codes t ≡ some opened
      → s.session_type ≡ t
      → let r = start_session_software valid opened.provider s host_if config modes in
        ((is_valid_software valid config ≡ true) × IsStarted opened.provider s host_if r)
        ⊎ (((is_valid_software valid config ≡ false) ⊎ (host_if ≡ none))
            × IsRefused opened.provider s r)
  open_provider-start_session_software t opened s host_if config modes o e same =
      let (kind, queue) = opened-mq_valid t opened o e in
      let o' : IsA2dpSoftware opened.provider.session_type = subst IsA2dpSoftware (sym kind) o in
      elim (start_session_software-outcome valid opened.provider s host_if config modes o'
        (same ∙ sym kind)) [
          | inl (q, good, started) ↦ inl (good, started)
          | inr (inl (q, passed, given, ok, iface, kept, quiet, desc)) ↦ absurd (cc)
          | inr (inr refused) ↦ inr refused
        ]
