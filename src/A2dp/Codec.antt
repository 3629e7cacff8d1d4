-- ===== src/A2dp/Codec.antt =====
-- bluetooth/audio/hal/A2dpOffloadCodec.h: what the codecs share. `A2dpStatus`, `ChannelMode`,
-- `CodecParameters` and `CodecInfo` are generated from the AIDL interface; the constructors and fields
-- are those that the code names. A parser fills its out-parameters only when it returns OK, so its
-- result is `accepted` with what it fills, or `rejected` with the status.
mod Choice
unfoldable pub use Choice.{hinted, first_common}
pub use Choice.{first_common-common, first_common-some}
use android_device_peter_gsi.A2dp.Bits.{get}
use android_device_peter_gsi.Base.{
  ℕ, if◌then◌else◌, [], ◌∷◌, List, Bool, true, false, Option, ◌≡◌, refl,
}
use android_device_peter_gsi.Base.Int.{ℤ}

pub data A2dpStatus : Type 0 where
  ok : A2dpStatus
  bad_length : A2dpStatus
  not_supported_codec_type : A2dpStatus
  invalid_sampling_frequency not_supported_sampling_frequency : A2dpStatus
  invalid_channel_mode not_supported_channel_mode : A2dpStatus
  invalid_block_length : A2dpStatus
  invalid_subbands not_supported_subbands : A2dpStatus
  invalid_allocation_method not_supported_allocation_method : A2dpStatus
  invalid_minimum_bitpool_value not_supported_minimum_bitpool_value : A2dpStatus
  invalid_maximum_bitpool_value not_supported_maximum_bitpool_value : A2dpStatus
  invalid_object_type not_supported_object_type : A2dpStatus
  invalid_channels not_supported_channels : A2dpStatus
  not_supported_vbr not_supported_bit_rate : A2dpStatus

pub data ChannelMode : Type 0 where
  unknown mono stereo dualmono : ChannelMode

pub record CodecParameters : Type 0 where
  pub channel_mode : ChannelMode
  pub sampling_frequency_hz : ℤ
  pub bitdepth : ℕ
  pub min_bitrate : ℤ
  pub max_bitrate : ℤ

pub record CodecInfo : Type 0 where
  pub capabilities : List ℕ
  pub sampling_frequency_hz : List ℕ
  pub channel_mode : List ChannelMode
  pub bitdepth : List ℕ

pub data Parsed (A : Type 0) : Type 0 where
  accepted : A → Parsed A
  rejected : A2dpStatus → Parsed A

abbrev pub status : {A : Type 0} → Parsed A → A2dpStatus
status (accepted p) = ok
status (rejected s) = s

-- The loops of the constructors that fill `samplingFrequencyHz` and `channelMode`: of some values, those
-- whose bit the capabilities have.
abbrev supports : List ℕ → Option ℕ → Bool
supports capabilities Option.none = false
supports capabilities (Option.some b) = get capabilities b

abbrev pub kept_values {ℓ} : {A : Type ℓ} → List ℕ → (A → Option ℕ) → List A → List A
kept_values capabilities bit_of [] = []
kept_values capabilities bit_of (v ∷ vs) =
    if supports capabilities (bit_of v)
    then v ∷ kept_values capabilities bit_of vs
    else kept_values capabilities bit_of vs

infixl 5 ◌>>=◌ ◌>>◌
abbrev pub ◌>>=◌ : {A B : Type 0} → Parsed A → (A → Parsed B) → Parsed B
accepted a >>= f = f a
rejected s >>= f = rejected s

abbrev pub ◌>>◌ : {B : Type 0} → Parsed (Unit {0}) → Parsed B → Parsed B
m >> k = m >>= λ _. k

-- `if (!test) return status;`
abbrev pub guard : Bool → A2dpStatus → Parsed (Unit {0})
guard true s = accepted tt
guard false s = rejected s

-- `if (x < 0) return status;` on a search that returns -1.
abbrev pub found_or : {A : Type 0} → Option A → A2dpStatus → Parsed A
found_or Option.none s = rejected s
found_or (Option.some a) s = accepted a

-- What an accepted chain has passed.
pub accepted-injective : {A : Type 0} {a b : A} → accepted a ≡ accepted b → a ≡ b
accepted-injective e = cc

pub guard-accepted :
    {B : Type 0} (b : Bool) (s : A2dpStatus) (k : Parsed B) {x : B}
    → (guard b s >> k) ≡ accepted x
    → (b ≡ true) × (k ≡ accepted x)
guard-accepted true s k e = (refl, e)
guard-accepted false s k e = cc

pub found-accepted :
    {A B : Type 0} (o : Option A) (s : A2dpStatus) (f : A → Parsed B) {x : B}
    → (found_or o s >>= f) ≡ accepted x
    → (a : A) × (o ≡ Option.some a) × (f a ≡ accepted x)
found-accepted Option.none s f e = cc
found-accepted (Option.some a) s f e = (a, refl, e)

pub then-accepted :
    {B : Type 0} (m : Parsed (Unit {0})) (k : Parsed B) {x : B}
    → (m >> k) ≡ accepted x
    → (m ≡ accepted tt) × (k ≡ accepted x)
then-accepted (accepted u) k e = (refl, e)
then-accepted (rejected s) k e = cc
