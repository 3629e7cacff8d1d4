-- ===== src/Hal/Params.antt =====
-- bluetooth/audio/hw/utils.cc: parameters as text. `Split` of android-base, which is not here, is a
-- parameter: it returns the pieces of a text between separators.
use Prim.Native.String.{String}
use text.Mathlib.Text.{◌==◌}
use android_device_peter_gsi.Base.{
  ℕ, ◌*◌, ◌/◌, ◌%◌, ◌^◌, Option, none, some, List, [], ◌∷◌, if◌then◌else◌,
}

-- The map from keys to values.
abbrev pub Params : Type 0
Params = List (String × String)

unfoldable pub find_param : String → Params → Option String
find_param key [] = none
find_param key ((k, v) ∷ rest) = if k == key then some v else find_param key rest

-- `params_map[key] = value`.
unfoldable pub set_param : String → String → Params → Params
set_param key value [] = (key, value) ∷ []
set_param key value ((k, v) ∷ rest) =
    if k == key then (k, value) ∷ rest else (k, v) ∷ set_param key value rest

abbrev second : List String → String
second (v ∷ rest) = v
second [] = ""

-- The body of the loop, on the pieces of a segment; `Split` returns one piece at least.
abbrev pub add_segment : List String → Params → Params
add_segment [] params = params
add_segment (key ∷ rest) params = if key == "" then params else set_param key (second rest) params

unfoldable pub add_segments : (String → String → List String) → List String → Params → Params
unfolding set_param
add_segments split [] params = params
add_segments split (segment ∷ segments) params =
    let added = if segment == "" then params else add_segment (split segment "=") params in
    add_segments split segments added

unfoldable pub parse_audio_params : (String → String → List String) → String → Params
unfolding add_segments
parse_audio_params split params = add_segments split (split params ";") []

-- `FrameCount`, on a `uint64_t` and a `uint32_t`.
unfoldable pub frame_count : ℕ → ℕ → ℕ
frame_count microseconds sample_rate = microseconds * sample_rate % 2 ^ 64 / 1000000
