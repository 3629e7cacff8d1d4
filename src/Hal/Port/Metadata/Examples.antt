-- ===== src/Hal/Port/Metadata/Examples.antt =====
-- The tags of a concrete text.
use android_device_peter_gsi.Base.{ℕ, ◌≡◌, refl, arith, List, [], ◌∷◌, length, ◌<◌}
use android_device_peter_gsi.Hal.Port.Metadata.{copy_text, pieces, covert_audio_tag_from_v7}
use android_device_peter_gsi.Hal.Port.Metadata.Tags.{
  IsTagChar, AreTags, join, covert_audio_tag_from_v7-join,
}

-- "VX_A;B;" with an empty tag in it, and what follows the NUL.
abbrev text : List ℕ
text = 86 ∷ 88 ∷ 59 ∷ 59 ∷ 66 ∷ 59 ∷ 0 ∷ 67 ∷ []

text-tags : covert_audio_tag_from_v7 256 text ≡ (86 ∷ 88 ∷ []) ∷ (66 ∷ []) ∷ []
unfolding covert_audio_tag_from_v7 copy_text pieces
text-tags = refl

-- A buffer of four characters cuts the last tag off.
text-cut : covert_audio_tag_from_v7 4 text ≡ (86 ∷ 88 ∷ []) ∷ []
unfolding covert_audio_tag_from_v7 copy_text pieces
text-cut = refl

abbrev tags : List (List ℕ)
tags = (86 ∷ 88 ∷ []) ∷ (66 ∷ []) ∷ []

char_86 : IsTagChar 86
char_86 = (λ e. omega arith, λ e. omega arith)

char_88 : IsTagChar 88
char_88 = (λ e. omega arith, λ e. omega arith)

char_66 : IsTagChar 66
char_66 = (λ e. omega arith, λ e. omega arith)

tags-AreTags : AreTags tags
tags-AreTags = ((char_86, (char_88, tt)), ((char_66, tt), tt))

short : length (join tags) < 256
short = omega arith

covert_audio_tag_from_v7-join_example :
    covert_audio_tag_from_v7 256 (86 ∷ 88 ∷ 59 ∷ 66 ∷ 0 ∷ 67 ∷ []) ≡ tags
covert_audio_tag_from_v7-join_example =
    covert_audio_tag_from_v7-join 256 tags (67 ∷ []) tags-AreTags short
