-- ===== src/Hal/Port/Metadata/Tags.antt =====
-- The tags that are cut out of a text.
use android_device_peter_gsi.Base.{
  ℕ, zero, suc, ◌-◌, ◌<◌, ◌≤◌, ◌≡◌, ◌≢◌, refl, ap, inl, inr, Bool-cases, arith, false, List, [],
  ◌∷◌, ◌++◌, ◌==◌, length,
}
use android_device_peter_gsi.Hal.Port.Metadata.{
  copy_text, add_tag, cut, pieces, tokens, covert_audio_tag_from_v7,
}

-- A character of a tag.
abbrev pub IsTagChar : ℕ → Type 0
IsTagChar c = (c ≢ 0) × (c ≢ 59)

abbrev pub IsPlain : List ℕ → Type 0
IsPlain [] = Unit {0}
IsPlain (c ∷ cs) = IsTagChar c × IsPlain cs

-- A tag is not empty.
abbrev pub AreTags : List (List ℕ) → Type 0
AreTags [] = Unit {0}
AreTags ([] ∷ tags) = ⊥
AreTags ((c ∷ cs) ∷ tags) = IsPlain (c ∷ cs) × AreTags tags

-- The text of tags, with ';' between them.
abbrev pub join : List (List ℕ) → List ℕ
join [] = []
join (tag ∷ []) = tag
join (tag ∷ next ∷ tags) = tag ++ (59 ∷ join (next ∷ tags))

cut-other :
    (c : ℕ) (piece : List ℕ) (tags : List (List ℕ))
    → c ≢ 59
    → cut c (piece, tags) ≡ (c ∷ piece, tags)
cut-other c piece tags h = let other : (c == 59) ≡ false = ground arith in rw other refl

pieces-plain : (piece : List ℕ) → IsPlain piece → pieces piece ≡ (piece, [])
unfolding pieces
pieces-plain [] h = refl
pieces-plain (c ∷ cs) ((some, other), h) = rw (pieces-plain cs h) (cut-other c cs [] other)

pieces-append :
    (piece rest : List ℕ) → IsPlain piece → pieces (piece ++ (59 ∷ rest)) ≡ (piece, tokens rest)
unfolding pieces
pieces-append [] rest h = refl
pieces-append (c ∷ cs) rest ((some, other), h) =
    rw (pieces-append cs rest h) (cut-other c cs (tokens rest) other)

tokens-join : (tags : List (List ℕ)) → AreTags tags → tokens (join tags) ≡ tags
unfolding pieces
tokens-join [] h = refl
tokens-join ([] ∷ tags) h = elim h [ ]
tokens-join ((c ∷ cs) ∷ []) (plain, h) = rw (pieces-plain (c ∷ cs) plain) refl
tokens-join ((c ∷ cs) ∷ next ∷ tags) (plain, h) =
    rw (pieces-append (c ∷ cs) (join (next ∷ tags)) plain)
      (ap (λ ts. (c ∷ cs) ∷ ts) (tokens-join (next ∷ tags) h))

-- A text without NUL.
abbrev IsText : List ℕ → Type 0
IsText [] = Unit {0}
IsText (c ∷ cs) = (c ≢ 0) × IsText cs

append-IsText : (piece rest : List ℕ) → IsPlain piece → IsText rest → IsText (piece ++ rest)
append-IsText [] rest h r = r
append-IsText (c ∷ cs) rest ((some, other), h) r = (some, append-IsText cs rest h r)

plain-IsText : (piece : List ℕ) → IsPlain piece → IsText piece
plain-IsText [] h = tt
plain-IsText (c ∷ cs) ((some, other), h) = (some, plain-IsText cs h)

join-IsText : (tags : List (List ℕ)) → AreTags tags → IsText (join tags)
join-IsText [] h = tt
join-IsText ([] ∷ tags) h = elim h [ ]
join-IsText ((c ∷ cs) ∷ []) (plain, h) = plain-IsText (c ∷ cs) plain
join-IsText ((c ∷ cs) ∷ next ∷ tags) (plain, h) =
    append-IsText (c ∷ cs) (59 ∷ join (next ∷ tags)) plain
      (λ e. omega arith, join-IsText (next ∷ tags) h)

copy_text-all :
    (n : ℕ) (text behind : List ℕ)
    → IsText text
    → length text ≤ n
    → copy_text n (text ++ (0 ∷ behind)) ≡ text
unfolding copy_text
copy_text-all zero [] behind h l = refl
copy_text-all zero (c ∷ cs) behind h l = absurd (omega arith)
copy_text-all (suc n) [] behind h l = refl
copy_text-all (suc n) (c ∷ cs) behind (some, h) l =
    let other : (c == 0) ≡ false = ground arith in
    rw other (ap (λ ts. c ∷ ts) (copy_text-all n cs behind h (omega arith)))

-- Tags that are joined by ';' in a text that fits into the system's buffer are read back, whatever stands
-- behind the NUL of the text: none is lost, split or put together with another.
pub covert_audio_tag_from_v7-join :
    (max_size : ℕ) (tags : List (List ℕ)) (behind : List ℕ)
    → AreTags tags
    → length (join tags) < max_size
    → covert_audio_tag_from_v7 max_size (join tags ++ (0 ∷ behind)) ≡ tags
unfolding covert_audio_tag_from_v7
covert_audio_tag_from_v7-join max_size tags behind h l =
    rw (copy_text-all (max_size - 1) (join tags) behind (join-IsText tags h) (omega arith))
      (tokens-join tags h)

add_tag-AreTags :
    (piece : List ℕ) (tags : List (List ℕ))
    → IsPlain piece
    → AreTags tags
    → AreTags (add_tag piece tags)
add_tag-AreTags [] tags h t = t
add_tag-AreTags (c ∷ cs) tags h t = (h, t)

cut-AreTags :
    (c : ℕ) (piece : List ℕ) (tags : List (List ℕ))
    → c ≢ 0
    → IsPlain piece
    → AreTags tags
    → IsPlain (cut c (piece, tags)).0 × AreTags (cut c (piece, tags)).1
cut-AreTags c piece tags some h t = elim (Bool-cases (c == 59)) [
  | inl e ↦ rw e (tt, add_tag-AreTags piece tags h t)
  | inr e ↦ rw e (((some, ground arith), h), t)
]

pieces-AreTags : (text : List ℕ) → IsText text → IsPlain (pieces text).0 × AreTags (pieces text).1
unfolding pieces
pieces-AreTags [] h = (tt, tt)
pieces-AreTags (c ∷ cs) (some, h) =
    let (plain, tags) = pieces-AreTags cs h in
    cut-AreTags c (pieces cs).0 (pieces cs).1 some plain tags

copy_text-IsText : (n : ℕ) (text : List ℕ) → IsText (copy_text n text)
unfolding copy_text
copy_text-IsText zero text = tt
copy_text-IsText (suc n) [] = tt
copy_text-IsText (suc n) (c ∷ cs) = elim (Bool-cases (c == 0)) [
  | inl e ↦ rw e tt
  | inr e ↦ rw e (ground arith, copy_text-IsText n cs)
]

-- Whatever the text, no tag that is cut out of it is empty, or holds a NUL or a ';'.
covert_audio_tag_from_v7-AreTags :
    (max_size : ℕ) (text : List ℕ) → AreTags (covert_audio_tag_from_v7 max_size text)
unfolding covert_audio_tag_from_v7
covert_audio_tag_from_v7-AreTags max_size text =
    let copied = copy_text (max_size - 1) text in
    let (plain, tags) = pieces-AreTags copied (copy_text-IsText (max_size - 1) text) in
    add_tag-AreTags (pieces copied).0 (pieces copied).1 plain tags
