-- ===== src/A2dp/Codec/Choice.antt =====
-- The chains `if (lcaps.get(b) && rcaps.get(b)) config.set(b); else if …` of `BuildConfiguration`: the
-- first of some bits that both vectors of capabilities have.
use android_device_peter_gsi.Base.{
  Among, ℕ, ◌≡◌, ap, inl, inr, true, ◌&&◌, Option, none, some, List, [], ◌∷◌, arith, if◌then◌else◌,
}
use android_device_peter_gsi.A2dp.Bits.{get}

-- A hint, when there is one, is tried first.
abbrev pub hinted : Option ℕ → List ℕ → List ℕ
hinted none bits = bits
hinted (some b) bits = b ∷ bits

unfoldable pub first_common : List ℕ → List ℕ → List ℕ → Option ℕ
first_common lcaps rcaps [] = none
first_common lcaps rcaps (b ∷ bits) =
    if get lcaps b && get rcaps b then some b else first_common lcaps rcaps bits

-- What is chosen is one of the bits, and both vectors have it.
pub first_common-common :
    (l r bits : List ℕ) (b : ℕ)
    → first_common l r bits ≡ some b
    → (get l b ≡ true) × (get r b ≡ true) × Among b bits
unfolding first_common
first_common-common l r [] b e = cc
first_common-common l r (x ∷ bits) b e = ground (arith, first_common-common l r bits b)

-- A choice is made whenever some bit is common.
pub first_common-some :
    (l r bits : List ℕ) (b : ℕ)
    → Among b bits
    → get l b ≡ true
    → get r b ≡ true
    → (d : ℕ) × (first_common l r bits ≡ some d)
unfolding first_common
first_common-some l r [] b m p q = absurd m
first_common-some l r (x ∷ bits) b (inl e) p q = (b, ground (arith, ap (get l) e, ap (get r) e))
first_common-some l r (x ∷ bits) b (inr m) p q =
    let (d, chosen) = first_common-some l r bits b m p q in
    (if get l x && get r x then x else d, ground arith)
