-- ===== src/A2dp/Bits.antt =====
-- bluetooth/audio/hal/A2dpBits.h: a vector of bytes read and written as numbered bits, bit 0 the
-- highest of byte 0. A vector is the list of its bytes, each below 256. The source's -1 is `none`. A
-- read past the end, undefined in the source, is a read of 0 here, and a write there changes nothing;
-- the codecs compare the sizes before they read.
pub mod Field
pub mod Laws
pub mod Active
pub mod Several
use android_device_peter_gsi.Base.{
  ℕ, zero, suc, ◌+◌, ◌-◌, ◌*◌, ◌/◌, ◌%◌, ◌^◌, bit_and, bit_or, bit_xor, Bool, ◌&&◌, Option, none,
  some, List, ltb, ◌==◌, if◌then◌else◌, get_or, set,
}

pub record Range : Type 0 where
  pub first : ℕ
  pub len : ℕ

-- The two constructors of `Range`: the first and the last bit, or a single bit.
abbrev pub span : ℕ → ℕ → Range
span first last = record { first = first; len = last - first + 1 }

abbrev pub single : ℕ → Range
single index = record { first = index; len = 1 }

-- `(x >> k) & 1`.
abbrev pub digit : ℕ → ℕ → ℕ
digit x k = x / 2 ^ k % 2

unfoldable pub get_bit : List ℕ → ℕ → ℕ
get_bit cdata bit = digit (get_or cdata (bit / 8) 0) (7 - bit % 8)

-- `get(bit)` as a truth value.
abbrev pub get : List ℕ → ℕ → Bool
get cdata bit = get_bit cdata bit == 1

-- The loop of `get(range)`, with `rounds` rounds left at index `i`.
unfoldable pub get_loop : List ℕ → Range → ℕ → ℕ → ℕ → ℕ
get_loop cdata range zero i v = v
get_loop cdata range (suc rounds) i v =
    get_loop cdata range rounds (i + 1)
      (bit_or v (get_bit cdata (range.first + i) * 2 ^ (range.len - 1 - i)))

unfoldable pub get_range : List ℕ → Range → ℕ
unfolding get_loop get_bit
get_range cdata range = get_loop cdata range range.len 0 0

-- `byte |= m` and `byte &= ~m`, on a `uint8_t`.
unfoldable pub set_byte : ℕ → ℕ → ℕ → ℕ
set_byte byte m value = if value == 0 then bit_and byte (255 - m) else bit_or byte m

unfoldable pub set_bit : List ℕ → ℕ → ℕ → List ℕ
unfolding set_byte
set_bit data_ bit value =
    set data_ (bit / 8) (set_byte (get_or data_ (bit / 8) 0) (2 ^ (7 - bit % 8)) value)

-- The loop of `set(range, value)`.
unfoldable pub set_loop : Range → ℕ → ℕ → ℕ → List ℕ → List ℕ
set_loop range value zero i data_ = data_
set_loop range value (suc rounds) i data_ =
    set_loop range value rounds (i + 1)
      (set_bit data_ (range.first + i) (digit value (range.len - 1 - i)))

unfoldable pub set_range : List ℕ → Range → ℕ → List ℕ
unfolding set_loop set_bit
set_range data_ range value = set_loop range value range.len 0 data_

-- The search of `find_active_bit`, with `rounds` rounds left at index `i`.
unfoldable pub scan : ℕ → ℕ → ℕ → ℕ
scan v zero i = i
scan v (suc rounds) i = let rest = scan v rounds (i + 1) in if digit v i == 0 then rest else i

unfoldable pub active_index : ℕ → Range → Option ℕ
unfolding scan
active_index v range =
    let i = scan v range.len 0 in
    if ltb i range.len && bit_xor v (2 ^ i) == 0
    then some (range.first + (range.len - 1) - i)
    else none

unfoldable pub find_active_bit : List ℕ → Range → Option ℕ
unfolding active_index get_range
find_active_bit cdata range = active_index (get_range cdata range) range
