-- ===== src/Session/Cookies.antt =====
-- The cookies of the session types: sixteen for each type, disjoint, and each tells its type.
use android_device_peter_gsi.Base.{
  ℕ, ◌+◌, ◌*◌, ◌/◌, ◌≤◌, ◌<◌, bit_and, ◌≡◌, refl, sym, ◌∙◌, arith, true, ◌==◌, ==_iff, holds_below,
  holds_below-below,
}
use android_device_peter_gsi.Session.Types.{
  SessionType, SessionCodes, cookie_init_value, cookie_upper_bound, cookie_session_code,
}

high_table : holds_below 256 (λ c. bit_and (c * 256) 0xff00 == c * 256) ≡ true
unfolding holds_below
high_table = refl

low_table : holds_below 256 (λ c. bit_and c 0x00ff == c) ≡ true
unfolding holds_below
low_table = refl

module _ (codes : SessionCodes) (t : SessionType) where
  pub cookie_init_value_lem : cookie_init_value codes t ≡ codes.code t * 256
  unfolding cookie_init_value
  cookie_init_value_lem = (==_iff (bit_and (codes.code t * 256) 0xff00) (codes.code t * 256)).0 (
      holds_below-below 256 (λ c. bit_and (c * 256) 0xff00 == c * 256) (codes.code t) high_table
        (codes.code-lt t))

  pub cookie_upper_bound_lem : cookie_upper_bound codes t ≡ codes.code t * 256 + 16
  unfolding cookie_upper_bound
  cookie_upper_bound_lem = omega (arith, cookie_init_value_lem, codes.code-lt t)

  -- A cookie of the session type tells its number.
  pub cookie_session_code_lem :
      (cookie : ℕ)
      → cookie_init_value codes t ≤ cookie
      → cookie < cookie_upper_bound codes t
      → cookie_session_code cookie ≡ codes.code t
  unfolding cookie_session_code
  cookie_session_code_lem cookie lo hi =
      let high : cookie / 256 ≡ codes.code t =
        omega (arith, cookie_init_value_lem, cookie_upper_bound_lem) in
      rw high (
        (==_iff (bit_and (codes.code t) 0x00ff) (codes.code t)).0 (
          holds_below-below 256 (λ c. bit_and c 0x00ff == c) (codes.code t) low_table
            (codes.code-lt t)))

-- No cookie belongs to two session types.
pub cookies_disjoint :
    (codes : SessionCodes) (t u : SessionType) (cookie : ℕ)
    → cookie_init_value codes t ≤ cookie
    → cookie < cookie_upper_bound codes t
    → cookie_init_value codes u ≤ cookie
    → cookie < cookie_upper_bound codes u
    → t ≡ u
cookies_disjoint codes t u cookie lo hi lo' hi' = codes.code-injective t u (
    sym (cookie_session_code_lem codes t cookie lo hi)
    ∙ cookie_session_code_lem codes u cookie lo' hi')
