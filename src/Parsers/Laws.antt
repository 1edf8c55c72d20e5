-- ===== src/Parsers/Laws.antt =====
-- Which numbers src/utils/parsers.c accepts.
use libnrm.Prelude.{◌↔◌, ℕ, ◌≡◌, false, arith}
use libnrm.Prelude.Int.{ℤ, pos, ltb_ℤ}
use libnrm.Prelude.Bytes.{Bytes}
use libnrm.Error.{success}
use libnrm.Parsers.{parse_int, parse_uint, int_min, int_max}

module _ (strtol : Bytes → ℤ × ℕ) (str : Bytes) where
  -- The conversion went well and its number is in a range.
  abbrev pub Fits : ℤ → ℤ → Type 0
  Fits low high =
      ((strtol str).1 ≡ 0)
      × (ltb_ℤ (strtol str).0 low ≡ false)
      × (ltb_ℤ high (strtol str).0 ≡ false)

  Fits-parse_int : (p : ℤ) → (parse_int strtol str p).0 ≡ success → Fits int_min int_max
  unfolding parse_int
  Fits-parse_int p h = (ground arith, ground arith, ground arith)

  Fits-parse_uint : (p : ℤ) → (parse_uint strtol str p).0 ≡ success → Fits (pos 0) int_max
  unfolding parse_uint
  Fits-parse_uint p h = (ground arith, ground arith, ground arith)

  -- nrm_parse_int succeeds just when strtol does and its number is an int.
  pub parse_int_iff : (p : ℤ) → ((parse_int strtol str p).0 ≡ success) ↔ Fits int_min int_max
  unfolding parse_int
  parse_int_iff p = (Fits-parse_int p, λ h. ground (arith, h.0, h.1, h.2))

  -- nrm_parse_uint succeeds just when strtol does and its number is at least 0 and at most INT_MAX,
  -- so that it refuses those from there to UINT_MAX.
  pub parse_uint_iff : (p : ℤ) → ((parse_uint strtol str p).0 ≡ success) ↔ Fits (pos 0) int_max
  unfolding parse_uint
  parse_uint_iff p = (Fits-parse_uint p, λ h. ground (arith, h.0, h.1, h.2))

  -- On such a number nrm_parse_uint and nrm_parse_int both store it.
  pub parse_uint-parse_int :
      (p q : ℤ)
      → Fits (pos 0) int_max
      → (parse_uint strtol str p ≡ (success, (strtol str).0))
        × (parse_int strtol str q ≡ (success, (strtol str).0))
  unfolding parse_uint parse_int
  parse_uint-parse_int p q h = (ground (arith, h.0, h.1, h.2), ground (arith, h.0, h.1, h.2))
