-- ===== src/Standard/Letters.antt =====
-- The letters of cstandard.c.
use tp2_so_g.Base.{ℕ, ◌≡◌, arith, false}
use tp2_so_g.Standard.{is_lower, is_upper, is_alnum, to_lower, to_upper}

-- toUpper after toLower is toUpper, toLower after toUpper is toLower, toUpper leaves no lower case
-- and toLower no upper case, and toUpper keeps what is a letter or a digit one, and what is not.
to_upper-to_lower :
    (c : ℕ)
    → (to_upper (to_lower c) ≡ to_upper c)
      × (to_lower (to_upper c) ≡ to_lower c)
      × (is_lower (to_upper c) ≡ false)
      × (is_upper (to_lower c) ≡ false)
      × (is_alnum (to_upper c) ≡ is_alnum c)
to_upper-to_lower c = (ground arith, ground arith, ground arith, ground arith, ground arith)
