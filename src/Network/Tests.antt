-- ===== src/Network/Tests.antt =====
-- Addresses at fixed texts.
use uma_agent.Base.{ℕ, ◌≡◌, refl, true, [], ◌∷◌, ◌++◌, Text, arith, split, split_after, same_text}
use uma_agent.Network.{
  mapped_start, is_private_address, is_private_lower, is_private_plain, is_dotted, is_local_six,
  of_parts, is_private_four,
}
use uma_agent.Network.Ranges.{value, is_reserved}
use uma_agent.Network.Addresses.{private_iff_reserved}

-- "10.0.0.1"
abbrev ten : Text
ten = 49 ∷ 48 ∷ 46 ∷ 48 ∷ 46 ∷ 48 ∷ 46 ∷ 49 ∷ []

abbrev always_four : Text → ℕ
always_four t = 4

ten_private : is_private_address always_four ten ≡ true
unfolding is_private_address is_private_lower is_private_plain is_dotted is_local_six of_parts
    is_private_four split split_after same_text
ten_private = refl

private_iff_reserved_example :
    (is_private_address always_four ten ≡ is_reserved (value 10 0 0 1))
    × (is_private_address always_four (mapped_start ++ ten) ≡ is_reserved (value 10 0 0 1))
unfolding is_dotted split split_after
private_iff_reserved_example =
    private_iff_reserved always_four ten 10 0 0 1
      (record {
        plain = refl;
        dotted = refl;
        parts = refl;
        first_below = omega arith;
        second_below = omega arith;
        third_below = omega arith;
        fourth_below = omega arith;
      })
      refl
