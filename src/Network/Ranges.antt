-- ===== src/Network/Ranges.antt =====
-- The private addresses of version 4 as blocks of 32-bit numbers: `isPrivateAddress` of
-- apps/browser-worker/src/network.ts.
use uma_agent.Base.{ℕ, ◌+◌, ◌*◌, ◌/◌, ◌<◌, ◌≡◌, ap₂, Bool, ◌&&◌, ◌||◌, ◌==◌, leb, arith}
use uma_agent.Network.{is_private_four}

-- The 32-bit number of the address `a.b.c.d`.
abbrev pub value : ℕ → ℕ → ℕ → ℕ → ℕ
value a b c d = 16777216 * a + 65536 * b + 256 * c + d

-- Whether the number is in the block of `size` addresses that begins at `base`.
abbrev pub in_block : ℕ → ℕ → ℕ → Bool
in_block base size v = v / size == base / size

-- The blocks that are not for the public: those of this network, of private networks, of loopback,
-- of carriers, of links, of benchmarks, of protocols and examples, and all from 224.0.0.0 on.
unfoldable pub is_reserved : ℕ → Bool
is_reserved v =
    in_block (value 0 0 0 0) 16777216 v
    || in_block (value 10 0 0 0) 16777216 v
    || in_block (value 127 0 0 0) 16777216 v
    || in_block (value 100 64 0 0) 4194304 v
    || in_block (value 169 254 0 0) 65536 v
    || in_block (value 172 16 0 0) 1048576 v
    || in_block (value 192 168 0 0) 65536 v
    || in_block (value 198 18 0 0) 131072 v
    || (in_block (value 192 0 0 0) 256 v || in_block (value 192 0 2 0) 256 v)
    || in_block (value 198 51 100 0) 256 v
    || in_block (value 203 0 113 0) 256 v
    || in_block (value 224 0 0 0) 536870912 v

value_by_24 : (a b c d : ℕ) → b < 256 → c < 256 → d < 256 → value a b c d / 16777216 ≡ a
value_by_24 a b c d p q r = omega arith

value_by_16 : (a b c d : ℕ) → b < 256 → c < 256 → d < 256 → value a b c d / 65536 ≡ 256 * a + b
value_by_16 a b c d p q r = omega arith

value_by_22 : (a b c d : ℕ) → b < 256 → c < 256 → d < 256 → value a b c d / 4194304 ≡ 4 * a + b / 64
value_by_22 a b c d p q r = omega arith

value_by_20 :
    (a b c d : ℕ) → b < 256 → c < 256 → d < 256 → value a b c d / 1048576 ≡ 16 * a + b / 16
value_by_20 a b c d p q r = omega arith

value_by_17 : (a b c d : ℕ) → b < 256 → c < 256 → d < 256 → value a b c d / 131072 ≡ 128 * a + b / 2
value_by_17 a b c d p q r = omega arith

value_by_8 :
    (a b c d : ℕ) → b < 256 → c < 256 → d < 256 → value a b c d / 256 ≡ 65536 * a + 256 * b + c
value_by_8 a b c d p q r = omega arith

value_by_29 : (a b c d : ℕ) → b < 256 → c < 256 → d < 256 → value a b c d / 536870912 ≡ a / 32
value_by_29 a b c d p q r = omega arith

zero_net :
    (a b c d : ℕ)
    → a < 256
    → b < 256
    → c < 256
    → d < 256
    → (a == 0) ≡ (in_block (value 0 0 0 0) 16777216 (value a b c d))
zero_net a b c d o p q r = ground (arith, value_by_24 a b c d p q r)

ten_net :
    (a b c d : ℕ)
    → a < 256
    → b < 256
    → c < 256
    → d < 256
    → (a == 10) ≡ (in_block (value 10 0 0 0) 16777216 (value a b c d))
ten_net a b c d o p q r = ground (arith, value_by_24 a b c d p q r)

loop_net :
    (a b c d : ℕ)
    → a < 256
    → b < 256
    → c < 256
    → d < 256
    → (a == 127) ≡ (in_block (value 127 0 0 0) 16777216 (value a b c d))
loop_net a b c d o p q r = ground (arith, value_by_24 a b c d p q r)

shared_net :
    (a b c d : ℕ)
    → a < 256
    → b < 256
    → c < 256
    → d < 256
    → (a == 100 && leb 64 b && leb b 127) ≡ (in_block (value 100 64 0 0) 4194304 (value a b c d))
shared_net a b c d o p q r = ground (arith, value_by_22 a b c d p q r)

link_net :
    (a b c d : ℕ)
    → a < 256
    → b < 256
    → c < 256
    → d < 256
    → (a == 169 && b == 254) ≡ (in_block (value 169 254 0 0) 65536 (value a b c d))
link_net a b c d o p q r = ground (arith, value_by_16 a b c d p q r)

middle_net :
    (a b c d : ℕ)
    → a < 256
    → b < 256
    → c < 256
    → d < 256
    → (a == 172 && leb 16 b && leb b 31) ≡ (in_block (value 172 16 0 0) 1048576 (value a b c d))
middle_net a b c d o p q r = ground (arith, value_by_20 a b c d p q r)

home_net :
    (a b c d : ℕ)
    → a < 256
    → b < 256
    → c < 256
    → d < 256
    → (a == 192 && b == 168) ≡ (in_block (value 192 168 0 0) 65536 (value a b c d))
home_net a b c d o p q r = ground (arith, value_by_16 a b c d p q r)

bench_net :
    (a b c d : ℕ)
    → a < 256
    → b < 256
    → c < 256
    → d < 256
    → (a == 198 && (b == 18 || b == 19)) ≡ (in_block (value 198 18 0 0) 131072 (value a b c d))
bench_net a b c d o p q r = ground (arith, value_by_17 a b c d p q r)

protocol_net :
    (a b c d : ℕ)
    → a < 256
    → b < 256
    → c < 256
    → d < 256
    → (a == 192 && b == 0 && (c == 0 || c == 2)) ≡ (
        in_block (value 192 0 0 0) 256 (value a b c d)
        || in_block (value 192 0 2 0) 256 (value a b c d))
protocol_net a b c d o p q r = ground (arith, value_by_8 a b c d p q r)

second_net :
    (a b c d : ℕ)
    → a < 256
    → b < 256
    → c < 256
    → d < 256
    → (a == 198 && b == 51 && c == 100) ≡ (in_block (value 198 51 100 0) 256 (value a b c d))
second_net a b c d o p q r = ground (arith, value_by_8 a b c d p q r)

third_net :
    (a b c d : ℕ)
    → a < 256
    → b < 256
    → c < 256
    → d < 256
    → (a == 203 && b == 0 && c == 113) ≡ (in_block (value 203 0 113 0) 256 (value a b c d))
third_net a b c d o p q r = ground (arith, value_by_8 a b c d p q r)

high_net :
    (a b c d : ℕ)
    → a < 256
    → b < 256
    → c < 256
    → d < 256
    → (leb 224 a) ≡ (in_block (value 224 0 0 0) 536870912 (value a b c d))
high_net a b c d o p q r = ground (arith, value_by_29 a b c d p q r)

-- The tests on the numbers of an address of version 4 are the membership in the blocks of reserved
-- addresses: `a.b.c.d` is private if and only if its 32-bit number lies in one of them.
pub is_private_four-is_reserved :
    (a b c d : ℕ)
    → a < 256
    → b < 256
    → c < 256
    → d < 256
    → is_private_four a b c ≡ is_reserved (value a b c d)
unfolding is_private_four is_reserved
is_private_four-is_reserved a b c d o p q r =
    (ap₂ (◌||◌)
      (ap₂ (◌||◌)
        (ap₂ (◌||◌)
          (ap₂ (◌||◌)
            (ap₂ (◌||◌)
              (ap₂ (◌||◌)
                (ap₂ (◌||◌)
                  (ap₂ (◌||◌)
                    (ap₂ (◌||◌)
                      (ap₂ (◌||◌) (ap₂ (◌||◌) (zero_net a b c d o p q r) (ten_net a b c d o p q r))
                        (loop_net a b c d o p q r))
                      (shared_net a b c d o p q r))
                    (link_net a b c d o p q r))
                  (middle_net a b c d o p q r))
                (home_net a b c d o p q r))
              (bench_net a b c d o p q r))
            (protocol_net a b c d o p q r))
          (second_net a b c d o p q r))
        (third_net a b c d o p q r))
      (high_net a b c d o p q r))
