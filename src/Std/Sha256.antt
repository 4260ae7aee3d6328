-- ===== src/Std/Sha256.antt =====
-- crypto/sha256 and encoding/hex, over bytes: what `digest` of internal/core/domain.go uses.
use Prim.Native.Nat.{bit_and, bit_xor}
use mathlib.Core.List.{foldl, reverse}
use dorf.Base.{
  ℕ, zero, suc, ◌+◌, ◌-◌, ◌*◌, ◌/◌, ◌%◌, ◌^◌, ◌≡◌, refl, List, [], ◌∷◌, ◌++◌, Text, txt, length,
  ltb, eqb, if◌then◌else◌,
}

w32 : ℕ → ℕ
w32 n = n % 4294967296

rotr : ℕ → ℕ → ℕ
rotr n x = x / 2 ^ n + (x % 2 ^ n) * 2 ^ (32 - n)

xor3 : ℕ → ℕ → ℕ → ℕ
xor3 a b c = bit_xor (bit_xor a b) c

nth : List ℕ → ℕ → ℕ
nth [] i = 0
nth (x ∷ xs) zero = x
nth (x ∷ xs) (suc i) = nth xs i

-- The message schedule, newest word first.
extend : ℕ → List ℕ → List ℕ
unfolding w32 rotr xor3 nth
extend zero ws = ws
extend (suc n) ws = extend n (next ∷ ws)
  where
    s0 : ℕ → ℕ
    s0 x = xor3 (rotr 7 x) (rotr 18 x) (x / 2 ^ 3)

    s1 : ℕ → ℕ
    s1 x = xor3 (rotr 17 x) (rotr 19 x) (x / 2 ^ 10)

    next : ℕ
    next = w32 (s1 (nth ws 1) + nth ws 6 + s0 (nth ws 14) + nth ws 15)

pub record State : Type 0 where
  pub a : ℕ
  pub b : ℕ
  pub c : ℕ
  pub d : ℕ
  pub e : ℕ
  pub f : ℕ
  pub g : ℕ
  pub h : ℕ

round_constants : List ℕ
round_constants =
    0x428a2f98 ∷ 0x71374491 ∷ 0xb5c0fbcf ∷ 0xe9b5dba5 ∷ 0x3956c25b ∷ 0x59f111f1 ∷ 0x923f82a4
    ∷ 0xab1c5ed5 ∷ 0xd807aa98 ∷ 0x12835b01 ∷ 0x243185be ∷ 0x550c7dc3 ∷ 0x72be5d74 ∷ 0x80deb1fe
    ∷ 0x9bdc06a7 ∷ 0xc19bf174 ∷ 0xe49b69c1 ∷ 0xefbe4786 ∷ 0x0fc19dc6 ∷ 0x240ca1cc ∷ 0x2de92c6f
    ∷ 0x4a7484aa ∷ 0x5cb0a9dc ∷ 0x76f988da ∷ 0x983e5152 ∷ 0xa831c66d ∷ 0xb00327c8 ∷ 0xbf597fc7
    ∷ 0xc6e00bf3 ∷ 0xd5a79147 ∷ 0x06ca6351 ∷ 0x14292967 ∷ 0x27b70a85 ∷ 0x2e1b2138 ∷ 0x4d2c6dfc
    ∷ 0x53380d13 ∷ 0x650a7354 ∷ 0x766a0abb ∷ 0x81c2c92e ∷ 0x92722c85 ∷ 0xa2bfe8a1 ∷ 0xa81a664b
    ∷ 0xc24b8b70 ∷ 0xc76c51a3 ∷ 0xd192e819 ∷ 0xd6990624 ∷ 0xf40e3585 ∷ 0x106aa070 ∷ 0x19a4c116
    ∷ 0x1e376c08 ∷ 0x2748774c ∷ 0x34b0bcb5 ∷ 0x391c0cb3 ∷ 0x4ed8aa4a ∷ 0x5b9cca4f ∷ 0x682e6ff3
    ∷ 0x748f82ee ∷ 0x78a5636f ∷ 0x84c87814 ∷ 0x8cc70208 ∷ 0x90befffa ∷ 0xa4506ceb ∷ 0xbef9a3f7
    ∷ 0xc67178f2 ∷ []

initial : State
initial = record {
  a = 0x6a09e667;
  b = 0xbb67ae85;
  c = 0x3c6ef372;
  d = 0xa54ff53a;
  e = 0x510e527f;
  f = 0x9b05688c;
  g = 0x1f83d9ab;
  h = 0x5be0cd19;
}

round : State → ℕ → ℕ → State
unfolding w32 rotr xor3
round s k w = record {
  a = w32 (t1 + t2);
  b = s.a;
  c = s.b;
  d = s.c;
  e = w32 (s.d + t1);
  f = s.e;
  g = s.f;
  h = s.g;
}
  where
    ch : ℕ
    ch = bit_xor (bit_and s.e s.f) (bit_and (4294967295 - s.e) s.g)

    maj : ℕ
    maj = xor3 (bit_and s.a s.b) (bit_and s.a s.c) (bit_and s.b s.c)

    t1 : ℕ
    t1 = s.h + xor3 (rotr 6 s.e) (rotr 11 s.e) (rotr 25 s.e) + ch + k + w

    t2 : ℕ
    t2 = xor3 (rotr 2 s.a) (rotr 13 s.a) (rotr 22 s.a) + maj

rounds : State → List ℕ → List ℕ → State
unfolding round
rounds s (k ∷ ks) (w ∷ ws) = rounds (round s k w) ks ws
rounds s _ _ = s

compress : State → List ℕ → State
unfolding w32 extend round_constants rounds
compress s block = record {
  a = w32 (s.a + t.a);
  b = w32 (s.b + t.b);
  c = w32 (s.c + t.c);
  d = w32 (s.d + t.d);
  e = w32 (s.e + t.e);
  f = w32 (s.f + t.f);
  g = w32 (s.g + t.g);
  h = w32 (s.h + t.h);
}
  where
    t : State
    t = rounds s round_constants (reverse (extend 48 block))

-- Words go to the block in progress, newest first, and a full block to the state.
feed : State × List ℕ → ℕ → State × List ℕ
unfolding compress
feed (s, pending) w =
    if eqb (length pending) 15 then (compress s (w ∷ pending), []) else (s, w ∷ pending)

big_endian : List ℕ → List ℕ
big_endian (a ∷ b ∷ c ∷ d ∷ r) = (a * 2 ^ 24 + b * 2 ^ 16 + c * 2 ^ 8 + d) ∷ big_endian r
big_endian _ = []

replicate : ℕ → ℕ → List ℕ
replicate zero x = []
replicate (suc n) x = x ∷ replicate n x

bytes_of : ℕ → ℕ → List ℕ
bytes_of zero n = []
bytes_of (suc k) n = (n / 256 ^ k) % 256 ∷ bytes_of k n

padded : Text → Text
unfolding replicate bytes_of
padded m = m ++ (0x80 ∷ replicate ((119 - length m % 64) % 64) 0 ++ bytes_of 8 (8 * length m))

unfoldable pub sum256 : Text → Text
unfolding feed initial big_endian padded bytes_of
sum256 m =
    let t = (foldl feed (initial, []) (big_endian (padded m))).0 in
    bytes_of 4 t.a
    ++ (bytes_of 4 t.b
        ++ (bytes_of 4 t.c
            ++ (bytes_of 4 t.d
                ++ (bytes_of 4 t.e ++ (bytes_of 4 t.f ++ (bytes_of 4 t.g ++ bytes_of 4 t.h))))))

hex_digit : ℕ → ℕ
hex_digit n = if ltb n 10 then n + 48 else n + 87

unfoldable pub hex : Text → Text
unfolding hex_digit
hex [] = []
hex (b ∷ bs) = hex_digit (b / 16) ∷ hex_digit (b % 16) ∷ hex bs

sum256_abc :
    hex (sum256 (txt "abc"))
    ≡ txt "ba7816bf8f01cfea414140de5dae2223b00361a396177a9cb410ff61f20015ad"
unfolding hex sum256
sum256_abc = refl
