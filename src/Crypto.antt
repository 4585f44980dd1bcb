-- ===== src/Crypto.antt =====
-- What the code uses of Go's standard library to hash and print: crypto/sha256 (FIPS 180-4),
-- encoding/hex and strconv.FormatInt in base ten.
pub mod Encoding
use Encoding.{hex}
use Prim.Native.Nat.{bit_and, bit_xor}
use stonewrit.Prelude.{
  ℕ, zero, suc, ◌+◌, ◌-◌, ◌*◌, ◌/◌, ◌%◌, ◌^◌, List, [], ◌∷◌, ◌++◌, ◌≡◌, refl, Text, codes, length,
  if◌then◌else◌, leb,
}

-- addition and rotation of 32-bit words
infixl 65 ◌+w◌
abbrev ◌+w◌ : ℕ → ℕ → ℕ
a +w b = (a + b) % 2 ^ 32

abbrev rotr : ℕ → ℕ → ℕ
rotr k x = x / 2 ^ k + x % 2 ^ k * 2 ^ (32 - k)

abbrev xor₃ : ℕ → ℕ → ℕ → ℕ
xor₃ a b c = bit_xor a (bit_xor b c)

round_constants : List ℕ
round_constants =
    0x428a2f98 ∷ 0x71374491 ∷ 0xb5c0fbcf ∷ 0xe9b5dba5 ∷ 0x3956c25b ∷ 0x59f111f1 ∷ 0x923f82a4
    ∷ 0xab1c5ed5 ∷ 0xd807aa98 ∷ 0x12835b01 ∷ 0x243185be ∷ 0x550c7dc3 ∷ 0x72be5d74 ∷ 0x80deb1fe
    ∷ 0x9bdc06a7 ∷ 0xc19bf174 ∷ 0xe49b69c1 ∷ 0xefbe4786 ∷ 0x0fc19dc6 ∷ 0x240ca1cc ∷ 0x2de92c6f
    ∷ 0x4a7484aa ∷ 0x5cb0a9dc ∷ 0x76f988da ∷ 0x983e5152 ∷ 0xa831c66d ∷ 0xb00327c8 ∷ 0xbf597fc7
    ∷ 0xc6e00bf3 ∷ 0xd5a79147 ∷ 0x06ca6351 ∷ 0x14292967 ∷ 0x27b70a85 ∷ 0x2e1b2138 ∷ 0x4d2c6dfc
    ∷ 0x53380d13 ∷ 0x650a7354 ∷ 0x766a0abb ∷ 0x81c2c92e ∷ 0x92722c85 ∷ 0xa2bfe8a1 ∷ 0xa81a664b
    ∷ 0xc24b8b70 ∷ 0xc76c51a3 ∷ 0xd192e819 ∷ 0xd6990624 ∷ 0xf40e3585 ∷ 0x106aa070 ∷ 0x19a4c116
    ∷ 0x1e376c08 ∷ 0x2748774c ∷ 0x34b0bcb5 ∷ 0x391c0cb3 ∷ 0x4ed8aa4a ∷ 0x5b9cca4f ∷ 0x682e6ff3
    ∷ 0x748f82ee ∷ 0x78a5636f ∷ 0x84c87814 ∷ 0x8cc70208 ∷ 0x90befffa ∷ 0xa4506ceb ∷ 0xbef9a3f7
    ∷ 0xc67178f2 ∷ []

-- the eight working variables
record Words : Type 0 where
  a : ℕ
  b : ℕ
  c : ℕ
  d : ℕ
  e : ℕ
  f : ℕ
  g : ℕ
  h : ℕ

start : Words
start = record {
  a = 0x6a09e667;
  b = 0xbb67ae85;
  c = 0x3c6ef372;
  d = 0xa54ff53a;
  e = 0x510e527f;
  f = 0x9b05688c;
  g = 0x1f83d9ab;
  h = 0x5be0cd19;
}

-- one round, with the round constant plus the schedule word
round : Words → ℕ → Words
round s kw =
    let s1 = xor₃ (rotr 6 s.e) (rotr 11 s.e) (rotr 25 s.e) in
    let ch = bit_xor (bit_and s.e s.f) (bit_and (2 ^ 32 - 1 - s.e) s.g) in
    let t1 = s.h +w s1 +w ch +w kw in
    let s0 = xor₃ (rotr 2 s.a) (rotr 13 s.a) (rotr 22 s.a) in
    let maj = xor₃ (bit_and s.a s.b) (bit_and s.a s.c) (bit_and s.b s.c) in
    record {
      a = t1 +w s0 +w maj;
      b = s.a;
      c = s.b;
      d = s.c;
      e = s.d +w t1;
      f = s.e;
      g = s.f;
      h = s.g;
    }

-- the next schedule word, from the sixteen before it (oldest first)
next_word : List ℕ → ℕ
next_word (w0 ∷ w1 ∷ w2 ∷ w3 ∷ w4 ∷ w5 ∷ w6 ∷ w7 ∷ w8 ∷ w9 ∷ w10 ∷ w11 ∷ w12 ∷ w13 ∷ w14 ∷ _) =
    w0
    +w xor₃ (rotr 7 w1) (rotr 18 w1) (w1 / 2 ^ 3)
    +w w9
    +w xor₃ (rotr 17 w14) (rotr 19 w14) (w14 / 2 ^ 10)
next_word _ = 0

-- the rounds over the constants left, with a window of sixteen schedule words
rounds : List ℕ → List ℕ → Words → Words
rounds [] window s = s
rounds (k ∷ ks) [] s = s
rounds (k ∷ ks) (w ∷ window) s =
    rounds ks (window ++ next_word (w ∷ window) ∷ []) (round s (k +w w))

compress : Words → List ℕ → Words
compress s block =
    let t = rounds round_constants block s in
    record {
      a = s.a +w t.a;
      b = s.b +w t.b;
      c = s.c +w t.c;
      d = s.d +w t.d;
      e = s.e +w t.e;
      f = s.f +w t.f;
      g = s.g +w t.g;
      h = s.h +w t.h;
    }

-- four bytes to a big-endian word, and back
to_words : Text → List ℕ
to_words (p ∷ q ∷ r ∷ s ∷ rest) = (p * 2 ^ 24 + q * 2 ^ 16 + r * 2 ^ 8 + s) ∷ to_words rest
to_words _ = []

abbrev word_bytes : ℕ → Text
word_bytes w = (w / 2 ^ 24 % 256) ∷ (w / 2 ^ 16 % 256) ∷ (w / 2 ^ 8 % 256) ∷ (w % 256) ∷ []

zeros : ℕ → Text
zeros zero = []
zeros (suc n) = 0 ∷ zeros n

-- a one bit, zero bytes up to 56 mod 64, and the length in bits
pad : Text → Text
pad m =
    let n = length m in
    m ++ 0x80 ∷ zeros ((119 - n % 64) % 64) ++ word_bytes (n * 8 / 2 ^ 32) ++ word_bytes (n * 8)

-- the blocks of sixteen words; the first list is the block being collected, its length the count
blocks : Words → List ℕ → ℕ → List ℕ → Words
blocks s block n [] = s
blocks s block n (w ∷ ws) =
    let full = leb 15 n in
    blocks (if full then compress s (block ++ w ∷ []) else s) (if full then [] else block ++ w ∷ [])
      (if full then 0 else n + 1) ws

unfoldable pub sha256 : Text → Text
unfolding blocks compress rounds round next_word round_constants start to_words pad zeros
sha256 m =
    let s = blocks start [] 0 (to_words (pad m)) in
    word_bytes s.a
    ++ word_bytes s.b
    ++ word_bytes s.c
    ++ word_bytes s.d
    ++ word_bytes s.e
    ++ word_bytes s.f
    ++ word_bytes s.g
    ++ word_bytes s.h

-- the digest has 32 bytes, as Go's [32]byte
pub length-sha256 : (m : Text) → length (sha256 m) ≡ 32
unfolding sha256
length-sha256 m = refl
