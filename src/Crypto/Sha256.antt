-- ===== src/Crypto/Sha256.antt =====
-- src/upstream_api_compat.cpp: the class `Sha256`.
-- `buffer` holds the first `buffer_len_` bytes of the array `buffer_`; what is left behind them from
-- earlier is never read. Words are numbers below 2 ^ 32.
use sedsnet_cpp.Common.{
  ℕ, zero, suc, ◌+◌, ◌-◌, ◌*◌, ◌/◌, ◌%◌, ◌^◌, bit_and, bit_or, bit_xor, List, [], ◌∷◌, ◌++◌, none,
  some, length, take, drop, replicate, get_elem?, is_empty, ltb, leb, ◌==◌, if◌then◌else◌,
}
use Prim.Native.Nat.{min}

pub record Words : Type 0 where
  pub a : ℕ
  pub b : ℕ
  pub c : ℕ
  pub d : ℕ
  pub e : ℕ
  pub f : ℕ
  pub g : ℕ
  pub h : ℕ

pub record Sha256 : Type 0 where
  pub state : Words
  pub buffer : List ℕ
  pub len_bits : ℕ

abbrev pub add32 : ℕ → ℕ → ℕ
add32 x y = (x + y) % 2 ^ 32

-- `std::rotr(x, n)`
rotr : ℕ → ℕ → ℕ
rotr x n = bit_or (x / 2 ^ n) (x * 2 ^ (32 - n) % 2 ^ 32)

xor3 : ℕ → ℕ → ℕ → ℕ
xor3 x y z = bit_xor (bit_xor x y) z

abbrev round_constants : List ℕ
round_constants =
    0x428a2f98 ∷ 0x71374491 ∷ 0xb5c0fbcf ∷ 0xe9b5dba5 ∷ 0x3956c25b ∷ 0x59f111f1 ∷ 0x923f82a4
    ∷ 0xab1c5ed5 ∷ 0xd807aa98 ∷ 0x12835b01 ∷ 0x243185be ∷ 0x550c7dc3 ∷ 0x72be5d74 ∷ 0x80deb1fe
    ∷ 0x9bdc06a7 ∷ 0xc19bf174 ∷ 0xe49b69c1 ∷ 0xefbe4786 ∷ 0x0fc19dc6 ∷ 0x240ca1cc ∷ 0x2de92c6f
    ∷ 0x4a7484aa ∷ 0x5cb0a9dc ∷ 0x76f988da ∷ 0x983e5152 ∷ 0xa831c66d ∷ 0xb00327c8 ∷ 0xbf597fc7
    ∷ 0xc6e00bf3 ∷ 0xd5a79147 ∷ 0x06ca6351 ∷ 0x14292967 ∷ 0x27b70a85 ∷ 0x2e1b2138 ∷ 0x4d2c6dfc
    ∷ 0x53380d13 ∷ 0x650a7354 ∷ 0x766a0abb ∷ 0x81c2c92e ∷ 0x92722c85 ∷ 0xa2bfe8a1 ∷ 0xa81a664b
    ∷ 0xc24b8b70 ∷ 0xc76c51a3 ∷ 0xd192e819 ∷ 0xd6990624 ∷ 0xf40e3585 ∷ 0x106aa070 ∷ 0x19a4c116
    ∷ 0x1e376c08 ∷ 0x2748774c ∷ 0x34b0bcb5 ∷ 0x391c0cb3 ∷ 0x4ed8aa4a ∷ 0x5b9cca4f ∷ 0x682e6ff3
    ∷ 0x748f82ee ∷ 0x78a5636f ∷ 0x84c87814 ∷ 0x8cc70208 ∷ 0x90befffa ∷ 0xa4506ceb ∷ 0xbef9a3f7
    ∷ 0xc67178f2 ∷ []

word_at_index : List ℕ → ℕ → ℕ
word_at_index w i = elim (get_elem? w i) [ none ↦ 0 | some x ↦ x ]

-- Four bytes are a word, the highest first.
words_of : List ℕ → List ℕ
words_of (p ∷ q ∷ r ∷ t ∷ rest) =
    bit_or (bit_or (bit_or (p * 2 ^ 24) (q * 2 ^ 16)) (r * 2 ^ 8)) t ∷ words_of rest
words_of _ = []

-- `w[i]` from sixteen words on; `n` words are still to be made.
schedule : ℕ → ℕ → List ℕ → List ℕ
unfolding rotr xor3 word_at_index
schedule zero i w = w
schedule (suc n) i w =
    let w15 = word_at_index w (i - 15) in
    let w2 = word_at_index w (i - 2) in
    let s0 = xor3 (rotr w15 7) (rotr w15 18) (w15 / 2 ^ 3) in
    let s1 = xor3 (rotr w2 17) (rotr w2 19) (w2 / 2 ^ 10) in
    schedule n (i + 1)
      (w ++ (add32 (add32 (add32 (word_at_index w (i - 16)) s0) (word_at_index w (i - 7))) s1 ∷ []))

-- `~x` on a uint32_t is its distance from the largest one.
round : Words → ℕ → ℕ → Words
unfolding rotr xor3
round v k w =
    let s1 = xor3 (rotr v.e 6) (rotr v.e 11) (rotr v.e 25) in
    let ch = bit_xor (bit_and v.e v.f) (bit_and (0xFFFFFFFF - v.e) v.g) in
    let temp1 = add32 (add32 (add32 (add32 v.h s1) ch) k) w in
    let s0 = xor3 (rotr v.a 2) (rotr v.a 13) (rotr v.a 22) in
    let maj = xor3 (bit_and v.a v.b) (bit_and v.a v.c) (bit_and v.b v.c) in
    let temp2 = add32 s0 maj in
    record {
      a = add32 temp1 temp2;
      b = v.a;
      c = v.b;
      d = v.c;
      e = add32 v.d temp1;
      f = v.e;
      g = v.f;
      h = v.g;
    }

rounds : List ℕ → List ℕ → Words → Words
unfolding round
rounds [] ws v = v
rounds (k ∷ ks) [] v = v
rounds (k ∷ ks) (w ∷ ws) v = rounds ks ws (round v k w)

unfoldable pub compress : Words → List ℕ → Words
unfolding words_of schedule rounds
compress v block =
    let r = rounds round_constants (schedule 48 16 (words_of block)) v in
    record {
      a = add32 v.a r.a;
      b = add32 v.b r.b;
      c = add32 v.c r.c;
      d = add32 v.d r.d;
      e = add32 v.e r.e;
      f = add32 v.f r.f;
      g = add32 v.g r.g;
      h = add32 v.h r.h;
    }

-- The first step of `update`: the buffer is filled up, and worked in once it is full.
unfoldable pub fill_buffer : Sha256 → List ℕ → Sha256 × List ℕ
fill_buffer s input =
    let count = min (64 - length s.buffer) (length input) in
    let filled = s.buffer ++ take count input in
    if is_empty s.buffer then (s, input) else (
      if length filled == 64
          then record s { state = compress s.state filled; buffer = [] }
          else record s { buffer = filled },
      drop count input,
    )

-- `while (input.size() >= 64u)`: each round takes 64 bytes, so their number is enough for fuel.
unfoldable pub whole_blocks : ℕ → Words → List ℕ → Words × List ℕ
whole_blocks zero v input = (v, input)
whole_blocks (suc fuel) v input =
    let rest = whole_blocks fuel (compress v (take 64 input)) (drop 64 input) in
    if leb 64 (length input) then rest else (v, input)

-- What is left is kept, in place of an empty buffer.
unfoldable pub keep_rest : Sha256 → Words × List ℕ → Sha256
keep_rest s (v, input) =
    if is_empty input then record s { state = v } else record s { state = v; buffer = input }

unfoldable pub work_in : Sha256 × List ℕ → Sha256
unfolding whole_blocks keep_rest
work_in (s, rest) = keep_rest s (whole_blocks (length rest) s.state rest)

unfoldable pub update : Sha256 → List ℕ → Sha256
unfolding fill_buffer work_in
update s input =
    work_in (fill_buffer (record s { len_bits = (s.len_bits + length input * 8) % 2 ^ 64 }) input)

-- The bytes of a number, the highest first.
unfoldable pub big_endian : ℕ → ℕ → List ℕ
big_endian zero v = []
big_endian (suc n) v = v / 2 ^ (8 * n) % 256 ∷ big_endian n v

pad_zeros : ℕ → List ℕ → List ℕ
pad_zeros n bytes = bytes ++ replicate (n - length bytes) 0

unfoldable pub finalize : Sha256 → List ℕ
unfolding pad_zeros big_endian
finalize s =
    let marked = s.buffer ++ (0x80 ∷ []) in
    let long = ltb 56 (length marked) in
    let v = if long then compress s.state (pad_zeros 64 marked) else s.state in
    let left = if long then [] else marked in
    let out = compress v (pad_zeros 56 left ++ big_endian 8 s.len_bits) in
    big_endian 4 out.a
    ++ (big_endian 4 out.b
        ++ (big_endian 4 out.c
            ++ (big_endian 4 out.d
                ++ (big_endian 4 out.e
                    ++ (big_endian 4 out.f ++ (big_endian 4 out.g ++ big_endian 4 out.h))))))

abbrev pub new_hash : Sha256
new_hash = record {
  state = record {
    a = 0x6a09e667;
    b = 0xbb67ae85;
    c = 0x3c6ef372;
    d = 0xa54ff53a;
    e = 0x510e527f;
    f = 0x9b05688c;
    g = 0x1f83d9ab;
    h = 0x5be0cd19;
  };
  buffer = [];
  len_bits = 0;
}

unfoldable pub digest : List ℕ → List ℕ
unfolding update finalize
digest input = finalize (update new_hash input)
