-- ===== src/Wire/Frame/Seal.antt =====
-- The CRC that `seal` appends is the one that the readers compute.
use sedsnet_cpp.Common.{
  ℕ, ◌+◌, ◌-◌, ◌^◌, ◌<◌, true, some, List, [], length, drop, length-append, take_front, drop_front,
  ==_refl, ◌≡◌, arith,
}
use sedsnet_cpp.Common.Words.{append_le, read_le, read_le-append_le, length-append_le}
use sedsnet_cpp.Wire.Checksum.{crc32_bytes, crc32_bytes-lt}
use sedsnet_cpp.Wire.Frame.{frame_body, crc_holds, seal, crc_bytes}
use mathlib.Core.List.{append-nil}

length-seal : (out : List ℕ) → length (seal out) - crc_bytes ≡ length out
unfolding seal
length-seal out =
    omega (
      arith,
      length-append out (append_le 4 (crc32_bytes out)),
      length-append_le 4 (crc32_bytes out),
    )

pub length-seal_lem : (out : List ℕ) → length (seal out) ≡ length out + 4
unfolding seal
length-seal_lem out =
    omega (
      arith,
      length-append out (append_le 4 (crc32_bytes out)),
      length-append_le 4 (crc32_bytes out),
    )

pub frame_body-seal : (out : List ℕ) → frame_body (seal out) ≡ out
unfolding frame_body
frame_body-seal out =
    rw (length-seal out) (unfold seal in take_front out (append_le 4 (crc32_bytes out)))

crc_of_seal :
    (out : List ℕ) → drop (length (seal out) - crc_bytes) (seal out) ≡ append_le 4 (crc32_bytes out)
crc_of_seal out =
    rw (length-seal out) (unfold seal in drop_front out (append_le 4 (crc32_bytes out)))

read_crc : (crc : ℕ) → crc < 2 ^ 32 → read_le 4 (append_le 4 crc) ≡ some (crc, [])
read_crc crc h = rw append-nil at (read_le-append_le 4 crc [] h)

pub crc_holds-seal : (out : List ℕ) → crc_holds (seal out) ≡ true
unfolding crc_holds
crc_holds-seal out =
    rw (frame_body-seal out, crc_of_seal out, read_crc (crc32_bytes out) (crc32_bytes-lt out))
      (==_refl (crc32_bytes out))
