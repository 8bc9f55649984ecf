-- ===== src/Wire/Compress.antt =====
-- src/serialize.cpp: `maybe_compress` and `maybe_decompress`. The zstd library is a parameter.
use sedsnet_cpp.Common.{
  ℕ, Bool, true, false, ◌&&◌, Option, none, some, List, [], length, leb, ltb, ◌==◌, if◌then◌else◌,
  ◌≡◌, arith, inl, inr, Option-cases,
}

-- `available` is SEDS_HAS_ZSTD; `none` is a result for which `ZSTD_isError` holds.
-- `decompress data n` is what `ZSTD_decompress` writes into a buffer of `n` bytes.
pub record Zstd : Type 0 where
  pub available : Bool
  pub compress : List ℕ → Option (List ℕ)
  pub decompress : List ℕ → ℕ → Option (List ℕ)

-- zstd documents that a compressed block decompresses to what was compressed.
pub record IsLossless (z : Zstd) : Type 0 where
  pub back :
      (plain packed : List ℕ)
      → z.compress plain ≡ some packed
      → z.decompress packed (length plain) ≡ some plain

keep_smaller : List ℕ → Option (List ℕ) → List ℕ × Bool
keep_smaller plain none = (plain, false)
keep_smaller plain (some packed) =
    if ltb (length packed) (length plain) then (packed, true) else (plain, false)

-- The bytes, and whether they are compressed.
unfoldable pub maybe_compress : Zstd → ℕ → List ℕ → List ℕ × Bool
unfolding keep_smaller
maybe_compress z threshold plain =
    if z.available && leb threshold (length plain)
    then keep_smaller plain (z.compress plain)
    else (plain, false)

exactly : ℕ → Option (List ℕ) → List ℕ
exactly n none = []
exactly n (some plain) = if length plain == n then plain else []

unfoldable pub maybe_decompress : Zstd → List ℕ → ℕ → Bool → List ℕ
unfolding exactly
maybe_decompress z packed logical_len false = packed
maybe_decompress z packed logical_len true =
    if z.available then exactly logical_len (z.decompress packed logical_len) else []

-- With a lossless zstd, whatever `maybe_compress` chose, `maybe_decompress` gives the plain
-- bytes back.
pub maybe_decompress-maybe_compress :
    (z : Zstd) (threshold : ℕ) (plain : List ℕ)
    → IsLossless z
    → let (packed, compressed) = maybe_compress z threshold plain in
      maybe_decompress z packed (length plain) compressed ≡ plain
unfolding maybe_compress maybe_decompress
maybe_decompress-maybe_compress z threshold plain lossless =
    elim (Option-cases (z.compress plain)) [
      | inl e ↦ rw e (ground arith)
      | inr (packed, e) ↦ rw e (ground (arith, lossless.back plain packed e))
    ]
