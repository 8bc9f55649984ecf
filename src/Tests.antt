-- ===== src/Tests.antt =====
-- A concrete schema and packets, on which the results are applied.
mod Wire
mod Frames
mod Queues
mod Links
mod Routes
mod Times
mod Boards
mod Peers
mod Ciphers
mod Locals
use sedsnet_cpp.Common.{
  ℕ, Bool, true, false, Option, none, some, List, [], ◌∷◌, ◌++◌, Text, codes, replicate, ◌==◌, any,
  not, ◌||◌, ◌≡◌, refl, length, if◌then◌else◌, inl, inr, Bool-cases, ap, sym, ◌∙◌, arith,
}
use mathlib.Core.Bool.{true≢false}
use mathlib.Core.Option.{none-ne-some, some-injective}
use sedsnet_cpp.Schema.{
  Schema, TypeInfo, PacketData, no_type, unreliable, ordered, uint8, message_data,
}
use sedsnet_cpp.Wire.Compress.{Zstd, IsLossless}

-- Type 100 is ordered and type 101 is not reliable; the endpoints are 100 and 101.
abbrev pub user_type : Text → Bool → TypeInfo
user_type name in_order = record {
  name = some name;
  elem_size = 1;
  static_count = 0;
  dynamic = true;
  reliable_mode = if in_order then ordered else unreliable;
  data_type = uint8;
  message_class = message_data;
  link_local_only = false;
  endpoints = 100 ∷ 101 ∷ [];
}

abbrev pub schema : Schema
schema = record {
  type_info =
      replicate 100 no_type ++ (user_type (codes "GPS") true ∷ user_type (codes "IMU") false ∷ []);
  endpoint_names = replicate 100 none ++ (some (codes "SD") ∷ some (codes "RADIO") ∷ []);
}

abbrev pub gps : PacketData
gps = record {
  ty = 100;
  sender = codes "GPS_BOARD";
  endpoints = 100 ∷ 101 ∷ [];
  timestamp = 1700000000000;
  payload = 0 ∷ 0 ∷ 0 ∷ 0 ∷ 0 ∷ 0 ∷ 0 ∷ 0 ∷ 0 ∷ 0 ∷ [];
}

abbrev pub imu : PacketData
imu = record gps { ty = 101; payload = 1 ∷ 2 ∷ 3 ∷ [] }

-- A codec that packs a payload of zeros into one byte, and no other payload.
abbrev pack_zeros : List ℕ → Option (List ℕ)
pack_zeros plain = if any (λ byte. not (byte == 0)) plain then none else some (0 ∷ [])

abbrev pub zeros : Zstd
zeros = record {
  available = true;
  compress = pack_zeros;
  decompress = λ packed n. some (replicate n 0);
}

only_zeros :
    (plain : List ℕ)
    → any (λ byte. not (byte == 0)) plain ≡ false
    → replicate (length plain) 0 ≡ plain
only_zeros [] h = refl
only_zeros (byte ∷ plain) h = elim (Bool-cases (byte == 0)) [
  | inl e ↦
      let zero_byte : byte ≡ 0 = ground arith in
      let rest : any (λ byte. not (byte == 0)) plain ≡ false =
        sym (ap (λ b. not b || any (λ byte. not (byte == 0)) plain) e) ∙ h in
      rw zero_byte (ap (λ bytes. 0 ∷ bytes) (only_zeros plain rest))
  | inr e ↦ absurd (true≢false (sym (ap (λ b. not b || any (λ byte. not (byte == 0)) plain) e) ∙ h))
]

pub zeros-IsLossless : IsLossless zeros
zeros-IsLossless = record {
  back = λ plain packed e. elim (Bool-cases (any (λ byte. not (byte == 0)) plain)) [
    | inl some_set ↦ absurd (none-ne-some packed (rw some_set at e))
    | inr clear ↦ ap some (only_zeros plain clear)
  ];
}
