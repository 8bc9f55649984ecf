-- ===== src/Schema/Payload.antt =====
-- src/core.cpp: `validate_payload`, the size check of a payload against its type.
use sedsnet_cpp.Common.{ℕ, ◌*◌, ◌%◌, ◌^◌, Bool, false, not, ◌&&◌, if◌then◌else◌, ◌==◌, leb}
use sedsnet_cpp.Schema.{Schema, ElementDataType, string, binary, no_data, valid_type, type_at}

-- The two limits are fields of `runtime_tuning_config()`.
unfoldable pub validate_dynamic : ElementDataType → ℕ → ℕ → ℕ → ℕ → Bool
validate_dynamic string elem_size string_length hex_length bytes = leb bytes string_length
validate_dynamic binary elem_size string_length hex_length bytes = leb bytes hex_length
validate_dynamic no_data elem_size string_length hex_length bytes = bytes == 0
validate_dynamic _ elem_size string_length hex_length bytes =
    not (elem_size == 0) && bytes % elem_size == 0

-- `elem_size * static_count` is a `size_t` product.
unfoldable pub validate_payload : Schema → ℕ → ℕ → ℕ → ℕ → Bool
unfolding valid_type type_at validate_dynamic
validate_payload s string_length hex_length ty bytes =
    let info = type_at s ty in
    if not (valid_type s ty)
    then false
    else (if not info.dynamic
        then bytes == info.elem_size * info.static_count % 2 ^ 64
        else validate_dynamic info.data_type info.elem_size string_length hex_length bytes)
