-- ===== src/Schema/LinkLocal.antt =====
-- src/core.cpp: which endpoints and packets must stay on link-local sides.
use sedsnet_cpp.Common.{ℕ, Bool, true, false, not, ◌&&◌, List, [], ◌∷◌, contains, if◌then◌else◌}
use sedsnet_cpp.Schema.{TypeInfo, Schema, PacketData, valid_endpoint}

-- The loop of `endpoint_link_local_only`; `saw_match` is its flag.
unfoldable pub only_link_local : List TypeInfo → ℕ → Bool → Bool
only_link_local [] ep saw_match = saw_match
only_link_local (info ∷ rest) ep saw_match =
    let skip = only_link_local rest ep saw_match in
    let next = only_link_local rest ep true in
    if not (contains info.endpoints ep)
    then skip
    else (if not info.link_local_only then false else next)

unfoldable pub endpoint_link_local_only : Schema → ℕ → Bool
unfolding valid_endpoint only_link_local
endpoint_link_local_only s ep =
    if not (valid_endpoint s ep) then false else only_link_local s.type_info ep false

unfoldable pub all_link_local : Schema → List ℕ → Bool
unfolding endpoint_link_local_only
all_link_local s [] = true
all_link_local s (ep ∷ eps) = endpoint_link_local_only s ep && all_link_local s eps

unfoldable pub packet_requires_link_local : Schema → PacketData → Bool
unfolding all_link_local
packet_requires_link_local s pkt = elim pkt.endpoints [
  | [] ↦ false
  | ep ∷ eps ↦ all_link_local s (ep ∷ eps)
]
