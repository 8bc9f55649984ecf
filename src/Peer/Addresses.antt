-- ===== src/Peer/Addresses.antt =====
-- src/upstream_api_compat.cpp: the address of a router, the names and addresses that it knows, and
-- the handlers of its ports. Arguments that are pointers are taken to be there.
use sedsnet_cpp.Common.{
  ℕ, true, ◌%◌, ◌^◌, Option, none, some, List, [], ◌∷◌, ◌++◌, Text, text_eq, ltb, ◌==◌,
  if◌then◌else◌,
}
use sedsnet_cpp.Common.Int.{ℤ}
use sedsnet_cpp.Common.Assoc.{find, put, erase}
use sedsnet_cpp.Common.Keyed.{lookup, store}
use sedsnet_cpp.Wire.Checksum.{sender_hash}
use sedsnet_cpp.Reliable.Egress.{result_ok}
use sedsnet_cpp.Router.{Router, PortHandler, result_bad_arg}

unfoldable pub address_for_sender : Text → ℕ
address_for_sender sender = let raw = sender_hash sender % 2 ^ 32 in if raw == 0 then 1 else raw

unfoldable pub set_address : ℕ → Router → Router
set_address address r = record r {
  p2p_address = address;
  p2p_address_book = store text_eq r.p2p_address_book r.link.sender address;
  p2p_host_by_address = put r.p2p_host_by_address address r.link.sender;
}

-- `local_p2p_address`: the address is made when it is first asked for.
unfoldable pub with_address : Router → Router
unfolding address_for_sender set_address
with_address r = if r.p2p_address == 0 then set_address (address_for_sender r.link.sender) r else r

unfoldable pub configure_address : Router → ℕ → ℕ → Router × ℤ
unfolding address_for_sender set_address
configure_address r address_mode requested_address =
    if ltb 2 address_mode then (r, result_bad_arg) else (
      set_address
          (if address_mode == 0
            then address_for_sender r.link.sender
            else (if requested_address == 0 then 1 else requested_address))
          r,
      result_ok,
    )

with_name : Text → Option ℕ → Option (Text × ℕ)
with_name hostname none = none
with_name hostname (some address) = some (hostname, address)

unfoldable pub resolve_p2p_host : Router → Text → Router × Option (Text × ℕ)
unfolding with_address with_name
resolve_p2p_host r hostname =
    if text_eq hostname r.link.sender
    then (with_address r, some (r.link.sender, (with_address r).p2p_address))
    else (r, with_name hostname (lookup text_eq r.p2p_address_book hostname))

with_address_of : ℕ → Option Text → Option (Text × ℕ)
with_address_of address none = none
with_address_of address (some hostname) = some (hostname, address)

unfoldable pub resolve_p2p_address : Router → ℕ → Router × Option (Text × ℕ)
unfolding with_address with_address_of
resolve_p2p_address r address =
    let r' = with_address r in
    if address == r'.p2p_address
    then (r', some (r.link.sender, address))
    else (r', with_address_of address (find r'.p2p_host_by_address address))

unfoldable current_address : Router → Router × ℕ
unfolding with_address
current_address r = (with_address r, (with_address r).p2p_address)

-- The result, and the address where it is known.
found_address : Router × Option (Text × ℕ) → Router × ℤ × Option ℕ
found_address (r, none) = (r, result_bad_arg, none)
found_address (r, some peer) = (r, result_ok, some peer.1)

unfoldable resolve_hostname_address : Router → Text → Router × ℤ × Option ℕ
unfolding resolve_p2p_host found_address
resolve_hostname_address r hostname = found_address (resolve_p2p_host r hostname)

-- The handlers of a port; `map[port]` makes an empty list where there is none.
abbrev pub handlers_of : Option (List PortHandler) → List PortHandler
handlers_of none = []
handlers_of (some handlers) = handlers

unfoldable pub append_handler : List (ℕ × List PortHandler) → ℕ → ℕ → List (ℕ × List PortHandler)
append_handler table port user =
    put table port (handlers_of (find table port) ++ (record { cb = true; user = user } ∷ []))

unfoldable pub bind_p2p_port : Router → ℕ → ℕ → Router × ℤ
unfolding append_handler
bind_p2p_port r port user =
    if port == 0
    then (r, result_bad_arg)
    else (record r { p2p_handlers = append_handler r.p2p_handlers port user }, result_ok)

unfoldable pub clear_p2p_port : Router → ℕ → Router
clear_p2p_port r port = record r { p2p_handlers = erase r.p2p_handlers port }

unfoldable pub bind_p2p_stream_port : Router → ℕ → ℕ → Router × ℤ
unfolding append_handler
bind_p2p_stream_port r port user = if port == 0 then (r, result_bad_arg) else (
  record r { p2p_stream_handlers = append_handler r.p2p_stream_handlers port user },
  result_ok,
)

unfoldable pub clear_p2p_stream_port : Router → ℕ → Router
clear_p2p_stream_port r port = record r { p2p_stream_handlers = erase r.p2p_stream_handlers port }
