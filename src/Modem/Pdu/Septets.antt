-- ===== src/Modem/Pdu/Septets.antt =====
-- src/sim_monitor/modem/pdu.py: seven-bit septets packed in octets, lowest bits first. `bits` holds
-- the bits that are not yet written and `nbits` their number.
use sim_connectivity_monitor.Prelude.{
  ℕ, zero, suc, ◌+◌, ◌-◌, ◌*◌, ◌/◌, ◌%◌, ◌^◌, List, [], ◌∷◌, ◌++◌, take, drop, leb, ◌==◌,
  if◌then◌else◌,
}
use Prim.Native.Nat.{bit_or}

-- `while nbits >= width`: what is appended, then `bits` and `nbits` after the loop. A round takes
-- `width` bits off, so `nbits` rounds are enough.
unfoldable pub drain : ℕ → ℕ → ℕ → ℕ → List ℕ × ℕ × ℕ
drain width zero bits nbits = ([], bits, nbits)
drain width (suc fuel) bits nbits =
    let (out, b, n) = drain width fuel (bits / 2 ^ width) (nbits - width) in
    if leb width nbits then (bits % 2 ^ width ∷ out, b, n) else ([], bits, nbits)

-- The loop over the septets, from `bits` and `nbits` on, and the last octet if bits are left.
unfoldable pub pack_loop : List ℕ → ℕ → ℕ → List ℕ
unfolding drain
pack_loop [] bits nbits = if nbits == 0 then [] else bits % 256 ∷ []
pack_loop (s ∷ septets) bits nbits =
    let (out, b, n) = drain 8 (nbits + 7) (bit_or bits (s * 2 ^ nbits)) (nbits + 7) in
    out ++ pack_loop septets b n

-- `_pack_gsm7`.
unfoldable pub pack_gsm7 : List ℕ → List ℕ
unfolding pack_loop
pack_gsm7 septets = pack_loop septets 0 0

-- `_pack_gsm7_with_offset`.
unfoldable pub pack_gsm7_with_offset : List ℕ → ℕ → List ℕ
unfolding pack_loop
pack_gsm7_with_offset septets fill_bits = pack_loop septets 0 fill_bits

-- The loop of `_unpack_gsm7` over the octets: the septets it appends.
unfoldable pub unpack_loop : List ℕ → ℕ → ℕ → List ℕ
unfolding drain
unpack_loop [] bits nbits = []
unpack_loop (byte ∷ data_rest) bits nbits =
    let (out, b, n) = drain 7 (nbits + 8) (bit_or bits (byte * 2 ^ nbits)) (nbits + 8) in
    out ++ unpack_loop data_rest b n

-- The septets that `_unpack_gsm7` maps to characters.
unfoldable pub unpack_septets : List ℕ → ℕ → ℕ → List ℕ
unfolding unpack_loop
unpack_septets octets septet_count skip_bits =
    take septet_count (drop (skip_bits / 7) (unpack_loop octets 0 0))
