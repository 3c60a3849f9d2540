-- ===== src/Modem/Pdu/Encode.antt =====
-- src/sim_monitor/modem/pdu.py: SMS-SUBMIT PDUs. `none` stands for a ValueError.
use sim_connectivity_monitor.Prelude.{
  ℕ, zero, suc, ◌+◌, ◌*◌, ◌/◌, Bool, true, false, Option, none, some, List, [], ◌∷◌, ◌++◌, Text,
  codes, length, take, drop, leb, if◌then◌else◌,
}
use sim_connectivity_monitor.Prelude.Failing.{◌>>=◌}
use sim_connectivity_monitor.Modem.Pdu.Hex.{to_bytes, hex_upper}
use sim_connectivity_monitor.Modem.Pdu.Alphabet.{text_to_septets}
use sim_connectivity_monitor.Modem.Pdu.Septets.{pack_gsm7, pack_gsm7_with_offset}
use sim_connectivity_monitor.Modem.Pdu.Address.{encode_address}
use sim_connectivity_monitor.Modem.Pdu.Utf16.{utf16_encode}
use sim_connectivity_monitor.Modem.Pdu.UserData.{concat_udh}

-- A PDU in hexadecimal, and the number of its octets after the SMSC field.
abbrev pub Pdu : Type 0
Pdu = Text × ℕ

-- `_assemble`.
unfoldable pub assemble : List ℕ → ℕ → ℕ → List ℕ → Bool → Option Pdu
assemble da dcs udl ud udhi = do
  front ← to_bytes ((if udhi then 0x41 else 0x01) ∷ 0x00 ∷ [])
  middle ← to_bytes (0x00 ∷ dcs ∷ udl ∷ [])
  let tpdu = front ++ (da ++ (middle ++ ud))
  some (codes "00" ++ hex_upper tpdu, length tpdu)

-- `[xs[i:i + n] for i in range(0, len(xs), n)]`, with at most `fuel` slices; no slice is empty, so
-- the length of the list is enough.
unfoldable pub chunk_loop {ℓ} : {A : Type ℓ} → ℕ → ℕ → List A → List (List A)
chunk_loop zero n xs = []
chunk_loop (suc fuel) n [] = []
chunk_loop (suc fuel) n (x ∷ xs) = take n (x ∷ xs) ∷ chunk_loop fuel n (drop n (x ∷ xs))

unfoldable pub chunks {ℓ} : {A : Type ℓ} → ℕ → List A → List (List A)
unfolding chunk_loop
chunks n xs = chunk_loop (length xs) n xs

-- The user data of one part in septets, with its length in septets.
unfoldable pub gsm7_user_data : ℕ → ℕ → ℕ → List ℕ → Option (List ℕ × ℕ)
gsm7_user_data ref total seq chunk = do
  udh ← concat_udh ref total seq
  some (udh ++ pack_gsm7_with_offset chunk 1, (length udh * 8 + 1) / 7 + length chunk)

-- One round of the loop of `_encode_parts_gsm7`.
unfoldable pub gsm7_part : List ℕ → ℕ → ℕ → ℕ → List ℕ → Option Pdu
gsm7_part da ref total seq chunk = do
  udata ← gsm7_user_data ref total seq chunk
  assemble da 0x00 udata.1 udata.0 true

-- The loop of `_encode_parts_gsm7` from the part `seq` on.
unfoldable pub gsm7_parts : List ℕ → ℕ → ℕ → ℕ → List (List ℕ) → Option (List Pdu)
gsm7_parts da ref total seq [] = some []
gsm7_parts da ref total seq (chunk ∷ rest) = do
  part ← gsm7_part da ref total seq chunk
  parts ← gsm7_parts da ref total (suc seq) rest
  some (part ∷ parts)

-- `_encode_parts_gsm7`.
unfoldable pub encode_parts_gsm7 : List ℕ → List ℕ → ℕ → Option (List Pdu)
encode_parts_gsm7 da septets ref =
    let single = do
      part ← assemble da 0x00 (length septets) (pack_gsm7 septets) false
      some (part ∷ [])
    in let split = chunks 153 septets in
      let several = gsm7_parts da ref (length split) 1 split in
      if leb (length septets) 160 then single else several

-- One round of the loop of `_encode_parts_ucs2`.
unfoldable pub ucs2_part : List ℕ → ℕ → ℕ → ℕ → List ℕ → Option Pdu
ucs2_part da ref total seq chunk = do
  udh ← concat_udh ref total seq
  assemble da 0x08 (length (udh ++ chunk)) (udh ++ chunk) true

-- The loop of `_encode_parts_ucs2` from the part `seq` on.
unfoldable pub ucs2_parts : List ℕ → ℕ → ℕ → ℕ → List (List ℕ) → Option (List Pdu)
ucs2_parts da ref total seq [] = some []
ucs2_parts da ref total seq (chunk ∷ rest) = do
  part ← ucs2_part da ref total seq chunk
  parts ← ucs2_parts da ref total (suc seq) rest
  some (part ∷ parts)

-- `_encode_parts_ucs2`.
unfoldable pub encode_parts_ucs2 : List ℕ → Text → ℕ → Option (List Pdu)
encode_parts_ucs2 da text ref = do
  raw ← utf16_encode text
  let single = do part ← assemble da 0x08 (length raw) raw false; some (part ∷ [])
  let split = chunks 134 raw
  let several = ucs2_parts da ref (length split) 1 split
  if leb (length raw) 140 then single else several

-- `encode_submit`.
unfoldable pub encode_submit : Text → Text → ℕ → Option (List Pdu)
encode_submit number text ref = do
  da ← encode_address number
  elim (text_to_septets text) [
    | some septets ↦ encode_parts_gsm7 da septets ref
    | none ↦ encode_parts_ucs2 da text ref
  ]
