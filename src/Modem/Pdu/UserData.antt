-- ===== src/Modem/Pdu/UserData.antt =====
-- src/sim_monitor/modem/pdu.py: the user-data header with its information elements.
use sim_connectivity_monitor.Prelude.{
  ℕ, zero, suc, ◌+◌, ◌*◌, ◌%◌, ◌&&◌, Option, none, some, List, [], ◌∷◌, ◌++◌, take, drop, get_elem?,
  ltb, ◌==◌, if◌then◌else◌,
}
use sim_connectivity_monitor.Prelude.Failing.{◌>>=◌}
use sim_connectivity_monitor.Modem.Pdu.Hex.{to_bytes}

-- `Concat`, field by field.
pub record Concat : Type 0 where
  pub ref : ℕ
  pub total : ℕ
  pub seq : ℕ

pub record Header : Type 0 where
  pub size : ℕ
  pub concat : Option Concat
  pub ieis : List ℕ

-- The concatenation that an information element brings, or the one from before. Its value `val` is
-- cut off at the end of the data, and an index past it raises an IndexError: `none`.
unfoldable pub element_concat : ℕ → ℕ → List ℕ → Option Concat → Option (Option Concat)
element_concat iei ielen val concat =
    let short = do
      ref ← get_elem? val 0
      total ← get_elem? val 1
      seq ← get_elem? val 2
      some (some (record { ref = ref; total = total; seq = seq }))
    in let wide = do
      high ← get_elem? val 0
      low ← get_elem? val 1
      total ← get_elem? val 2
      seq ← get_elem? val 3
      some (some (record { ref = high * 256 + low; total = total; seq = seq }))
      in if iei == 0 && ielen == 3
        then short
        else if iei == 8 && ielen == 4
        then wide
        else some concat

-- An information element: its identifier, its length, and the concatenation known after it.
pub record Element : Type 0 where
  pub iei : ℕ
  pub ielen : ℕ
  pub concat : Option Concat

-- The element at `i`, or `none` where an index is past the data.
unfoldable pub element_at : List ℕ → ℕ → Option Concat → Option Element
unfolding element_concat
element_at ud i concat = do
  iei ← get_elem? ud i
  ielen ← get_elem? ud (i + 1)
  found ← element_concat iei ielen (take ielen (drop (i + 2) ud)) concat
  some (record { iei = iei; ielen = ielen; concat = found })

-- The loop of `_parse_udh_concat`: `i`, and what was found before. `some none` is the IndexError of
-- the source; `none` is no answer of the source, but that the rounds the model allows are used up.
unfoldable pub udh_loop :
    ℕ → List ℕ → ℕ → ℕ → Option Concat → List ℕ → Option (Option (Option Concat × List ℕ))
unfolding element_at
udh_loop zero ud i end concat ieis = none
udh_loop (suc fuel) ud i end concat ieis =
    if ltb (i + 1) end
    then elim (element_at ud i concat) [
      | none ↦ some none
      | some e ↦ udh_loop fuel ud (i + 2 + e.ielen) end e.concat (ieis ++ (e.iei ∷ []))
    ]
    else some (some (concat, ieis))

-- `_parse_udh_concat`. A round moves `i` on by 2 at least, so that one more round than the header has
-- octets is enough.
unfoldable pub parse_udh_concat : List ℕ → Option Header
unfolding udh_loop
parse_udh_concat [] = none
parse_udh_concat (udhl ∷ rest) = do
  answer ← udh_loop (suc udhl) (udhl ∷ rest) 1 (1 + udhl) none []
  found ← answer
  some (record { size = 1 + udhl; concat = found.0; ieis = found.1 })

-- `_concat_udh`; `bytes` refuses more than 255 parts.
unfoldable pub concat_udh : ℕ → ℕ → ℕ → Option (List ℕ)
concat_udh ref total seq = to_bytes (0x05 ∷ 0x00 ∷ 0x03 ∷ ref % 256 ∷ total ∷ seq ∷ [])
