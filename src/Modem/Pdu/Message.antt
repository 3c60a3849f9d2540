-- ===== src/Modem/Pdu/Message.antt =====
-- A text that is sent in PDUs is the text that a receiver puts together from them.
use sim_connectivity_monitor.Prelude.{
  ℕ, suc, ◌+◌, ◌<◌, ◌≡◌, refl, ap, ◌∙◌, Bool, true, false, Option, some, List, [], ◌∷◌, ◌++◌, Text,
  length, All, All-append, get_elem?, drop, if◌then◌else◌, arith,
}
use sim_connectivity_monitor.Prelude.Failing.{◌>>=◌}
use sim_connectivity_monitor.Modem.Pdu.Hex.{from_hex, hex_upper, to_bytes}
use sim_connectivity_monitor.Modem.Pdu.HexLaws.{to_bytes-All, from_hex-hex_upper}
use sim_connectivity_monitor.Modem.Pdu.UserData.{Header}
use sim_connectivity_monitor.Modem.Pdu.Decode.{Encoding, decode_user_data}
use sim_connectivity_monitor.Modem.Pdu.Encode.{Pdu, assemble}

zero_plus : (k : ℕ) → 0 + k ≡ k
zero_plus k = omega arith

suc_plus : (n k : ℕ) → suc n + k ≡ suc (n + k)
suc_plus n k = omega arith

module _ {ℓ} {A : Type ℓ} where
  get_elem?-append :
      (xs ys : List A) (k : ℕ) → get_elem? (xs ++ ys) (length xs + k) ≡ get_elem? ys k
  get_elem?-append [] ys k = ap (λ n. get_elem? ys n) (zero_plus k)
  get_elem?-append (x ∷ xs) ys k =
      ap (λ n. get_elem? (x ∷ xs ++ ys) n) (suc_plus (length xs) k) ∙ get_elem?-append xs ys k

  drop-append : (xs ys : List A) (k : ℕ) → drop (length xs + k) (xs ++ ys) ≡ drop k ys
  drop-append [] ys k = ap (λ n. drop n ys) (zero_plus k)
  drop-append (x ∷ xs) ys k =
      ap (λ n. drop n (x ∷ xs ++ ys)) (suc_plus (length xs) k) ∙ drop-append xs ys k

-- What a receiver reads in an SMS-SUBMIT PDU whose address has `n` octets: the network passes the
-- first octet's header bit, the coding and the user data on.
unfoldable pub read_submit : ℕ → Text → Option (Header × Text × Encoding)
unfolding from_hex decode_user_data
read_submit n pdu = do
  b ← from_hex pdu
  first ← get_elem? b 1
  dcs ← get_elem? b (suc (suc (suc (n + 1))))
  udl ← get_elem? b (suc (suc (suc (n + 2))))
  decode_user_data first dcs udl (drop (suc (suc (suc (n + 3)))) b)

module _ (da ud : List ℕ) (dcs udl : ℕ) (da_byte : All (λ x. x < 256) da)
    (ud_byte : All (λ x. x < 256) ud) (dcs_byte : dcs < 256) (udl_byte : udl < 256) where
  abbrev pub octet_one : Bool → ℕ
  octet_one udhi = if udhi then 0x41 else 0x01

  abbrev pub tpdu_of : Bool → List ℕ
  tpdu_of udhi = octet_one udhi ∷ 0 ∷ da ++ (0 ∷ dcs ∷ udl ∷ ud)

  middle-octets : to_bytes (0 ∷ dcs ∷ udl ∷ []) ≡ some (0 ∷ dcs ∷ udl ∷ [])
  middle-octets = to_bytes-All _ (omega arith, (dcs_byte, (udl_byte, tt)))

  pub assemble-octets :
      (udhi : Bool)
      → assemble da dcs udl ud udhi ≡ some (hex_upper (0 ∷ tpdu_of udhi), length (tpdu_of udhi))
  unfolding assemble hex_upper to_bytes
  assemble-octets true = rw middle-octets refl
  assemble-octets false = rw middle-octets refl

  tpdu-IsByte : (udhi : Bool) → All (λ x. x < 256) (0 ∷ tpdu_of udhi)
  tpdu-IsByte udhi = (
    omega arith,
    (
      ground arith,
      (
        omega arith,
        All-append (λ x. x < 256) da _ da_byte (omega arith, (dcs_byte, (udl_byte, ud_byte))),
      ),
    ),
  )

  -- The PDU that `_assemble` builds.
  abbrev pub assembled : Bool → Pdu
  assembled udhi = (hex_upper (0 ∷ tpdu_of udhi), length (tpdu_of udhi))

  -- The user data of an assembled PDU is decoded as it is.
  pub read_submit-assembled :
      (udhi : Bool)
      → read_submit (length da) (assembled udhi).0 ≡ decode_user_data (octet_one udhi) dcs udl ud
  unfolding read_submit
  read_submit-assembled udhi =
      rw
        (
          from_hex-hex_upper (0 ∷ tpdu_of udhi) (tpdu-IsByte udhi),
          get_elem?-append da (0 ∷ dcs ∷ udl ∷ ud) 1,
          get_elem?-append da (0 ∷ dcs ∷ udl ∷ ud) 2,
          drop-append da (0 ∷ dcs ∷ udl ∷ ud) 3,
        )
        refl
