-- ===== src/Registry/HardCoded.antt =====
-- The hard-coded operators: DKGOperators of internal/storage/storage_utils.go. The eight private keys
-- are a parameter, as the hexadecimal texts that the source holds.
use rockx_dkg_cli.Registry.Address.{eth_address-encode}
use rockx_dkg_cli.Net.{Result, ok, panics}
use rockx_dkg_cli.Registry.Fetch.{OperatorLib, eth_address_from_hex, rsa_sk_from_hex, Table}
use rockx_dkg_cli.Prelude.{
  ℕ, ◌≡◌, refl, subst, Option, none, some, [], ◌∷◌, length, All, Bytes, codes, GoMap, lookup,
  bytes_key, nat_key, ◌≤◌, ap, inl, inr, ◌==◌, ==_iff, Bool-cases, arith,
}
use rockx_dkg_cli.Go.Hex
use rockx_dkg_cli.Go.Hex.{IsByte}

abbrev pub hard_coded_addresses : GoMap ℕ Bytes
hard_coded_addresses =
    (1, codes "2d618a45796936b1b7aeb87d01ee70e09254487d")
    ∷ (2, codes "82e7946421755a2dad6fd59cd9a84fc16e31e023")
    ∷ (3, codes "3d12489d7fb51e3dcb929c8e5f55849d45187ec7")
    ∷ (4, codes "cb5f8013fc5e53d8b71367624c52642aa48bddf8")
    ∷ (5, codes "ee7157db2c29506fa687b37d1f0fde84f9b92e2d")
    ∷ (6, codes "c3bc104f6a6127f3b082646cc2d4df2aa4a64753")
    ∷ (7, codes "c3ce317870d64226259d3baa99d01c909c4234c6")
    ∷ (8, codes "d9c90e813de9d113c71703f0ddda927266e55040")
    ∷ []

abbrev pub with_entry : ℕ → Result Bytes → Result Bytes → Result Table → Result Table
with_entry i (ok address) (ok key) (ok table) = ok ((i, (address, key)) ∷ table)
with_entry i _ _ _ = panics

-- The initialisation of the package's variable, which panics where a text is not what it should be.
unfoldable pub table_of : OperatorLib → (key_text : ℕ → Bytes) → GoMap ℕ Bytes → Result Table
table_of lib key_text [] = ok []
table_of lib key_text ((i, text) ∷ entries) =
    with_entry i (eth_address_from_hex text) (rsa_sk_from_hex lib (key_text i))
      (table_of lib key_text entries)

unfoldable pub dkg_operators : OperatorLib → (key_text : ℕ → Bytes) → Result Table
dkg_operators lib key_text = table_of lib key_text hard_coded_addresses

-- The text of a 20-byte address.
abbrev pub IsAddressText : Bytes → Type 0
IsAddressText text =
    (address : Bytes) × All IsByte address × (length address ≡ 20) × (Hex.encode address ≡ text)

address_of_text :
    (text : Bytes)
    → IsAddressText text
    → All IsByte (Hex.decode text).bytes
      × (length (Hex.decode text).bytes ≡ 20)
      × (Hex.encode (Hex.decode text).bytes ≡ text)
      × (eth_address_from_hex text ≡ ok (Hex.decode text).bytes)
address_of_text text (address, bytes, size, e) =
    subst
      (λ t.
        All IsByte (Hex.decode t).bytes
        × (length (Hex.decode t).bytes ≡ 20)
        × (Hex.encode (Hex.decode t).bytes ≡ t)
        × (eth_address_from_hex t ≡ ok (Hex.decode t).bytes))
      e
      (rw (Hex.decode-encode address bytes)
        (bytes, size, refl, eth_address-encode address bytes size))

module _ (lib : OperatorLib) (key_text key : ℕ → Bytes) where
  -- The entry of an address text.
  abbrev pub entry_of : ℕ → Option Bytes → Option (Bytes × Bytes)
  entry_of i none = none
  entry_of i (some text) = some ((Hex.decode text).bytes, key i)

  table_of-lookup :
      (entries : GoMap ℕ Bytes)
      → All (λ p. IsAddressText p.1 × (rsa_sk_from_hex lib (key_text p.0) ≡ ok (key p.0))) entries
      → (table : Table) × (table_of lib key_text entries ≡ ok table)
        × ((i : ℕ) → lookup i table ≡ entry_of i (lookup i entries))
  unfolding table_of lookup
  table_of-lookup [] h = ([], refl, λ i. refl)
  table_of-lookup ((j, text) ∷ entries) ((is_text, is_key), hs) =
      let (table, e, same) = table_of-lookup entries hs in
      (
        (j, ((Hex.decode text).bytes, key j)) ∷ table,
        rw ((address_of_text text is_text).3, is_key, e) refl,
        λ i. elim (Bool-cases (j == i)) [
          | inl e ↦ rw e (ap (λ n. some ((Hex.decode text).bytes, key n)) ((==_iff j i).0 e))
          | inr e ↦ rw e (same i)
        ],
      )

  entry :
      (i : ℕ) (text : Bytes)
      → length (Hex.decode text).bytes ≡ 20
      → Hex.encode (Hex.decode text).bytes ≡ text
      → rsa_sk_from_hex lib (key_text i) ≡ ok (key i)
      → IsAddressText text × (rsa_sk_from_hex lib (key_text i) ≡ ok (key i))
  entry i text size same h = (((Hex.decode text).bytes, Hex.decode-IsByte text, size, same), h)

  -- Where the eight keys' texts are texts of RSA keys, the program does not panic at its start, and then
  -- knows the operators that the list of addresses names and no other, each with its key and the bytes of
  -- its address.
  pub hard_coded_operators :
      ((i : ℕ) → 1 ≤ i → i ≤ 8 → rsa_sk_from_hex lib (key_text i) ≡ ok (key i))
      → (table : Table) × (dkg_operators lib key_text ≡ ok table)
        × ((i : ℕ) → lookup i table ≡ entry_of i (lookup i hard_coded_addresses))
  unfolding dkg_operators Hex.encode Hex.decode
  hard_coded_operators key_ok = table_of-lookup hard_coded_addresses (
    (entry _ _ refl refl (key_ok 1 (omega arith) (omega arith))),
    (
      (entry _ _ refl refl (key_ok 2 (omega arith) (omega arith))),
      (
        (entry _ _ refl refl (key_ok 3 (omega arith) (omega arith))),
        (
          (entry _ _ refl refl (key_ok 4 (omega arith) (omega arith))),
          (
            (entry _ _ refl refl (key_ok 5 (omega arith) (omega arith))),
            (
              (entry _ _ refl refl (key_ok 6 (omega arith) (omega arith))),
              (
                (entry _ _ refl refl (key_ok 7 (omega arith) (omega arith))),
                ((entry _ _ refl refl (key_ok 8 (omega arith) (omega arith))), tt),
              ),
            ),
          ),
        ),
      ),
    ),
  )
