-- ===== src/Registry/Address.antt =====
-- Ethereum addresses and their hexadecimal texts: ethAddressFromHex of internal/storage/storage_utils.go.
use rockx_dkg_cli.Net.{ok}
use rockx_dkg_cli.Registry.Fetch.{eth_address_from_hex, copy, zeros}
use rockx_dkg_cli.Prelude.{
  ℕ, zero, suc, ◌≡◌, refl, ap, inl, inr, [], ◌∷◌, arith, Bool-cases, length, All, Bytes,
}
use rockx_dkg_cli.Go.Hex

copy-all :
    (destination source : Bytes)
    → length destination ≡ length source
    → copy destination source ≡ source
unfolding copy
copy-all [] [] h = refl
copy-all [] (b ∷ bs) h = absurd (omega (arith, h))
copy-all (z ∷ zs) [] h = absurd (omega (arith, h))
copy-all (z ∷ zs) (b ∷ bs) h = ap (λ s. b ∷ s) (copy-all zs bs (omega (arith, h)))

length-copy : (destination source : Bytes) → length (copy destination source) ≡ length destination
unfolding copy
length-copy [] source = refl
length-copy (z ∷ zs) [] = refl
length-copy (z ∷ zs) (b ∷ bs) = omega (arith, length-copy zs bs)

length-zeros : (n : ℕ) → length (zeros n) ≡ n
unfolding zeros
length-zeros zero = refl
length-zeros (suc n) = omega (arith, length-zeros n)

-- An address is read back from its text.
pub eth_address-encode :
    (address : Bytes)
    → All Hex.IsByte address
    → length address ≡ 20
    → eth_address_from_hex (Hex.encode address) ≡ ok address
unfolding eth_address_from_hex
eth_address-encode address bytes h =
    rw (Hex.decode-encode address bytes)
      (ap ok (copy-all (zeros 20) address (omega (arith, h, length-zeros 20))))

-- Whatever the text, an address that comes of it has 20 bytes.
pub eth_address-length :
    (text address : Bytes) → eth_address_from_hex text ≡ ok address → length address ≡ 20
unfolding eth_address_from_hex
eth_address-length text address h = elim (Bool-cases (Hex.decode text).valid) [
  | inr bad ↦ ground (arith, h, bad)
  | inl good ↦
      let e : copy (zeros 20) (Hex.decode text).bytes ≡ address = ground (arith, h, good) in
      omega (arith, ap length e, length-copy (zeros 20) (Hex.decode text).bytes, length-zeros 20)
]
