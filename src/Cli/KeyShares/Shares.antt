-- ===== src/Cli/KeyShares/Shares.antt =====
-- The text of the shares in a keyshares file.
use rockx_dkg_cli.Go.Hex.{IsByte}
use rockx_dkg_cli.Cli.KeyShares.{
  zero_x, decode_encrypted_shares, output_at, shares_to_bytes, public_keys, join, encrypted_keys,
  to_array_byte_slices,
}
use rockx_dkg_cli.Cli.Results.{SignedText}
use rockx_dkg_cli.Prelude.{ℕ, ◌≡◌, refl, ap, some, List, [], ◌∷◌, ◌++◌, All, All-imp, Bytes, GoMap}
use rockx_dkg_cli.Go.Hex
use rockx_dkg_cli.Go.Base64

-- The output of an operator holds the hexadecimal texts of a public share and an encrypted share.
abbrev pub Holds : GoMap ℕ SignedText → (pk share : ℕ → Bytes) → ℕ → Type 0
Holds m pk share i =
    ((output_at m i).share_pub_key ≡ Hex.encode (pk i))
    × ((output_at m i).encrypted_share ≡ Hex.encode (share i))
    × All IsByte (pk i)
    × All IsByte (share i)

-- The bytes of a function on the identifiers, one after the other.
abbrev pub gather : (ℕ → Bytes) → List ℕ → Bytes
gather f [] = []
gather f (i ∷ ids) = f i ++ gather f ids

abbrev tagged : (ℕ → Bytes) → List ℕ → List Bytes
tagged f [] = []
tagged f (i ∷ ids) = zero_x (Hex.encode (f i)) ∷ tagged f ids

module _ (m : GoMap ℕ SignedText) (pk share : ℕ → Bytes) where
  public_keys-tagged :
      (ids : List ℕ) → All (Holds m pk share) ids → public_keys m ids ≡ tagged pk ids
  unfolding public_keys
  public_keys-tagged [] h = refl
  public_keys-tagged (i ∷ ids) (hi, hs) =
      rw hi.0 (ap (λ z. zero_x (Hex.encode (pk i)) ∷ z) (public_keys-tagged ids hs))

  decode_encrypted_shares-tagged :
      (ids : List ℕ)
      → All (Holds m pk share) ids
      → decode_encrypted_shares (encrypted_keys m ids) ≡ some (tagged share ids)
  unfolding decode_encrypted_shares encrypted_keys
  decode_encrypted_shares-tagged [] h = refl
  decode_encrypted_shares-tagged (i ∷ ids) ((_, enc, _, bytes), hs) =
      rw (enc, Hex.decode-encode (share i) bytes)
        (rw
          (
            decode_encrypted_shares,
            Base64.decode-encode (share i) bytes,
            decode_encrypted_shares-tagged ids hs,
          )
          refl)

  join-tagged :
      (f : ℕ → Bytes) (ids : List ℕ)
      → All (λ i. All IsByte (f i)) ids
      → join (to_array_byte_slices (tagged f ids)) ≡ gather f ids
  unfolding join to_array_byte_slices zero_x
  join-tagged f [] h = refl
  join-tagged f (i ∷ ids) (hi, hs) =
      rw (Hex.decode-encode (f i) hi) (ap (λ z. f i ++ z) (join-tagged f ids hs))

  -- Where the output of each listed operator holds the hexadecimal texts of a public share and of an
  -- encrypted share, the text of the shares is `0x`, the prefix, and the hexadecimal text of all the
  -- public shares followed by all the encrypted shares, both in the order of the identifiers.
  pub shares_to_bytes_lem :
      (ids : List ℕ) (prefix : Bytes)
      → All (Holds m pk share) ids
      → shares_to_bytes (public_keys m ids) (encrypted_keys m ids) prefix
        ≡ b'0' ∷ b'x' ∷ (prefix ++ Hex.encode (gather pk ids ++ gather share ids))
  unfolding shares_to_bytes zero_x
  shares_to_bytes_lem ids prefix h =
      rw (public_keys-tagged ids h, decode_encrypted_shares-tagged ids h)
        (rw
          (
            join-tagged pk ids (All-imp _ _ ids (λ i p. p.2) h),
            join-tagged share ids (All-imp _ _ ids (λ i p. p.3) h),
          )
          refl)
