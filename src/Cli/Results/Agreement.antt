-- ===== src/Cli/Results/Agreement.antt =====
-- When the operators' results agree.
use rockx_dkg_cli.Net.{ok, Result-cases, panics}
use rockx_dkg_cli.Cli.Results.{
  agree, agree_with, agreed, get_validator_pk, get_signature_from_key_sign, DkgResult, err,
  signature_text, signature_texts, vk_texts,
}
use rockx_dkg_cli.Prelude.{
  ◌≡◌, inl, inr, true, Option, some, arith, Bool-cases, Bytes, bytes_eq, bytes_eq_iff, refl, sym,
  none, List, [], ◌∷◌, All, subst, ◌≢◌, ◌↔◌,
}
use rockx_dkg_cli.Go.Hex

-- A text is hexadecimal, and says the bytes.
abbrev pub Says : Bytes → Bytes → Type 0
Says v text = ((Hex.decode text).valid ≡ true) × ((Hex.decode text).bytes ≡ v)

agree-some :
    (text w : Bytes) (o : Option Bytes) → agree text (some w) ≡ ok o → (o ≡ some w) × Says w text
unfolding agree agree_with
agree-some text w o h = elim (Bool-cases (Hex.decode text).valid) [
  | inr bad ↦ ground (arith, h, bad)
  | inl good ↦ elim (Bool-cases (bytes_eq w (Hex.decode text).bytes)) [
    | inr bad ↦ ground (arith, h, bad, good)
    | inl same ↦ ground (arith, h, same, good, (bytes_eq_iff w (Hex.decode text).bytes).0 same)
  ]
]

agree-Says : (text v : Bytes) → Says v text → agree text none ≡ ok (some v)
unfolding agree agree_with
agree-Says text v (valid, value) = ground (arith, valid, value)

agree_again : (text v : Bytes) → Says v text → agree text (some v) ≡ ok (some v)
unfolding agree agree_with
agree_again text v (valid, value) =
    ground (arith, valid, value, (bytes_eq_iff v (Hex.decode text).bytes).1 (sym value))

agreed-cons :
    (text : Bytes) (before : Option Bytes) (texts : List Bytes) (o : Option Bytes)
    → agreed before (text ∷ texts) ≡ ok o
    → (n : Option Bytes) × (agree text before ≡ ok n) × (agreed n texts ≡ ok o)
unfolding agreed
agreed-cons text before texts o h = elim (Result-cases (agree text before)) [
  | inl (n, p) ↦ (
    n,
    p,
    subst (λ z. elim z [ ok next ↦ agreed next texts | err e ↦ err e | panics ↦ panics ] ≡ ok o) p
        h,
  )
  | inr (inl (e, p)) ↦ ground (arith, h, p)
  | inr (inr p) ↦ ground (arith, h, p)
]

agreed-some :
    (w : Bytes) (texts : List Bytes) (o : Option Bytes)
    → agreed (some w) texts ≡ ok o
    → (o ≡ some w) × All (Says w) texts
unfolding agreed
agreed-some w [] o h = (ground (arith, h), tt)
agreed-some w (text ∷ texts) o h =
    let (n, first, others) = agreed-cons text (some w) texts o h in
    let (same, says) = agree-some text w n first in
    let (last, all) = agreed-some w texts o (subst (λ z. agreed z texts ≡ ok o) same others) in
    (last, (says, all))

agreed_same :
    (v : Bytes) (texts : List Bytes) → All (Says v) texts → agreed (some v) texts ≡ ok (some v)
unfolding agreed
agreed_same v [] h = refl
agreed_same v (text ∷ texts) (ht, hs) = rw (agreed, agree_again text v ht) (agreed_same v texts hs)

agree-none :
    (text : Bytes) (o : Option Bytes)
    → agree text none ≡ ok o
    → (v : Bytes) × (o ≡ some v) × Says v text
unfolding agree agree_with
agree-none text o h = elim (Bool-cases (Hex.decode text).valid) [
  | inr bad ↦ ground (arith, h, bad)
  | inl good ↦ ((Hex.decode text).bytes, ground (arith, h, good), (good, refl))
]

pub agreed_filled :
    (text : Bytes) (texts : List Bytes) (o : Option Bytes)
    → agreed none (text ∷ texts) ≡ ok o
    → (v : Bytes) × (o ≡ some v) × All (Says v) (text ∷ texts)
agreed_filled text texts o h =
    let (n, first, others) = agreed-cons text none texts o h in
    let (v, found, says) = agree-none text n first in
    let (last, all) = agreed-some v texts o (subst (λ z. agreed z texts ≡ ok o) found others) in
    (v, last, (says, all))

agreed-ok_some :
    (texts : List Bytes) (v : Bytes)
    → agreed none texts ≡ ok (some v)
    → (texts ≢ []) × All (Says v) texts
unfolding agreed
agreed-ok_some [] v h = ground (arith, h)
agreed-ok_some (text ∷ texts) v h =
    let (n, first, others) = agreed-cons text none texts (some v) h in
    let (w, found, says) = agree-none text n first in
    let (same, all) =
      agreed-some w texts (some v) (subst (λ z. agreed z texts ≡ ok (some v)) found others) in
    let e : w ≡ v = ground (arith, same) in
    (ground arith, subst (λ z. All (Says z) (text ∷ texts)) e (says, all))

agreed_ok :
    (texts : List Bytes) (v : Bytes)
    → texts ≢ []
    → All (Says v) texts
    → agreed none texts ≡ ok (some v)
unfolding agreed
agreed_ok [] v h all = absurd (h refl)
agreed_ok (text ∷ texts) v h (ht, hs) = rw (agreed, agree-Says text v ht) (agreed_same v texts hs)

agreed_iff :
    (texts : List Bytes) (v : Bytes)
    → (agreed none texts ≡ ok (some v)) ↔ ((texts ≢ []) × All (Says v) texts)
agreed_iff texts v = (agreed-ok_some texts v, λ p. agreed_ok texts v p.0 p.1)

-- GetValidatorPK returns a key exactly where there is an output and the validator key of every
-- output is a hexadecimal text of that key.
pub get_validator_pk_iff :
    (r : DkgResult) (vk : Bytes)
    → (get_validator_pk r ≡ ok (some vk))
      ↔ ((vk_texts r.outputs ≢ []) × All (Says vk) (vk_texts r.outputs))
unfolding get_validator_pk
get_validator_pk_iff r vk = agreed_iff (vk_texts r.outputs) vk

-- GetSignatureFromKeySign returns the hexadecimal text of a signature where there is an output and
-- the signature of every output is a hexadecimal text of the same bytes.
pub get_signature_from_key_sign_agreed :
    (r : DkgResult) (sig : Bytes)
    → signature_texts r.outputs ≢ []
    → All (Says sig) (signature_texts r.outputs)
    → get_signature_from_key_sign r ≡ ok (Hex.encode sig)
unfolding get_signature_from_key_sign signature_text
get_signature_from_key_sign_agreed r sig some_output same =
    rw ((agreed_iff (signature_texts r.outputs) sig).1 (some_output, same)) refl
