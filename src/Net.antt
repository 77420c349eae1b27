-- ===== src/Net.antt =====
-- Programs that make HTTP requests one after the other, and may fail or panic.
pub mod Plan
use rockx_dkg_cli.Prelude.{
  ℕ, Option, some, List, [], ◌∷◌, ◌++◌, ◌==◌, if◌then◌else◌, Bytes, ◌≡◌, refl, ◌⊎◌, inl, inr, arith,
  ap, subst,
}

-- What is posted: bytes, or the JSON of a value (json.Marshal of the named struct).
pub data Payload : Type 0 where
  raw : Bytes → Payload
  topic_json : Bytes → List Bytes → Payload
  subscriber_json : Bytes → Bytes → Payload
  results_json blame_json : Bytes → Payload

-- A POST has a payload, a GET has none.
pub record Request : Type 0 where
  pub url : Bytes
  pub payload : Option Payload

-- A transport error, or a status and a body.
pub data Answer : Type 0 where
  failed : Answer
  answered : ℕ → Bytes → Answer

-- What kind of error a program returns; the texts are not kept.
pub data Error : Type 0 where
  request_failed unparsable encode_failed too_many_tries : Error
  bad_status : ℕ → Error
  not_key_value not_a_number not_hex : Bytes → Error
  vk_not_equal blame_output empty_result not_signed store_failed not_found nil_key : Error

-- `panics` is a run-time panic, such as the use of a nil pointer.
pub data Result {ℓ} (A : Type ℓ) : Type ℓ where
  ok : A → Result A
  err : Error → Result A
  panics : Result A

pub ok-injective {ℓ} : {A : Type ℓ} {a b : A} → Path (Result A) (ok a) (ok b) → a ≡ b
ok-injective {A} {a} {b} h = ap (λ (r : Result A). elim r [ ok x ↦ x | err e ↦ a | panics ↦ a ]) h

pub Result-cases {ℓ} :
    {A : Type ℓ} (r : Result A)
    → ((a : A) × (r ≡ ok a)) ⊎ (((e : Error) × (r ≡ err e)) ⊎ (r ≡ panics))
Result-cases (ok a) = inl (a, refl)
Result-cases (err e) = inr (inl (e, refl))
Result-cases panics = inr (inr refl)

-- The rest of the world: how it answers a request after those that were made before, oldest first.
abbrev pub World : Type 0
World = List Request → Request → Answer

-- A program is run after some requests, and gives a result and the requests that were made by then.
abbrev pub Exec {ℓ} : Type ℓ → Type ℓ
Exec A = List Request → Result A × List Request

abbrev pub pure {ℓ} : {A : Type ℓ} → A → Exec A
pure a sent = (ok a, sent)

abbrev pub lift {ℓ} : {A : Type ℓ} → Result A → Exec A
lift r sent = (r, sent)

abbrev pub after {ℓ κ} :
    {A : Type ℓ} {B : Type κ} → (A → Exec B) → Result A → List Request → Result B × List Request
after f (ok a) sent = f a sent
after f (err e) sent = (err e, sent)
after f panics sent = (panics, sent)

-- What succeeds has succeeded in its first part.
pub after-ok {ℓ κ} :
    {A : Type ℓ} {B : Type κ} (f : A → Exec B) (r : Result A) (sent : List Request) (b : B)
    → (after f r sent).0 ≡ ok b
    → (a : A) × (r ≡ ok a) × ((f a sent).0 ≡ ok b)
after-ok f (ok a) sent b h = (a, refl, h)
after-ok f (err e) sent b h = ground (arith, h)
after-ok f panics sent b h = ground (arith, h)

-- Where the value of the first part is known.
pub after_known {ℓ κ} :
    {A : Type ℓ} {B : Type κ} (f : A → Exec B) (r : Result A) (sent : List Request) (a : A) (b : B)
    → r ≡ ok a
    → (after f r sent).0 ≡ ok b
    → (f a sent).0 ≡ ok b
after_known f r sent a b known h = subst (λ z. (after f z sent).0 ≡ ok b) known h

infixl 5 ◌>>=◌ ◌>>◌
abbrev pub ◌>>=◌ {ℓ κ} : {A : Type ℓ} {B : Type κ} → Exec A → (A → Exec B) → Exec B
◌>>=◌ m f sent = after f (m sent).0 (m sent).1

abbrev pub ◌>>◌ {ℓ} : {B : Type ℓ} → Exec (Unit {0}) → Exec B → Exec B
m >> k = m >>= λ _. k

module _ (world : World) where
  -- client.Post and client.Get: the answer, which may be an error.
  unfoldable pub ask : Request → Exec Answer
  ask req sent = (ok (world sent req), sent ++ req ∷ [])

  abbrev pub judged : Answer → Result (Unit {0})
  judged failed = err request_failed
  judged (answered code body) = if code == 200 then ok tt else err (bad_status code)

  -- A POST of which only the status counts.
  unfoldable pub post : Bytes → Payload → Exec (Unit {0})
  post url payload sent =
      let req : Request = record { url = url; payload = some payload } in
      (judged (world sent req), sent ++ req ∷ [])
