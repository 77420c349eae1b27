-- ===== src/Net/Plan.antt =====
-- A reference for programs that post a list of requests: in order, up to the first that is not
-- answered with 200.
use rockx_dkg_cli.Prelude.{
  ◌≡◌, Bool, true, false, some, List, [], ◌∷◌, ◌++◌, arith, ◌==◌, if◌then◌else◌, Bytes, refl, sym,
  ap, ◌∙◌, inl, inr, append_assoc, append-nil, Bool-cases,
}
use rockx_dkg_cli.Net.{
  Request, Answer, failed, answered, World, Exec, Result, ok, err, panics, Payload, post, ◌>>=◌,
}

abbrev pub accepted : Answer → Bool
accepted failed = false
accepted (answered code body) = code == 200

abbrev pub is_ok {ℓ} : {A : Type ℓ} → Result A → Bool
is_ok (ok a) = true
is_ok (err e) = false
is_ok panics = false

-- What a run shows of itself: whether it succeeded, and the requests.
abbrev pub shown {ℓ} : {A : Type ℓ} → Result A × List Request → Bool × List Request
shown (r, sent) = (is_ok r, sent)

module _ (world : World) where
  unfoldable pub follow : List Request → List Request → Bool × List Request
  follow [] sent = (true, sent)
  follow (req ∷ reqs) sent =
      let rest = follow reqs (sent ++ req ∷ []) in
      if accepted (world sent req) then rest else (false, sent ++ req ∷ [])

  -- A program that posts and goes on follows the plan of the post and of what comes after it.
  pub follow-post {ℓ} :
      {B : Type ℓ} (url : Bytes) (payload : Payload) (k : Exec B) (plan sent : List Request)
      → ((s : List Request) → shown (k s) ≡ follow plan s)
      → shown ((post world url payload >>= λ _. k) sent)
        ≡ follow (record { url = url; payload = some payload } ∷ plan) sent
  unfolding follow post
  follow-post url payload k plan sent h =
      ground (arith, h (sent ++ record { url = url; payload = some payload } ∷ []))

  -- Where every request is accepted, the whole plan is carried out.
  pub follow_all :
      (plan sent : List Request)
      → ((s : List Request) (r : Request) → accepted (world s r) ≡ true)
      → follow plan sent ≡ (true, sent ++ plan)
  unfolding follow
  follow_all [] sent h = ground (arith, append-nil sent)
  follow_all (req ∷ reqs) sent h = rw (h sent req) (
      follow_all reqs (sent ++ req ∷ []) h
      ∙ ap (λ z. (true, z)) (append_assoc sent (req ∷ []) reqs))

  -- Only requests of the plan are made, in its order.
  pub follow_prefix :
      (plan sent : List Request)
      → (made left : List Request) × ((follow plan sent).1 ≡ sent ++ made) × (made ++ left ≡ plan)
  unfolding follow
  follow_prefix [] sent = ([], [], sym (append-nil sent), refl)
  follow_prefix (req ∷ reqs) sent = elim (Bool-cases (accepted (world sent req))) [
    | inl granted ↦
        let (made, left, p, q) = follow_prefix reqs (sent ++ req ∷ []) in
        (req ∷ made, left, rw granted (p ∙ append_assoc sent (req ∷ []) made), ap (λ z. req ∷ z) q)
    | inr refused ↦ (req ∷ [], reqs, rw refused refl, refl)
  ]
