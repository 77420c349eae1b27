-- ===== src/Cli/Data/Polling.antt =====
-- How long `get-keyshares` waits for a signature.
use rockx_dkg_cli.Client.Registration.{times}
use rockx_dkg_cli.Cli.Results.{results_of_answer, dkg_result_by_request_id, DkgResult}
use rockx_dkg_cli.Cli.Data.{ParseStore, poll, settle}
use rockx_dkg_cli.Net.{World, Request, Error, err, ok, ask, Result, panics}
use rockx_dkg_cli.Prelude.{
  ℕ, zero, suc, ◌<◌, ◌≡◌, sym, ap, none, some, List, [], ◌∷◌, ◌++◌, append-nil, arith, Bytes, codes,
  refl, subst, ◌∙◌, append_assoc, ◌⊎◌, inl, inr, Option,
}

abbrev pub data_request : Bytes → Bytes → Request
data_request addr id = record { url = addr ++ codes "/data/" ++ id; payload = none }

module _ (world : World) (parse : ParseStore) (addr id : Bytes) where
  -- The next `k` answers to the request for the result are errors.
  abbrev pub Misses : ℕ → List Request → Type 0
  Misses zero sent = Unit
  Misses (suc k) sent =
      ((e : Error) × (results_of_answer parse (world sent (data_request addr id)) ≡ err e))
      × Misses k (sent ++ data_request addr id ∷ [])

  -- `get-keyshares` asks for the result of the signature at most `n` times (it does so with n = 4): if
  -- the first `k < n` answers are errors and the next one holds a result, it takes that result, and
  -- has made `k + 1` requests.
  pub poll_found :
      (k n : ℕ) (sent : List Request) (r : DkgResult)
      → k < n
      → Misses k sent
      → results_of_answer parse
          (world (sent ++ times k (data_request addr id)) (data_request addr id))
        ≡ ok r
      → poll world parse n addr id sent
        ≡ (ok (some r), sent ++ times (suc k) (data_request addr id))
  unfolding poll dkg_result_by_request_id ask settle
  poll_found k zero sent r lt misses h = ground (arith, lt)
  poll_found zero (suc n) sent r lt misses h =
      let first =
        subst (λ z. results_of_answer parse (world z (data_request addr id)) ≡ ok r)
          (append-nil sent) h in
      rw (first, settle) refl
  poll_found (suc k) (suc n) sent r lt ((e, miss), misses) h =
      let later = sent ++ data_request addr id ∷ [] in
      let found =
        subst (λ z. results_of_answer parse (world z (data_request addr id)) ≡ ok r)
          (sym (append_assoc sent (data_request addr id ∷ []) (times k (data_request addr id))))
          h in
      rw (miss, settle)
        (poll_found k n later r (omega (arith, lt)) misses found
          ∙ ap (λ z. (ok (some r), z))
              (append_assoc sent (data_request addr id ∷ [])
                (times (suc k) (data_request addr id))))

  -- Where all `n` answers to the request for the result of the signature are errors, `get-keyshares` goes
  -- on without a result, and has made `n` requests.
  pub poll_missed :
      (n : ℕ) (sent : List Request)
      → Misses n sent
      → poll world parse n addr id sent ≡ (ok none, sent ++ times n (data_request addr id))
  unfolding poll dkg_result_by_request_id ask settle
  poll_missed zero sent misses = ap (λ z. (ok none, z)) (sym (append-nil sent))
  poll_missed (suc n) sent ((e, miss), misses) =
      rw (miss, settle)
        (poll_missed n (sent ++ data_request addr id ∷ []) misses
          ∙ ap (λ z. (ok none, z))
              (append_assoc sent (data_request addr id ∷ []) (times n (data_request addr id))))

settle-some :
    (tried : Result DkgResult) (next : Result (Option DkgResult) × List Request)
    (sent : List Request) (r : DkgResult)
    → (settle tried next sent).0 ≡ ok (some r)
    → (tried ≡ ok r) ⊎ (next.0 ≡ ok (some r))
unfolding settle
settle-some (ok a) next sent r h = inl (ground (arith, h))
settle-some (err e) next sent r h = inr h
settle-some panics next sent r h = ground (arith, h)

-- A result comes from one of the tries.
pub poll-ok :
    (world : World) (parse : ParseStore) (n : ℕ) (addr id : Bytes) (sent : List Request)
    (r : DkgResult)
    → (poll world parse n addr id sent).0 ≡ ok (some r)
    → (k : ℕ) × (k < n)
      × ((dkg_result_by_request_id world parse addr id (sent ++ times k (data_request addr id))).0
          ≡ ok r)
unfolding poll dkg_result_by_request_id ask
poll-ok world parse zero addr id sent r h = ground (arith, h)
poll-ok world parse (suc n) addr id sent r h =
    let req : Request = data_request addr id in
    let result : List Request → Result DkgResult = λ z. results_of_answer parse (world z req) in
    let later = sent ++ req ∷ [] in
    let next = poll world parse n addr id later in
    elim (settle-some (result sent) next later r h) [
      | inl found ↦ (0, omega arith, subst (λ z. result z ≡ ok r) (sym (append-nil sent)) found)
      | inr others ↦
          let (k, lt, found) = poll-ok world parse n addr id later r others in
          (
            suc k,
            omega (arith, lt),
            subst (λ z. result z ≡ ok r) (append_assoc sent (req ∷ []) (times k req)) found,
          )
    ]
