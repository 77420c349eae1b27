-- ===== src/Client/Registration.antt =====
-- What RegisterOperatorNode (internal/messenger/client.go) comes to, by the answers it gets.
use rockx_dkg_cli.Client.{
  register_operator_node, register_tries, answered, register_request, panics,
}
use rockx_dkg_cli.Net.{World, Request, failed, ok, err, too_many_tries}
use rockx_dkg_cli.Prelude.{
  ℕ, zero, suc, ◌+◌, ◌≡◌, refl, sym, ap, ◌∙◌, List, [], ◌∷◌, ◌++◌, append_assoc, append-nil, ◌==◌,
  if◌then◌else◌, Bytes, arith,
}

abbrev pub times : ℕ → Request → List Request
times zero req = []
times (suc k) req = req ∷ times k req

module _ (world : World) where
  -- The next `k` answers to a request are transport errors.
  abbrev pub Fails : ℕ → Request → List Request → Type 0
  Fails zero req sent = Unit
  Fails (suc k) req sent = (world sent req ≡ failed) × Fails k req (sent ++ req ∷ [])

  skip_failures :
      (k n m : ℕ) (req : Request) (sent : List Request)
      → m ≡ k + n
      → Fails k req sent
      → register_tries world m req sent ≡ register_tries world n req (sent ++ times k req)
  unfolding register_tries
  skip_failures zero n m req sent e h =
      ap (λ z. register_tries world z req sent) (omega (arith, e))
      ∙ ap (register_tries world n req) (sym (append-nil sent))
  skip_failures (suc k) n m req sent e (h, hs) =
      let e' : m ≡ suc (k + n) = omega (arith, e) in
      ap (λ z. register_tries world z req sent) e'
      ∙ rw h (
          skip_failures k n (k + n) req (sent ++ req ∷ []) refl hs
          ∙ ap (register_tries world n req) (append_assoc sent (req ∷ []) (times k req)))

  times_snoc : (k : ℕ) (req : Request) → times k req ++ req ∷ [] ≡ req ∷ times k req
  times_snoc zero req = refl
  times_snoc (suc k) req = ap (λ z. req ∷ z) (times_snoc k req)

  pub try-answered :
      (n code : ℕ) (body : Bytes) (req : Request) (sent : List Request)
      → world sent req ≡ answered code body
      → register_tries world (suc n) req sent
        ≡ ((if code == 200 then ok tt else panics), sent ++ req ∷ [])
  unfolding register_tries
  try-answered n code body req sent h = rw h refl

  -- After fewer than three transport errors the first answer decides: the node is registered where
  -- its status is 200, and the client panics on every other status. No request is made after it.
  pub register_decided :
      (srv_addr id addr : Bytes) (k n code : ℕ) (body : Bytes)
      → k + suc n ≡ 3
      → Fails k (register_request srv_addr id addr) []
      → world (times k (register_request srv_addr id addr)) (register_request srv_addr id addr)
        ≡ answered code body
      → register_operator_node world srv_addr id addr [] ≡ (
        (if code == 200 then ok tt else panics),
        times (suc k) (register_request srv_addr id addr),
      )
  unfolding register_operator_node
  register_decided srv_addr id addr k n code body three fails h =
      let req = register_request srv_addr id addr in
      skip_failures k (suc n) 3 req [] (sym three) fails
      ∙ try-answered n code body req (times k req) h
      ∙ ap (λ z. ((if code == 200 then ok tt else panics), z)) (times_snoc k req)

  -- After three transport errors the client gives up with an error, and has made three requests.
  pub register_gives_up :
      (srv_addr id addr : Bytes)
      → Fails 3 (register_request srv_addr id addr) []
      → register_operator_node world srv_addr id addr []
        ≡ (err too_many_tries, times 3 (register_request srv_addr id addr))
  unfolding register_operator_node register_tries
  register_gives_up srv_addr id addr fails =
      skip_failures 3 0 3 (register_request srv_addr id addr) [] refl fails
