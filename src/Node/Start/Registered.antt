-- ===== src/Node/Start/Registered.antt =====
-- A node that serves has been registered with the messenger, and has its own key.
use rockx_dkg_cli.Storage.Operators.{give_own_key-ok}
use rockx_dkg_cli.Registry.Fetch.{OperatorLib, Table}
use rockx_dkg_cli.Go.Strconv.{itoa, to_int}
use rockx_dkg_cli.Storage.{Outcome, Kv, Json, get_dkg_operator, with_own_key}
use rockx_dkg_cli.Dkg.{Operator}
use rockx_dkg_cli.Node.Params.{AppParams, load_from_env, load_from_env-lt}
use rockx_dkg_cli.Node.Start.{
  StartEnv, serve, register_and_serve, Serving, start_with, this_operator, start,
}
use rockx_dkg_cli.Prelude.{
  ℕ, zero, suc, ◌≡◌, refl, List, [], ◌∷◌, ◌++◌, Bytes, ap, ◌∙◌, inl, inr, arith, ◌==◌, ==_iff,
  Bool-cases, sym, ◌%◌, ◌^◌, ◌<◌, true, some, subst, Option, none,
}
use rockx_dkg_cli.Net.{answered, World, Request, Answer, Result, ok, failed, err, panics}
use rockx_dkg_cli.Client.{
  register_tries, after_try, register_request, register_operator_node, new_messenger_client,
  messenger_addr_from_env,
}

-- The last of the requests, and its answer.
pub record EndsWith (world : World) (req : Request) (sent : List Request) : Type 0 where
  pub before : List Request
  pub body : Bytes
  pub all : sent ≡ before ++ req ∷ []
  pub answer : world before req ≡ answered 200 body

module _ (world : World) where
  try-ok :
      (answer : Answer) (req : Request) (rest : Result (Unit {0}) × List Request)
      (sent sent' : List Request)
      → world sent req ≡ answer
      → (rest ≡ (ok tt, sent') → EndsWith world req sent')
      → after_try answer rest (sent ++ req ∷ []) ≡ (ok tt, sent')
      → EndsWith world req sent'
  try-ok failed req rest sent sent' e later h = later h
  try-ok (answered code body) req rest sent sent' e later h = elim (Bool-cases (code == 200)) [
    | inr other ↦ ground (arith, h, other)
    | inl is_ok ↦
        let code_ok : code ≡ 200 = (==_iff code 200).0 is_ok in
        record {
          before = sent;
          body = body;
          all = ground (arith, h);
          answer = e ∙ ap (λ c. answered c body) code_ok;
        }
  ]

  tries-ok :
      (n : ℕ) (req : Request) (sent sent' : List Request)
      → register_tries world n req sent ≡ (ok tt, sent')
      → EndsWith world req sent'
  unfolding register_tries
  tries-ok zero req sent sent' h = ground (arith, h)
  tries-ok (suc n) req sent sent' h =
      try-ok (world sent req) req (register_tries world n req (sent ++ req ∷ [])) sent sent' refl
        (tries-ok n req (sent ++ req ∷ []) sent') h

-- The registration of the node itself.
abbrev pub own_registration : StartEnv → AppParams → Request
own_registration env params =
    register_request (new_messenger_client (messenger_addr_from_env env.messenger_srv_addr))
      (itoa (to_int params.operator_id)) env.node_broadcast_addr

serve-ok :
    (params : AppParams) (operator : Operator) (r : Result (Unit {0})) (n : Serving)
    → serve params operator r ≡ ok n
    → (r ≡ ok tt) × (n ≡ record { params = params; operator = operator })
unfolding serve
serve-ok params operator (ok u) n h = (refl, ground (arith, h))
serve-ok params operator (err e) n h = ground (arith, h)
serve-ok params operator panics n h = ground (arith, h)

module _ {S : Type 0} (world : World) (env : StartEnv) where
  registered-ok :
      (params : AppParams) (found : Outcome S Operator) (n : Serving) (s' : S)
      (sent' : List Request)
      → register_and_serve world env params found ≡ (ok n, s', sent')
      → (n.params ≡ params)
        × (found.0 ≡ ok n.operator)
        × EndsWith world (own_registration env params) sent'
  unfolding register_and_serve register_operator_node
  registered-ok params (ok operator, s, sent) n s' sent' h =
      let tries = register_tries world 3 (own_registration env params) sent in
      let served : serve params operator tries.0 ≡ ok n = ap (λ z. z.0) h in
      let (done, same) = serve-ok params operator tries.0 n served in
      (
        ap (λ (z : Serving). z.params) same,
        ap (λ (z : Serving). ok z.operator) (sym same),
        tries-ok world 3 (own_registration env params) sent sent'
            (λ k. (done k, ap (λ z. z.2) h k)),
      )
  registered-ok params (err e, s, sent) n s' sent' h = ground (arith, h)
  registered-ok params (panics, s, sent) n s' sent' h = ground (arith, h)

  module _ (kv : Kv S) (json : Json Operator) (lib : OperatorLib) (table : Table) where
    own-key :
        (params : AppParams) (s : S) (o : Operator)
        → params.operator_id < 2 ^ 32
        → (this_operator world env kv json lib table params s).0 ≡ ok o
        → o.encryption_private_key ≡ some params.operator_private_key
    unfolding this_operator get_dkg_operator with_own_key
    own-key params s o below h =
        let (p, got, own) =
          give_own_key-ok params.operator_id params.operator_private_key
            (params.operator_id % 2 ^ 32) _ o (this_operator world env kv json lib table params s).1
            (this_operator world env kv json lib table params s).2
            (λ k. (
              h k,
              (this_operator world env kv json lib table params s).1,
              (this_operator world env kv json lib table params s).2,
            )) in
        let same : (params.operator_id % 2 ^ 32 == params.operator_id) ≡ true = ground arith in
        ap (λ (z : Operator). z.encryption_private_key) own ∙ rw same refl

    started-ok :
        (s : S) (loaded : Result AppParams) (n : Serving) (s' : S) (sent' : List Request)
        → ((params : AppParams) → loaded ≡ ok params → params.operator_id < 2 ^ 32)
        → start_with world env kv json lib table s loaded ≡ (ok n, s', sent')
        → (loaded ≡ ok n.params)
          × (n.operator.encryption_private_key ≡ some n.params.operator_private_key)
          × EndsWith world (own_registration env n.params) sent'
    unfolding start_with
    started-ok s (ok params) n s' sent' below h =
        let (same, found, last) =
          registered-ok params (this_operator world env kv json lib table params s) n s' sent' h in
        (
          ap ok (sym same),
          own-key params s n.operator (below params refl) found
              ∙ ap (λ (z : AppParams). some z.operator_private_key) (sym same),
          subst (λ z. EndsWith world (own_registration env z) sent') (sym same) last,
        )
    started-ok s (err e) n s' sent' below h = ground (arith, h)
    started-ok s panics n s' sent' below h = ground (arith, h)

    -- A node that serves has read its parameters from the environment, has its own private key, and has
    -- been registered: the last request before it serves is the registration under its own
    -- identifier and address, and the messenger has answered it with 200. So no node serves that the
    -- messenger has refused, whatever the registry, the store and the messenger do.
    pub start-ok :
        (pem_to_private_key : Bytes → Option Bytes) (opened s' : Option S) (n : Serving)
        (sent' : List Request)
        → start world env kv json lib table pem_to_private_key opened ≡ (ok n, s', sent')
        → (load_from_env pem_to_private_key env.node ≡ ok n.params)
          × (n.operator.encryption_private_key ≡ some n.params.operator_private_key)
          × EndsWith world (own_registration env n.params) sent'
    unfolding start
    start-ok pem_to_private_key none s' n sent' h = ground (arith, h)
    start-ok pem_to_private_key (some s) s' n sent' h =
        let loaded = load_from_env pem_to_private_key env.node in
        let r = start_with world env kv json lib table s loaded in
        started-ok s loaded n r.1 sent' (load_from_env-lt pem_to_private_key env.node)
          (λ k. (ap (λ z. z.0) h k, r.1, ap (λ z. z.2) h k))
