-- ===== src/Service/Clients.antt =====
-- The clients' programs at the messenger: internal/messenger/client.go, and DKGResultByRequestID of
-- internal/cli/server.go, in a world where their requests are served by setRoutes' handlers.
use rockx_dkg_cli.Net.{World, Request, post, Payload, answered, ok, judged}
use rockx_dkg_cli.Messenger.State.{default_topic}
use rockx_dkg_cli.Messenger.Register.{Registered}
use rockx_dkg_cli.Web.{Web, WebLaw}
use rockx_dkg_cli.Prelude.{
  ◌≡◌, refl, ◌∙◌, some, List, [], ◌∷◌, ◌++◌, append_assoc, Bytes, codes, ap,
}
use rockx_dkg_cli.Service.{
  Json, Web, Registered, served, Request, World, with_messenger, reached, serve_http,
}

module _ (web : Web) (json : Json) where
  pub served-append :
      (sent : List Request) (req : Request) (st : Registered)
      → served web json st (sent ++ req ∷ [])
        ≡ reached web json (web.target_of req.url) req.payload (served web json st sent)
  unfolding served
  served-append [] req st = refl
  served-append (r ∷ sent) req st =
      served-append sent req (reached web json (web.target_of r.url) r.payload st)

  module _ (st : Registered) (others : World) where
    -- What the messenger answers to a request for it, and its state afterwards.
    pub with_messenger-served :
        (req : Request) (target : Bytes) (sent : List Request)
        → web.target_of req.url ≡ some target
        → (with_messenger web json st others sent req
            ≡ (serve_http web json target req.payload (served web json st sent)).1)
          × (served web json st (sent ++ req ∷ [])
              ≡ (serve_http web json target req.payload (served web json st sent)).0)
    unfolding with_messenger reached
    with_messenger-served req target sent e = (rw e refl, served-append sent req st ∙ rw e refl)

    -- A post that the messenger answers with 200.
    pub posted :
        (url target text : Bytes) (p : Payload) (sent : List Request) (after : Registered)
        → web.target_of url ≡ some target
        → serve_http web json target (some p) (served web json st sent) ≡ (after, answered 200 text)
        → (post (with_messenger web json st others) url p sent
            ≡ (ok tt, sent ++ record { url = url; payload = some p } ∷ []))
          × (served web json st (sent ++ record { url = url; payload = some p } ∷ []) ≡ after)
    unfolding post
    posted url target text p sent after e page =
        let req : Request = record { url = url; payload = some p } in
        let (answer, later) = with_messenger-served req target sent e in
        (
          ap (λ z. (judged (with_messenger web json st others) z, sent ++ req ∷ []))
              (answer ∙ ap (λ z. z.1) page),
          later ∙ ap (λ z. z.0) page,
        )

  module _ (addr : Bytes) (law : WebLaw web addr) where
    -- The targets of the clients' URLs.
    pub stream_target :
        (urlparam id : Bytes)
        → web.target_of (addr ++ codes "/stream/" ++ urlparam ++ codes "?request_id=" ++ id)
          ≡ some (codes "/stream/" ++ (urlparam ++ (codes "?request_id=" ++ id)))
    stream_target urlparam id =
        simp append_assoc
          (law.delivered (codes "stream/" ++ (urlparam ++ (codes "?request_id=" ++ id))))

    pub data_target :
        (id : Bytes) → web.target_of (addr ++ codes "/data/" ++ id) ≡ some (codes "/data/" ++ id)
    data_target id = simp append_assoc (law.delivered (codes "data/" ++ id))

    pub topics_target : web.target_of (addr ++ codes "/topics") ≡ some (codes "/topics")
    topics_target = law.delivered (codes "topics")

    pub register_target :
        web.target_of (addr ++ codes "/register_node?subscribes_to=" ++ default_topic)
        ≡ some (codes "/register_node?subscribes_to=" ++ default_topic)
    register_target =
        simp append_assoc (law.delivered (codes "register_node?subscribes_to=" ++ default_topic))
