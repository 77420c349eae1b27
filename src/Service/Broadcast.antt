-- ===== src/Service/Broadcast.antt =====
-- A node's message on its way into the messenger: BroadcastDKGMessage of internal/messenger/client.go with
-- HandlePublish.
use rockx_dkg_cli.Service.Sound.{served-IsConsistent}
use rockx_dkg_cli.Web.Plain.{segment-IsPlain, encode-segment}
use rockx_dkg_cli.Service.Routes.{serve_http-publish}
use rockx_dkg_cli.Service.Clients.{with_messenger-served}
use rockx_dkg_cli.Messenger.Invariant.Defs.{IsConsistent}
use rockx_dkg_cli.Go.Hex.{IsByte}
use rockx_dkg_cli.Messenger.Register.{Registered}
use rockx_dkg_cli.Messenger.System.{channel_room}
use rockx_dkg_cli.Web.{Web, WebLaw}
use rockx_dkg_cli.Messenger.State.{Messenger}
use rockx_dkg_cli.Prelude.{
  ℕ, ◌≤◌, ◌<◌, ◌≡◌, refl, sym, ap, subst, ◌∙◌, Option, none, some, List, [], ◌∷◌, ◌++◌,
  append_assoc, arith, length, length-append, All, Bytes, codes, lookup, bytes_key, nat_key,
}
use rockx_dkg_cli.Service.{
  Json, serve_http, Web, answer_of, Registered, body_of, served, with_messenger,
}
use rockx_dkg_cli.Client.{broadcast_dkg_message, publish}
use rockx_dkg_cli.Messenger.Contract.Store.{publish_answer, handle_publish_lem}
use rockx_dkg_cli.Net.{judged, Result, World, err, bad_status, post, ok, Request, raw}
use rockx_dkg_cli.Go.Hex

-- What the node makes of the messenger's answer.
abbrev pub broadcast_result : Option ℕ → Result (Unit {0})
broadcast_result none = err (bad_status 500)
broadcast_result (some t) = ok tt

judged_publish :
    (world : World) (json : Json) (k payload : Bytes) (m : Messenger) (o : Option ℕ)
    → judged world (answer_of json (publish_answer k payload m o).1) ≡ broadcast_result o
judged_publish world json k payload m none = refl
judged_publish world json k payload m (some t) = refl

room_left :
    (k payload : Bytes) (m : Messenger) (o : Option ℕ)
    → length m.incoming < channel_room
    → length (publish_answer k payload m o).0.incoming ≤ channel_room
room_left k payload m none room = omega (arith, room)
room_left k payload m (some t) room =
    omega (arith, room, length-append m.incoming (record { topic = k; payload = payload } ∷ []))

module _ (web : Web) (json : Json) (addr : Bytes) (law : WebLaw web addr) (st : Registered)
    (others : World) where
  publish_target :
      (topic : Bytes)
      → web.target_of (addr ++ codes "/publish?topic_name=" ++ topic)
        ≡ some (codes "/publish?topic_name=" ++ topic)
  publish_target topic = simp append_assoc (law.delivered (codes "publish?topic_name=" ++ topic))

  -- At a well-formed messenger whose channel has room, a node that broadcasts an encoded message succeeds
  -- where the messenger has a topic under the text of the message's identifier, and then the encoding
  -- of the message is in the channel as the last one, under that topic, with nothing else changed;
  -- without such a topic the node gets an error and nothing changes. The channel never holds more than its room.
  pub broadcast_queued :
      (ssv_encode : Bytes → Bytes) (identifier msg : Bytes) (sent : List Request)
      → All IsByte identifier
      → IsConsistent st.0
      → length (served web json st sent).0.incoming < channel_room
      → let now = (served web json st sent).0 in
        let k = Hex.encode identifier in
        let run =
          broadcast_dkg_message
            (with_messenger web json st others)
            addr
            ssv_encode
            identifier
            (some msg)
            sent in
        (run.0 ≡ broadcast_result (lookup k now.topics))
        × ((served web json st run.1).0
            ≡ (publish_answer k (ssv_encode msg) now (lookup k now.topics)).0)
        × (length (served web json st run.1).0.incoming ≤ channel_room)
  unfolding broadcast_dkg_message publish post body_of
  broadcast_queued ssv_encode identifier msg sent bytes v room =
      let k : Bytes = Hex.encode identifier in
      let now : Registered = served web json st sent in
      let req : Request = record {
        url = addr ++ codes "/publish?topic_name=" ++ k;
        payload = some (raw (ssv_encode msg));
      } in
      let out = publish_answer k (ssv_encode msg) now.0 (lookup k now.0.topics) in
      let (answer, later) =
        with_messenger-served web json st others req (codes "/publish?topic_name=" ++ k) sent
          (publish_target k) in
      let page : serve_http web json (codes "/publish?topic_name=" ++ k)
            (some (raw (ssv_encode msg))) now
          ≡ ((out.0, now.1), answer_of json out.1) =
        serve_http-publish web addr law json k (raw (ssv_encode msg)) now
          (segment-IsPlain k (encode-segment identifier bytes))
        ∙ ap (λ z. ((z.0, now.1), answer_of json z.1))
            (handle_publish_lem k (ssv_encode msg) now.0
              (served-IsConsistent web json sent st v)) in
      let after : (served web json st (sent ++ req ∷ [])).0 ≡ out.0 =
        ap (λ z. z.0) (later ∙ ap (λ z. z.0) page) in
      (
        ap (judged (with_messenger web json st others)) (answer ∙ ap (λ z. z.1) page)
            ∙ judged_publish (with_messenger web json st others) json k (ssv_encode msg) now.0
                (lookup k now.0.topics),
        after,
        subst (λ (m : Messenger). length m.incoming ≤ channel_room) (sym after)
            (room_left k (ssv_encode msg) now.0 (lookup k now.0.topics) room),
      )
