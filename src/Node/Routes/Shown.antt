-- ===== src/Node/Routes/Shown.antt =====
-- What the node answers to the messenger's worker, and to a request for results.
use rockx_dkg_cli.Node.Results.{handle_get_dkg_results-save}
use rockx_dkg_cli.Go.Hex.{IsByte}
use rockx_dkg_cli.Storage.{KvLaw}
use rockx_dkg_cli.Storage.Keygen.RoundTrip.{BlsLaw, KeygenJsonLaw}
use rockx_dkg_cli.Storage.Keygen.{KeygenOutput, save_keygen_output}
use rockx_dkg_cli.Web.Plain.{segment-IsPlain, encode-IsSegment}
use rockx_dkg_cli.Node.{handle_consume, handle_get_dkg_results, KeygenOutput}
use rockx_dkg_cli.Node.Routes.{
  DkgNode, serve_node, dispatch_node, handle_node, find_route, handle_consume, results_page,
  answered, serve_target, node_routes, results_pattern, route, dkg_results,
}
use rockx_dkg_cli.Prelude.{
  ◌≡◌, refl, true, some, [], ◌++◌, arith, All-append, Bytes, codes, bytes_eq, ap, ◌∙◌, sym, ◌≢◌,
  inl, inr, if◌then◌else◌, Bool-cases, All, Distinct, bytes_key, nat_key,
}
use rockx_dkg_cli.Web.{get, post, Web, WebLaw, find_route, IsSegment, is_plain, route}
use rockx_dkg_cli.Go.Hex

module _ {N M S Sk Pk : Type 0} (web : Web) (addr : Bytes) (law : WebLaw web addr)
    (lib : DkgNode N M S Sk Pk) where
  pub consume_served :
      (body : Bytes) (n : N)
      → serve_node web lib post (addr ++ codes "/consume") body n ≡ (
        (handle_consume lib.decode lib.process (some body) n).0,
        answered
            (handle_consume lib.decode lib.process (some body) n).1
            (lib.pages.consumed_page body n),
      )
  unfolding serve_target dispatch_node handle_node find_route bytes_eq
  consume_served body n =
      rw
        (
          law.delivered (codes "consume"),
          law.bare_path (codes "/consume") (ground arith),
          law.static_matches (codes "/consume") (codes "/consume") (ground arith),
        )
        refl

  results_path :
      (vk : Bytes)
      → IsSegment vk
      → web.path_of (codes "/dkg_results/" ++ vk) ≡ codes "/dkg_results/" ++ vk
  results_path vk segment = law.bare_path (codes "/dkg_results/" ++ vk) (
      All-append (λ c. is_plain c ≡ true) (codes "/dkg_results/") vk (ground arith)
        (segment-IsPlain vk segment.1))

  results_route :
      (vk : Bytes)
      → IsSegment vk
      → find_route web node_routes get (codes "/dkg_results/" ++ vk)
        ≡ some (route get results_pattern dkg_results)
  unfolding find_route bytes_eq
  results_route vk segment =
      rw
        (
          law.static_matches (codes "/ping") (codes "/dkg_results/" ++ vk) (ground arith),
          law.param_matches (codes "/dkg_results/") (codes "vk") vk (ground arith) (ground arith)
              segment,
        )
        refl

  results_served :
      (vk : Bytes) (n : N)
      → IsSegment vk
      → serve_node web lib get (addr ++ (codes "/dkg_results/" ++ vk)) [] n ≡ (
        n,
        results_page lib.pages.output_page
            (handle_get_dkg_results lib.bls lib.kv lib.json vk (lib.store_of n)),
      )
  unfolding serve_target dispatch_node handle_node
  results_served vk n segment =
      ap (λ o. serve_target web lib get o [] n) (law.delivered (codes "dkg_results/" ++ vk))
      ∙ (ap
            (λ p.
              dispatch_node web lib (find_route web node_routes get p) (codes "/dkg_results/" ++ vk)
                [] n)
            (results_path vk segment)
          ∙ (ap (λ r. dispatch_node web lib r (codes "/dkg_results/" ++ vk) [] n)
                (results_route vk segment)
              ∙ ap
                  (λ a. (
                    n,
                    results_page lib.pages.output_page
                        (handle_get_dkg_results lib.bls lib.kv lib.json a (lib.store_of n)),
                  ))
                  (ap (web.param results_pattern) (results_path vk segment)
                    ∙ law.param_value (codes "/dkg_results/") (codes "vk") vk (ground arith)
                        (ground arith) segment)))

  -- What a node answers, under the laws of its libraries, once it has saved the output of a key
  -- generation: to GET /dkg_results/ with the hexadecimal text of the validator key 200 and that output,
  -- and to that of any other key, which is not empty, what it would have answered before. The node stays
  -- as it is.
  pub saved_results_shown :
      (n n' : N) (output : KeygenOutput Sk Pk) (vk : Bytes)
      → BlsLaw lib.bls
      → KvLaw lib.kv
      → KeygenJsonLaw lib.json
      → All IsByte output.validator_pk
      → Distinct output.operator_pub_keys
      → All IsByte vk
      → vk ≢ []
      → save_keygen_output lib.bls lib.kv lib.json output (lib.store_of n) ≡ some (lib.store_of n')
      → let url = addr ++ (codes "/dkg_results/" ++ Hex.encode vk) in
        serve_node web lib get url [] n' ≡ (
          n',
          if bytes_eq output.validator_pk vk
              then answered 200 (lib.pages.output_page output)
              else (serve_node web lib get url [] n).1,
        )
  unfolding results_page
  saved_results_shown n n' output vk bls_law kv_law json_law bytes d vk_bytes filled saved =
      let segment = encode-IsSegment vk vk_bytes filled in
      results_served (Hex.encode vk) n' segment
      ∙ ap (λ r. (n', results_page lib.pages.output_page r))
          (handle_get_dkg_results-save lib.bls lib.kv lib.json output (lib.store_of n)
            (lib.store_of n') vk bls_law kv_law json_law bytes d vk_bytes saved)
      ∙ elim (Bool-cases (bytes_eq output.validator_pk vk)) [
        | inl e ↦ rw e refl
        | inr e ↦ rw e (ap (λ r. (n', r.1)) (sym (results_served (Hex.encode vk) n segment)))
      ]
