-- ===== src/Node/Tests/Keygen.antt =====
-- Runs of the theorems on the outputs of key generations.
use rockx_dkg_cli.Node.Routes.Shown.{saved_results_shown}
use rockx_dkg_cli.Service.Tests.Matching.{plain_web, plain_law}
use rockx_dkg_cli.Node.{Processed}
use rockx_dkg_cli.Node.Routes.{DkgNode, serve_node}
use rockx_dkg_cli.Storage.Keygen.RoundTrip.{KeygenJsonLaw, BlsLaw}
use rockx_dkg_cli.Storage.{Json}
use rockx_dkg_cli.Storage.Keygen.{KeygenOutput, save_keygen_output, KeygenText, Bls}
use rockx_dkg_cli.Prelude.{
  ℕ, ◌≡◌, refl, sym, inl, inr, Bool, true, false, ◌&&◌, none, some, [], ◌∷◌, arith, ◌==◌,
  if◌then◌else◌, Bool-cases, Bytes, codes, bytes_eq, bytes_eq_iff, GoMap, insert, bytes_key,
  nat_key, ◌++◌, lookup,
}
use rockx_dkg_cli.Go.Hex
use rockx_dkg_cli.Web
use rockx_dkg_cli.Net.{answered}
use rockx_dkg_cli.Node.Tests.{list_kv, list_kv_law}

abbrev unit_bls : Bls ℕ ℕ
unit_bls = record {
  sk_text = λ k. k ∷ [];
  sk_of = λ t. elim t [ [] ↦ none | k ∷ rest ↦ some k ];
  pk_text = λ k. k ∷ [];
  pk_of = λ t. elim t [ [] ↦ none | k ∷ rest ↦ some k ];
}

abbrev one_output : KeygenOutput ℕ ℕ
one_output = record {
  share = 5;
  operator_pub_keys = (1, 6) ∷ (2, 7) ∷ [];
  validator_pk = 171 ∷ [];
  threshold = 2;
}

abbrev one_text : KeygenText
one_text = record {
  share = 5 ∷ [];
  operator_pub_keys = (1, 6 ∷ []) ∷ (2, 7 ∷ []) ∷ [];
  validator_pk = codes "ab";
  threshold = 2;
}

pub keys_eq : GoMap ℕ Bytes → GoMap ℕ Bytes → Bool
keys_eq [] [] = true
keys_eq ((i, s) ∷ m) ((j, t) ∷ n) = (i == j) && bytes_eq s t && keys_eq m n
keys_eq _ _ = false

keys_eq_path : (m n : GoMap ℕ Bytes) → keys_eq m n ≡ true → m ≡ n
unfolding keys_eq
keys_eq_path [] [] h = refl
keys_eq_path [] (q ∷ n) h = ground (arith, h)
keys_eq_path (p ∷ m) [] h = ground (arith, h)
keys_eq_path ((i, s) ∷ m) ((j, t) ∷ n) h = ground (arith, h, bytes_eq_iff s t, keys_eq_path m n)

abbrev is_one : KeygenText → Bool
is_one t =
    bytes_eq t.share one_text.share
    && keys_eq t.operator_pub_keys one_text.operator_pub_keys
    && bytes_eq t.validator_pk one_text.validator_pk
    && (t.threshold == 2)

-- Only one text is written.
abbrev text_json : Json KeygenText
text_json = record {
  marshal = λ t. if is_one t then some [] else none;
  unmarshal = λ v. some one_text;
}

is_one_fields :
    (t : KeygenText)
    → is_one t ≡ true
    → (t.share ≡ one_text.share)
      × (t.operator_pub_keys ≡ one_text.operator_pub_keys)
      × (t.validator_pk ≡ one_text.validator_pk)
      × (t.threshold ≡ 2)
is_one_fields t h = (
  (bytes_eq_iff t.share one_text.share).0 (ground (arith, h)),
  keys_eq_path t.operator_pub_keys one_text.operator_pub_keys (ground (arith, h)),
  (bytes_eq_iff t.validator_pk one_text.validator_pk).0 (ground (arith, h)),
  ground (arith, h),
)

text_json_law : KeygenJsonLaw text_json
text_json_law t v h = elim (Bool-cases (is_one t)) [
  | inr other ↦ absurd (ground (arith, h, other))
  | inl same ↦
      let (e1, e2, e3, e4) = is_one_fields t same in
      sym (λ k.
        some (record {
          share = e1 k;
          operator_pub_keys = e2 k;
          validator_pk = e3 k;
          threshold = e4 k;
        }))
]

unit_bls_law : BlsLaw unit_bls
unit_bls_law = ((λ k. refl), λ k. refl)

abbrev saved_store : GoMap Bytes Bytes
saved_store = (171 ∷ [], []) ∷ []

saved_once : save_keygen_output unit_bls list_kv text_json one_output [] ≡ some saved_store
unfolding save_keygen_output rockx_dkg_cli.Storage.Keygen.encode_output bytes_eq
    rockx_dkg_cli.Storage.Keygen.keygen_text keys_eq rockx_dkg_cli.Storage.Keygen.pub_key_texts
    rockx_dkg_cli.Prelude.insert Hex.encode
saved_once = refl

-- A node that is its store, and takes no message.
abbrev pub store_node :
    {N : Type 0}
    → (N → GoMap Bytes Bytes)
    → (Bytes → N → Processed N)
    → DkgNode N Bytes (GoMap Bytes Bytes) ℕ ℕ
store_node store_of process = record {
  store_of = store_of;
  decode = λ b. some b;
  process = process;
  bls = unit_bls;
  kv = list_kv;
  json = text_json;
  pages = record {
    pong_page = codes "pong";
    version_page = [];
    consumed_page = λ b n. [];
    output_page = λ o. o.validator_pk;
  };
}

abbrev node_one : DkgNode (GoMap Bytes Bytes) Bytes (GoMap Bytes Bytes) ℕ ℕ
node_one = store_node (λ s. s) (λ b s. record { node = s; failed_to_process = true })

abbrev one_addr : Bytes
one_addr = codes "http://one"

saved_results_shown_example :
    serve_node
      (plain_web one_addr)
      node_one
      Web.get
      (one_addr ++ (codes "/dkg_results/" ++ Hex.encode (171 ∷ [])))
      []
      saved_store
    ≡ (
      saved_store,
      if bytes_eq (171 ∷ []) (171 ∷ [])
          then answered 200 (171 ∷ [])
          else (serve_node
              (plain_web one_addr)
              node_one
              Web.get
              (one_addr ++ (codes "/dkg_results/" ++ Hex.encode (171 ∷ [])))
              []
              []).1,
    )
unfolding rockx_dkg_cli.Prelude.lookup
saved_results_shown_example =
    saved_results_shown (plain_web one_addr) one_addr (plain_law one_addr) node_one [] saved_store
      one_output (171 ∷ []) unit_bls_law list_kv_law text_json_law (omega arith, tt)
      (refl, (refl, tt)) (omega arith, tt) (λ e. cc) saved_once
