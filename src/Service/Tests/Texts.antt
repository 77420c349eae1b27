-- ===== src/Service/Tests/Texts.antt =====
-- Texts of topics and registrations that can be read back: words that end with a zero.
use rockx_dkg_cli.Service.{JsonLaw, Json}
use rockx_dkg_cli.Messenger.Register.{SubscriberJson}
use rockx_dkg_cli.Dkg.{SignedOutput, BlameOutput}
use rockx_dkg_cli.Messenger.Topics.{TopicJson}
use rockx_dkg_cli.Prelude.{
  ℕ, ◌+◌, ◌-◌, ◌≡◌, refl, ap, ◌∙◌, Option, none, some, List, [], ◌∷◌, ◌++◌, arith, ◌==◌,
  if◌then◌else◌, Bytes, GoMap,
}

unfoldable pub word : Bytes → Bytes
word [] = 0 ∷ []
word (c ∷ s) = (c + 1) ∷ word s

unfoldable pub all_words : List Bytes → Bytes
all_words [] = []
all_words (s ∷ ss) = word s ++ all_words ss

abbrev push_char : ℕ → List Bytes → List Bytes
push_char c [] = (c ∷ []) ∷ []
push_char c (w ∷ ws) = (c ∷ w) ∷ ws

unfoldable pub words : Bytes → List Bytes
words [] = []
words (c ∷ s) = let rest = words s in if c == 0 then [] ∷ rest else push_char (c - 1) rest

words-word : (s t : Bytes) → words (word s ++ t) ≡ s ∷ words t
unfolding word words
words-word [] t = refl
words-word (c ∷ s) t = ground (arith, words-word s t)

words-all_words : (ss : List Bytes) → words (all_words ss) ≡ ss
unfolding all_words words
words-all_words [] = refl
words-all_words (s ∷ ss) = words-word s (all_words ss) ∙ ap (λ z. s ∷ z) (words-all_words ss)

abbrev topic_of : List Bytes → Option TopicJson
topic_of [] = none
topic_of (n ∷ ss) = some (record { topic_name = n; subscribers = ss })

abbrev subscriber_of : List Bytes → Option SubscriberJson
subscriber_of (n ∷ addr ∷ []) = some (record { name = n; srv_addr = addr })
subscriber_of _ = none

-- Any body is read as these outputs and this blame.
abbrev pub plain_json : GoMap ℕ (Option SignedOutput) → BlameOutput → Json
plain_json outputs blame = record {
  topic_text = λ n ss. all_words (n ∷ ss);
  subscriber_text = λ n addr. all_words (n ∷ addr ∷ []);
  read_topic = λ s. topic_of (words s);
  read_subscriber = λ s. subscriber_of (words s);
  read_outputs = λ s. some outputs;
  read_blame = λ s. some (some blame);
  page_text = λ p. [];
}

pub plain_json_law :
    (outputs : GoMap ℕ (Option SignedOutput)) (blame : BlameOutput)
    → JsonLaw (plain_json outputs blame)
plain_json_law outputs blame = record {
  topic_read = λ n ss. ap topic_of (words-all_words (n ∷ ss));
  subscriber_read = λ n addr. ap subscriber_of (words-all_words (n ∷ addr ∷ []));
}
