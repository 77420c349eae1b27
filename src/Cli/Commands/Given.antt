-- ===== src/Cli/Commands/Given.antt =====
-- The actions get what the command line gives under the flags of their commands.
use rockx_dkg_cli.Cli.Commands.{
  Command, Context, Args, command_of, inputs, Flag, Inputs, Value, string_slice, int, texts, string,
  command_keygen, for_keygen, number, text, command_resharing, command_get_dkg_results,
  for_resharing, command_get_keyshares, for_results, command_generate_deposit_data, for_keyshares,
  keygen_inputs, for_deposit, resharing_inputs, keyshares_inputs, deposit_inputs, Action, keygen,
  resharing, get_data, get_keyshares, get_deposit_data,
}
use rockx_dkg_cli.Prelude.{
  ◌≡◌, sym, ap, ◌∙◌, Option, none, some, All, Bytes, codes, lookup, bytes_key, nat_key,
}

-- The value of a flag: under its name, or under its alias.
abbrev pub given : Args → (name alias : Bytes) → Option Value
given args name alias = elim (lookup name args) [ some v ↦ some v | none ↦ lookup alias args ]

-- The context has a value for a flag, under the flag's name and with the getter of its kind.
abbrev pub Reads : Context → Flag → Value → Type 0
Reads c f (texts vs) = (f.kind ≡ string_slice) × (c.get_string_slice f.name ≡ vs)
Reads c f (number n) = (f.kind ≡ int) × (c.get_int f.name ≡ n)
Reads c f (text s) = (f.kind ≡ string) × (c.get_string f.name ≡ s)

-- What urfave/cli documents of the context in which it runs the action of a command whose flags are all
-- required: each has been given, and is read under its name. Nothing is known of other names.
abbrev pub IsContextOf : Command → Args → Context → Type 0
IsContextOf command args c =
    All (λ (f : Flag). (v : Value) × (given args f.name f.alias ≡ some v) × Reads c f v)
      command.flags

-- The command line has these inputs, by the names and aliases that the tool is documented with.
abbrev pub AreGiven : Args → Inputs → Type 0
AreGiven args (for_keygen k) =
    (given args (codes "operator") (codes "o") ≡ some (texts k.operator))
    × (given args (codes "threshold") (codes "t") ≡ some (number k.threshold))
    × (given args (codes "withdrawal-credentials") (codes "w")
        ≡ some (text k.withdrawal_credentials))
    × (given args (codes "fork-version") (codes "f") ≡ some (text k.fork_version))
AreGiven args (for_resharing r) =
    (given args (codes "operator") (codes "o") ≡ some (texts r.operator))
    × (given args (codes "old-operator") (codes "oo") ≡ some (texts r.old_operator))
    × (given args (codes "threshold") (codes "t") ≡ some (number r.threshold))
    × (given args (codes "validator-pk") (codes "vk") ≡ some (text r.validator_pk))
AreGiven args (for_results id) = given args (codes "request-id") (codes "req") ≡ some (text id)
AreGiven args (for_keyshares k) =
    (given args (codes "request-id") (codes "req") ≡ some (text k.request_id))
    × (given args (codes "operator") (codes "o") ≡ some (texts k.operator))
    × (given args (codes "owner-address") (codes "oa") ≡ some (text k.owner_address))
    × (given args (codes "owner-nonce") (codes "on") ≡ some (number k.owner_nonce))
AreGiven args (for_deposit p) =
    (given args (codes "request-id") (codes "req") ≡ some (text p.request_id))
    × (given args (codes "withdrawal-credentials") (codes "w")
        ≡ some (text p.withdrawal_credentials))
    × (given args (codes "fork-version") (codes "f") ≡ some (text p.fork_version))

module _ (args : Args) (c : Context) (name alias : Bytes) where
  given_texts :
      (v : Value)
      → given args name alias ≡ some v
      → Reads c (record { name = name; alias = alias; kind = string_slice }) v
      → given args name alias ≡ some (texts (c.get_string_slice name))
  given_texts (texts vs) e (k, r) = e ∙ ap (λ z. some (texts z)) (sym r)
  given_texts (number n) e (k, r) = absurd (cc k)
  given_texts (text s) e (k, r) = absurd (cc k)

  given_number :
      (v : Value)
      → given args name alias ≡ some v
      → Reads c (record { name = name; alias = alias; kind = int }) v
      → given args name alias ≡ some (number (c.get_int name))
  given_number (texts vs) e (k, r) = absurd (cc k)
  given_number (number n) e (k, r) = e ∙ ap (λ z. some (number z)) (sym r)
  given_number (text s) e (k, r) = absurd (cc k)

  given_text :
      (v : Value)
      → given args name alias ≡ some v
      → Reads c (record { name = name; alias = alias; kind = string }) v
      → given args name alias ≡ some (text (c.get_string name))
  given_text (texts vs) e (k, r) = absurd (cc k)
  given_text (number n) e (k, r) = absurd (cc k)
  given_text (text s) e (k, r) = e ∙ ap (λ z. some (text z)) (sym r)

-- Whatever the command, in a context that the library makes of its flags and a command line,
-- everything that the action reads is what the command line gives under the flag's name or alias.
pub inputs-AreGiven :
    (a : Action) (args : Args) (c : Context)
    → IsContextOf (command_of a) args c
    → AreGiven args (inputs a c)
unfolding command_of inputs command_keygen command_resharing command_get_dkg_results
    command_get_keyshares command_generate_deposit_data keygen_inputs resharing_inputs
    keyshares_inputs deposit_inputs
inputs-AreGiven keygen args c h = (
  given_texts args c _ _ h.0.0 h.0.1 h.0.2,
  given_number args c _ _ h.1.0.0 h.1.0.1 h.1.0.2,
  given_text args c _ _ h.1.1.0.0 h.1.1.0.1 h.1.1.0.2,
  given_text args c _ _ h.1.1.1.0.0 h.1.1.1.0.1 h.1.1.1.0.2,
)
inputs-AreGiven resharing args c h = (
  given_texts args c _ _ h.0.0 h.0.1 h.0.2,
  given_texts args c _ _ h.1.0.0 h.1.0.1 h.1.0.2,
  given_number args c _ _ h.1.1.0.0 h.1.1.0.1 h.1.1.0.2,
  given_text args c _ _ h.1.1.1.0.0 h.1.1.1.0.1 h.1.1.1.0.2,
)
inputs-AreGiven get_data args c h = given_text args c _ _ h.0.0 h.0.1 h.0.2
inputs-AreGiven get_keyshares args c h = (
  given_text args c _ _ h.0.0 h.0.1 h.0.2,
  given_texts args c _ _ h.1.0.0 h.1.0.1 h.1.0.2,
  given_text args c _ _ h.1.1.0.0 h.1.1.0.1 h.1.1.0.2,
  given_number args c _ _ h.1.1.1.0.0 h.1.1.1.0.1 h.1.1.1.0.2,
)
inputs-AreGiven get_deposit_data args c h = (
  given_text args c _ _ h.0.0 h.0.1 h.0.2,
  given_text args c _ _ h.1.0.0 h.1.0.1 h.1.0.2,
  given_text args c _ _ h.1.1.0.0 h.1.1.0.1 h.1.1.0.2,
)
