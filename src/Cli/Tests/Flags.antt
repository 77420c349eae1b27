-- ===== src/Cli/Tests/Flags.antt =====
-- A command line of the deposit data command, and its context.
use rockx_dkg_cli.Go.Strconv.{pos}
use rockx_dkg_cli.Cli.Commands.Given.{AreGiven, IsContextOf, inputs-AreGiven}
use rockx_dkg_cli.Cli.Commands.{
  Context, Args, command_of, command_generate_deposit_data, text, inputs, get_deposit_data,
}
use rockx_dkg_cli.Prelude.{
  refl, [], ◌∷◌, if◌then◌else◌, codes, bytes_eq, lookup, bytes_key, nat_key,
}

abbrev line : Args
line =
    (codes "req", text (codes "ab"))
    ∷ (codes "withdrawal-credentials", text (codes "01"))
    ∷ (codes "f", text (codes "prater"))
    ∷ []

abbrev context : Context
context = record {
  get_string_slice = λ n. [];
  get_int = λ n. pos 0;
  get_string = λ n.
      if bytes_eq n (codes "request-id")
      then codes "ab"
      else if bytes_eq n (codes "withdrawal-credentials")
      then codes "01"
      else codes "prater";
}

IsContextOf-line : IsContextOf (command_of get_deposit_data) line context
unfolding command_of command_generate_deposit_data lookup bytes_eq
IsContextOf-line = (
  (text (codes "ab"), refl, (refl, refl)),
  ((text (codes "01"), refl, (refl, refl)), ((text (codes "prater"), refl, (refl, refl)), tt)),
)

inputs-AreGiven_example : AreGiven line (inputs get_deposit_data context)
inputs-AreGiven_example = inputs-AreGiven get_deposit_data line context IsContextOf-line
