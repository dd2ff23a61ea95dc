-- ===== src/Agent/Samples.antt =====
-- The properties of the router at a concrete reply of the model.
use octo_forge.Base.{none, List, [], ◌∷◌}
use octo_forge.Json.{text, array, no_elements, element, Members, member, no_members}
use octo_forge.Dialogs.Exchanges.{opened}
use octo_forge.Agent.Router.{ExchangeInfo, Completion}

abbrev shown : List ExchangeInfo
shown =
    record {
      id = "e";
      title = "question";
      status = opened;
      pending_question = none;
      age_seconds = 12;
      preview = none;
    }
    ∷ []

abbrev arguments : Members
arguments = member "action" (text "continue") (
    member "exchange_id" (text "e") (
      member "cancel_exchange_ids" (array (element (text "x") (element (text "e") no_elements)))
        (member "title" (text "  a  new\nname ") no_members)))

abbrev reply : Completion
reply = record {
  tool_calls = record { id = "c"; name = "route"; arguments = arguments } ∷ [];
  usage = none;
}
