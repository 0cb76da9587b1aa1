-- ===== src/Examples/Routing.antt =====
-- Two rule sets and two handlers, for msgrouterrulesengine.cpp and the routing in msgqueue.cpp.
use msg_courier.Prelude.{ℕ, ◌≡◌, refl, some, none, true, false, List, [], ◌∷◌, arith, All}
use msg_courier.Memory.{Returns, done}
use msg_courier.Msg.{Msg, ib_tcp, inuse}
use msg_courier.Factory.{command_name, get_command_handler, lookup}
use msg_courier.Rules.{Rule, RuleSet, Tests, matches, status, search}
use msg_courier.Rules.Search.{HasRules, first_route, search-first_route}
use msg_courier.MsgQueue.Route.{Router, process_inbound_message, process_priority_queue}
use msg_courier.MsgQueue.Route.Delivery.{
  Handed, Ends, notices, process_inbound_message-Handed, process_priority_queue-Ends,
}
use msg_courier.Examples.Messages.{message}

abbrev rule : Rule
rule = record { location = status; operation = matches; match_pattern = "GET .*"; value = "" }

abbrev sets : List RuleSet
sets =
    record { name = "web"; route_to = "WEB"; rules = rule ∷ rule ∷ [] }
    ∷ record { name = "im"; route_to = "IM"; rules = rule ∷ [] }
    ∷ []

pub sets_lem : All HasRules sets
sets_lem = (ground arith, (ground arith, tt))

abbrev tests : Tests
tests = record { test_contains = λ r. false; test_match = λ r. true }

search-first_route_example : search tests sets ≡ done (first_route tests sets)
search-first_route_example = search-first_route tests sets sets_lem

-- The handlers by numbers
abbrev pub router : Router ℕ
router = record {
  handlers = ("WEB", 4) ∷ ("MC", 1) ∷ [];
  sets = sets;
  tests = λ m. tests;
  query = λ command. none;
  sender = "host@10.0.0.1:3400";
  spare = message inuse ib_tcp 1000;
}

abbrev get : Msg
get = message inuse ib_tcp 1000

pub mc_lem : get_command_handler "MC" router.handlers ≡ some 1
unfolding get_command_handler lookup command_name
mc_lem = refl

process_inbound_message-Handed_example :
    Returns
      (Handed router get (notices router get.notify_action get))
      (process_inbound_message router get)
process_inbound_message-Handed_example = process_inbound_message-Handed router 1 mc_lem sets_lem get

process_priority_queue-Ends_example : Returns (Ends router get) (process_priority_queue router get)
process_priority_queue-Ends_example =
    process_priority_queue-Ends router 1 mc_lem sets_lem get (ground arith)
