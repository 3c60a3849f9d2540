-- ===== src/Core/Reply/Tests.antt =====
-- A list of rules, and the theorem on it.
use sim_connectivity_monitor.Prelude.{◌≡◌, refl, true, false, none, some, [], ◌∷◌, codes, lower}
use sim_connectivity_monitor.Core.Reply.{
  RegexSearch, SmsReplyRule, SmsAutoReplyConfig, contained, exact, find_reply,
}
use sim_connectivity_monitor.Core.Reply.First.{IsFirst, fits, find_reply-IsFirst}

abbrev no_regex : RegexSearch
no_regex = λ _ _ _. none

abbrev ping : SmsReplyRule
ping = record {
  name = [];
  enabled = true;
  match_type = exact;
  pattern = codes "ping";
  case_sensitive = false;
  reply = codes "pong";
}

abbrev help : SmsReplyRule
help = record ping { match_type = contained; pattern = codes "help" }

abbrev config : SmsAutoReplyConfig
config = record { enabled = true; rules = record ping { enabled = false } ∷ help ∷ ping ∷ [] }

answers_ping : find_reply no_regex config (codes " PING ") ≡ some ping
unfolding find_reply lower
answers_ping = refl

find_reply-IsFirst_example :
    (config.enabled ≡ true) × IsFirst (fits no_regex (codes " PING ")) config.rules ping
find_reply-IsFirst_example = find_reply-IsFirst no_regex config (codes " PING ") ping answers_ping
