-- ===== src/Core/Reply.antt =====
-- src/sim_monitor/core/sms_reply.py; core/tcp_reply.py and core/udp_reply.py are the same code over
-- their own rule types. Case folding is that of ASCII. The regular expressions of Python's `re` are
-- a parameter: `none` is `re.error`.
mod First
mod Tests
use sim_connectivity_monitor.Prelude.{
  Bool, false, not, ◌&&◌, Option, none, some, List, Text, if◌then◌else◌, find, lower, contains,
  text_eq, strip, lstrip, starts_with,
}

pub data MatchType : Type 0 where
  contained exact prefix regex : MatchType

pub record SmsReplyRule : Type 0 where
  pub name : Text
  pub enabled : Bool
  pub match_type : MatchType
  pub pattern : Text
  pub case_sensitive : Bool
  pub reply : Text

pub record SmsAutoReplyConfig : Type 0 where
  pub enabled : Bool
  pub rules : List SmsReplyRule

-- `re.search(pattern, text, flags) is not None`: pattern, whether case counts, text.
abbrev pub RegexSearch : Type 0
RegexSearch = Text → Bool → Text → Option Bool

abbrev or_false : Option Bool → Bool
or_false none = false
or_false (some b) = b

abbrev pub fold_case : Bool → Text → Text
fold_case case_sensitive s = if case_sensitive then s else lower s

module _ (search_regex : RegexSearch) where
  unfoldable pub match_by : MatchType → Bool → Text → Text → Bool
  unfolding contains text_eq strip lstrip starts_with
  match_by regex cs pattern body = or_false (search_regex pattern cs body)
  match_by contained cs pattern body = contains (fold_case cs body) (fold_case cs pattern)
  match_by exact cs pattern body =
      text_eq (strip (fold_case cs body)) (strip (fold_case cs pattern))
  match_by prefix cs pattern body =
      starts_with (lstrip (fold_case cs body)) (strip (fold_case cs pattern))

  unfoldable pub rule_matches : SmsReplyRule → Text → Bool
  unfolding match_by
  rule_matches rule body = match_by rule.match_type rule.case_sensitive rule.pattern body

  unfoldable pub find_reply : SmsAutoReplyConfig → Text → Option SmsReplyRule
  unfolding rule_matches
  find_reply config body =
      if not config.enabled
      then none
      else find (λ rule. rule.enabled && rule_matches rule body) config.rules
