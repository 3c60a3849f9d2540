-- ===== src/Core/Reply/First.antt =====
-- src/sim_monitor/core/sms_reply.py: the rule that answers is the first that fits.
use sim_connectivity_monitor.Prelude.{
  ◌≡◌, ap, Bool, true, false, ◌&&◌, some, List, [], ◌∷◌, ◌++◌, Text, find, All, Bool-cases, inl,
  inr,
}
use sim_connectivity_monitor.Core.Reply.{
  RegexSearch, SmsReplyRule, SmsAutoReplyConfig, rule_matches, find_reply,
}

-- The first element of a list that passes a test, with what stands before and after it.
pub record IsFirst {A : Type 0} (test : A → Bool) (xs : List A) (x : A) : Type 0 where
  pub before : List A
  pub after : List A
  pub parts : xs ≡ before ++ x ∷ after
  pub passes : test x ≡ true
  pub none_before : All (λ y. test y ≡ false) before

behind :
    {A : Type 0} {test : A → Bool} {ys : List A} {x y : A}
    → test y ≡ false
    → IsFirst test ys x
    → IsFirst test (y ∷ ys) x
behind {y = y} e f = record {
  before = y ∷ f.before;
  after = f.after;
  parts = ap (λ z. y ∷ z) f.parts;
  passes = f.passes;
  none_before = (e, f.none_before);
}

find-IsFirst :
    {A : Type 0} (test : A → Bool) (xs : List A) (x : A) → find test xs ≡ some x → IsFirst test xs x
find-IsFirst test [] x h = cc
find-IsFirst test (y ∷ ys) x h = elim (Bool-cases (test y)) [
  | inl e ↦ record {
    before = [];
    after = ys;
    parts = ap (λ z. z ∷ ys) (cc (rw e at h));
    passes = cc (rw e at h, e);
    none_before = tt;
  }
  | inr e ↦ behind e (find-IsFirst test ys x (rw e at h))
]

module _ (search_regex : RegexSearch) where
  abbrev pub fits : Text → SmsReplyRule → Bool
  fits body rule = rule.enabled && rule_matches search_regex rule body

  -- If a rule answers a message, then the replies are enabled, the rule is one of the list, enabled,
  -- and matches, and no rule before it is enabled and matches.
  pub find_reply-IsFirst :
      (config : SmsAutoReplyConfig) (body : Text) (rule : SmsReplyRule)
      → find_reply search_regex config body ≡ some rule
      → (config.enabled ≡ true) × IsFirst (fits body) config.rules rule
  unfolding find_reply
  find_reply-IsFirst config body rule h = elim (Bool-cases config.enabled) [
    | inl e ↦ (e, find-IsFirst (fits body) config.rules rule (rw e at h))
    | inr e ↦ cc
  ]
