-- ===== src/Abac/Evaluator/Raising.antt =====
-- Which tests raise, whatever the order in which the policies are visited (`ABACEvaluator.evaluate`).
use xolo_api.Base.{
  ◌≡◌, refl, ◌∙◌, Bool, true, false, not, ◌||◌, List, [], ◌∷◌, any, any-append, Option, none, some,
  arith,
}
use xolo_api.Platform.Collections.{is_some, find_first}
use xolo_api.Abac.Types.{Effect, Event, Policy}
use xolo_api.Abac.Evaluator.Overrides.{
  Verdict, stops, is_raised, refuses, verdicts_on, verdicts, raises_first, denies, denies-any,
}

-- the test raised
abbrev raised : Verdict → Bool
raised (effect, answer) = not (is_some answer)

raised_first : (vs : List Verdict) → is_raised (find_first stops vs) ≡ true → any raised vs ≡ true
raised_first [] h = absurd (cc h)
raised_first ((effect, none) ∷ vs) h = refl
raised_first ((effect, some b) ∷ vs) h = ground (arith, raised_first vs)

refused_first :
    (vs : List Verdict)
    → is_raised (find_first stops vs) ≡ false
    → (not (any raised vs) || any refuses vs) ≡ true
refused_first [] h = refl
refused_first ((effect, none) ∷ vs) h = absurd (cc h)
refused_first ((effect, some b) ∷ vs) h = ground (arith, refused_first vs)

module _ (applies : Policy → Event → Option Bool) where
  -- the test of an event of the policy raises
  abbrev pub raises_on : Policy → Bool
  raises_on policy = any (λ event. not (is_some (applies policy event))) policy.events

  events_raised :
      (effect : Effect) (policy : Policy) (events : List Event)
      → any raised (verdicts_on applies effect policy events)
        ≡ any (λ event. not (is_some (applies policy event))) events
  events_raised effect policy [] = refl
  events_raised effect policy (event ∷ events) = ground (arith, events_raised effect policy events)

  policies_raised :
      (policies : List Policy) → any raised (verdicts applies policies) ≡ any raises_on policies
  policies_raised [] = refl
  policies_raised (policy ∷ policies) =
      any-append raised (verdicts_on applies policy.effect policy policy.events)
        (verdicts applies policies)
      ∙ ground (arith, events_raised policy.effect policy policy.events, policies_raised policies)

  -- where the loops end by a test that raises, there is one
  pub raises_first-any :
      (policies : List Policy)
      → raises_first applies policies ≡ true
      → any raises_on policies ≡ true
  raises_first-any policies h =
      ground (arith, raised_first (verdicts applies policies), policies_raised policies)

  -- where they do not, no test raises, or a denial applies
  pub raises_first-none :
      (policies : List Policy)
      → raises_first applies policies ≡ false
      → (not (any raises_on policies) || any (denies applies) policies) ≡ true
  raises_first-none policies h = ground (
    arith,
    refused_first (verdicts applies policies),
    policies_raised policies,
    denies-any applies policies,
  )
