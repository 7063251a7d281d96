-- ===== src/Abac/Evaluator.antt =====
-- `ABACEvaluator` of xoloapi/abac/domain/services.py, for any test of an event against the request
-- (`ABACEvent.matches`, which also reads the policy's matcher version and time zone). The test returns
-- none where it raises, and then so does the evaluator.
pub mod Overrides
pub mod Raising
use xolo_api.Base.{
  String, Bool, true, false, List, [], ◌∷◌, ◌++◌, Option, none, some, if◌then◌else◌,
}
use Prim.Native.Char.{Char}
use xolo_api.Platform.Text.{Unicode}
use xolo_api.Abac.Events.{Calendar, event_matches}
use xolo_api.Abac.Types.{Effect, allow, deny, AccessRequest, Event, Policy, Decision}

-- the local variables of `evaluate`
pub record State : Type 0 where
  pub first_allow : Option (String × String)
  pub matched_policy_ids : List String
  pub matched_event_ids : List String

-- `return` in the loops, an exception, or their end
pub data Step : Type 0 where
  returns : Decision → Step
  raises : Step
  goes_on : State → Step

abbrev omitted : {A : Type 0} → Option A → String → List String
omitted none text = text ∷ []
omitted (some _) text = []

-- the warnings on what the request leaves out
abbrev pub warnings_on : AccessRequest → List String
warnings_on request =
    omitted request.location "omitted_context:location"
    ++ omitted request.time "omitted_context:time"

abbrev pub or_first : Option (String × String) → String × String → Option (String × String)
or_first none ids = some ids
or_first (some first) ids = some first

-- the loop goes on, unless it has returned or raised
unfoldable pub and_next : Step → (State → Step) → Step
and_next (returns decision) next = returns decision
and_next raises next = raises
and_next (goes_on state) next = next state

module _ (warnings : List String) (applies : Policy → Event → Option Bool) where
  abbrev pub recorded : Policy → Event → State → State
  recorded policy event state = record state {
    matched_policy_ids = state.matched_policy_ids ++ policy.policy_id ∷ [];
    matched_event_ids = state.matched_event_ids ++ event.event_id ∷ [];
  }

  -- the body of the inner loop, for an event that matches
  unfoldable pub matched : Effect → Policy → Event → State → Step
  matched deny policy event state = returns (record {
    allowed = false;
    matched_policy = some policy.policy_id;
    matched_event = some event.event_id;
    reason = "Explicit DENY policy matched";
    matched_policy_ids = (recorded policy event state).matched_policy_ids;
    matched_event_ids = (recorded policy event state).matched_event_ids;
    warnings = warnings;
  })
  matched allow policy event state = goes_on (record (recorded policy event state) {
    first_allow = or_first state.first_allow (policy.policy_id, event.event_id);
  })

  -- the body of the inner loop, by what the test answers
  unfoldable pub visited : Option Bool → Policy → Event → State → Step
  unfolding matched
  visited none policy event state = raises
  visited (some false) policy event state = goes_on state
  visited (some true) policy event state = matched policy.effect policy event state

  unfoldable pub visit_events : Policy → List Event → State → Step
  unfolding visited and_next
  visit_events policy [] state = goes_on state
  visit_events policy (event ∷ events) state =
      and_next (visited (applies policy event) policy event state)
        (λ next. visit_events policy events next)

  unfoldable pub visit_policies : List Policy → State → Step
  unfolding visit_events and_next
  visit_policies [] state = goes_on state
  visit_policies (policy ∷ policies) state =
      and_next (visit_events policy policy.events state) (λ next. visit_policies policies next)

  -- after the loops
  unfoldable pub concluded : Option (String × String) → State → Decision
  concluded (some first) state = record {
    allowed = true;
    matched_policy = some first.0;
    matched_event = some first.1;
    reason = "ALLOW policy matched";
    matched_policy_ids = state.matched_policy_ids;
    matched_event_ids = state.matched_event_ids;
    warnings = warnings;
  }
  concluded none state = record {
    allowed = false;
    matched_policy = none;
    matched_event = none;
    reason = "No matching policy (default deny)";
    matched_policy_ids = state.matched_policy_ids;
    matched_event_ids = state.matched_event_ids;
    warnings = warnings;
  }

  abbrev pub start : State
  start = record { first_allow = none; matched_policy_ids = []; matched_event_ids = [] }

  -- what the loops come to; none stands for the exception
  unfoldable pub ended : Step → Option Decision
  unfolding concluded
  ended (returns decision) = some decision
  ended raises = none
  ended (goes_on state) = some (concluded state.first_allow state)

  unfoldable pub evaluate : List Policy → Option Decision
  unfolding visit_policies ended
  evaluate policies = ended (visit_policies policies start)

-- `ABACEvaluator.evaluate` of a request
unfoldable pub decide :
    ⦃unicode : Unicode⦄
    → Calendar
    → (Char → Char → Bool)
    → AccessRequest
    → List Policy
    → Option Decision
unfolding evaluate event_matches
decide ⦃unicode = unicode⦄ calendar same request policies =
    evaluate (warnings_on request)
      (λ policy event.
        event_matches calendar ⦃unicode = unicode⦄ same request policy.matcher_version
          policy.timezone event)
      policies
