-- ===== src/Abac/Evaluator/Overrides.antt =====
-- A denial overrides every permission, without a permission the answer is no, and a test that raises
-- before the first denial leaves the request without an answer.
use xolo_api.Base.{
  String, ◌≡◌, ◌⊎◌, refl, ◌∙◌, Bool, true, false, not, ◌&&◌, ◌||◌, List, [], ◌∷◌, ◌++◌, any,
  any-append, Option, none, some, arith, Bool-cases, inl, inr,
}
use xolo_api.Platform.Collections.{is_some, find_first}
use xolo_api.Abac.Types.{Effect, allow, deny, Event, Policy, Decision}
use xolo_api.Abac.Evaluator.{
  State, start, Step, or_first, returns, raises, goes_on, matched, visited, and_next, visit_events,
  visit_policies, concluded, ended, evaluate,
}

abbrev pub is_deny : Effect → Bool
is_deny deny = true
is_deny allow = false

-- the test answers that the event applies
abbrev pub is_yes : Option Bool → Bool
is_yes none = false
is_yes (some b) = b

-- the effect of a policy, and what the test of one of its events answers
abbrev pub Verdict : Type 0
Verdict = Effect × Option Bool

-- the test raises, or the event of a denial applies
abbrev pub stops : Verdict → Bool
stops (effect, none) = true
stops (effect, some b) = is_deny effect && b

abbrev pub permits : Verdict → Bool
permits (effect, answer) = not (is_deny effect) && is_yes answer

-- the verdict is there, and is the one of a test that raised
abbrev pub is_raised : Option Verdict → Bool
is_raised none = false
is_raised (some (effect, answer)) = not (is_some answer)

-- a denial that applies
abbrev pub refuses : Verdict → Bool
refuses (effect, answer) = is_deny effect && is_yes answer

module _ (applies : Policy → Event → Option Bool) where
  abbrev pub verdicts_on : Effect → Policy → List Event → List Verdict
  verdicts_on effect policy [] = []
  verdicts_on effect policy (event ∷ events) =
      (effect, applies policy event) ∷ verdicts_on effect policy events

  -- in the order of the loops
  abbrev pub verdicts : List Policy → List Verdict
  verdicts [] = []
  verdicts (policy ∷ policies) = verdicts_on policy.effect policy policy.events ++ verdicts policies

  -- the first verdict that ends the loops is the one of a test that raises
  abbrev pub raises_first : List Policy → Bool
  raises_first policies = is_raised (find_first stops (verdicts policies))

  abbrev pub some_event : Policy → Bool
  some_event policy = any (λ event. is_yes (applies policy event)) policy.events

  abbrev pub denies : Policy → Bool
  denies policy = is_deny policy.effect && some_event policy

  abbrev pub allows : Policy → Bool
  allows policy = not (is_deny policy.effect) && some_event policy

  events_any :
      (g : Bool → Bool) (effect : Effect) (policy : Policy) (events : List Event)
      → (any (λ (v : Verdict). g (is_deny v.0) && is_yes v.1) (verdicts_on effect policy events))
        ≡ (g (is_deny effect) && any (λ event. is_yes (applies policy event)) events)
  events_any g effect policy [] = ground arith
  events_any g effect policy (event ∷ events) = ground (arith, events_any g effect policy events)

  policies_any :
      (g : Bool → Bool) (policies : List Policy)
      → (any (λ (v : Verdict). g (is_deny v.0) && is_yes v.1) (verdicts policies))
        ≡ any (λ policy. g (is_deny policy.effect) && some_event policy) policies
  policies_any g [] = refl
  policies_any g (policy ∷ policies) =
      any-append (λ (v : Verdict). g (is_deny v.0) && is_yes v.1)
        (verdicts_on policy.effect policy policy.events) (verdicts policies)
      ∙ ground (arith, events_any g policy.effect policy policy.events, policies_any g policies)

  pub denies-any : (policies : List Policy) → any refuses (verdicts policies) ≡ any denies policies
  denies-any policies = policies_any (λ b. b) policies

find_first-after :
    (p : Verdict → Bool) (xs ys : List Verdict)
    → find_first p (xs ++ ys)
      ≡ (elim (find_first p xs) [ none ↦ find_first p ys | some v ↦ some v ])
find_first-after p [] ys = refl
find_first-after p (x ∷ xs) ys = elim (Bool-cases (p x)) [
  | inl here ↦ rw here refl
  | inr later ↦ rw later (find_first-after p xs ys)
]

-- how the loops end, after these verdicts, `first` being whether there was a permission before
Ends : Step → List Verdict → Bool → Type 0
Ends (returns decision) vs first =
    (decision.allowed ≡ false) × (find_first stops vs ≡ some (deny, some true))
Ends raises vs first = (effect : Effect) × (find_first stops vs ≡ some (effect, none))
Ends (goes_on state) vs first =
    (find_first stops vs ≡ none) × (is_some state.first_allow ≡ (first || any permits vs))

Ends-next :
    (s : Step) (k : State → Step) (vs ws : List Verdict) (first : Bool)
    → Ends s vs first
    → ((next : State) → Ends (k next) ws (is_some next.first_allow))
    → Ends (and_next s k) (vs ++ ws) first
unfolding Ends and_next
Ends-next (returns decision) k vs ws first (refused, found) rest =
    (refused, find_first-after stops vs ws ∙ (rw found refl))
Ends-next raises k vs ws first (effect, found) rest =
    (effect, find_first-after stops vs ws ∙ (rw found refl))
Ends-next (goes_on next) k vs ws first (passed, permitted) rest =
    later (k next) (find_first-after stops vs ws ∙ (rw passed refl))
      (ground (arith, permitted, any-append permits vs ws)) (rest next)
  where
    later :
        (s : Step)
        → find_first stops (vs ++ ws) ≡ find_first stops ws
        → (is_some next.first_allow || any permits ws) ≡ (first || any permits (vs ++ ws))
        → Ends s ws (is_some next.first_allow)
        → Ends s (vs ++ ws) first
    later (returns decision) same _ (refused, found) = (refused, same ∙ found)
    later raises same _ (effect, found) = (effect, same ∙ found)
    later (goes_on state) same permitted' (passed, p) = (same ∙ passed, p ∙ permitted')

module _ (warnings : List String) (applies : Policy → Event → Option Bool) where
  matched-Ends :
      (effect : Effect) (policy : Policy) (event : Event) (state : State)
      → Ends
          (matched warnings applies effect policy event state)
          ((effect, some true) ∷ [])
          (is_some state.first_allow)
  unfolding Ends matched
  matched-Ends deny policy event state = (refl, refl)
  matched-Ends allow policy event state =
      (refl, is_some-or_first state.first_allow (policy.policy_id, event.event_id))
    where
      is_some-or_first :
          (first : Option (String × String)) (ids : String × String)
          → is_some (or_first first ids) ≡ (is_some first || true)
      is_some-or_first none ids = refl
      is_some-or_first (some f) ids = refl

  first-Ends :
      (answer : Option Bool) (policy : Policy) (event : Event) (state : State)
      → Ends
          (visited warnings applies answer policy event state)
          ((policy.effect, answer) ∷ [])
          (is_some state.first_allow)
  unfolding Ends visited
  first-Ends none policy event state = (policy.effect, refl)
  first-Ends (some false) policy event state = (ground arith, ground arith)
  first-Ends (some true) policy event state = matched-Ends policy.effect policy event state

  events-Ends :
      (policy : Policy) (events : List Event) (state : State)
      → Ends
          (visit_events warnings applies policy events state)
          (verdicts_on applies policy.effect policy events)
          (is_some state.first_allow)
  unfolding visit_events Ends
  events-Ends policy [] state = (refl, ground arith)
  events-Ends policy (event ∷ events) state =
      Ends-next _ _ ((policy.effect, applies policy event) ∷ []) _ _
        (first-Ends (applies policy event) policy event state)
        (λ next. events-Ends policy events next)

  policies-Ends :
      (policies : List Policy) (state : State)
      → Ends
          (visit_policies warnings applies policies state)
          (verdicts applies policies)
          (is_some state.first_allow)
  unfolding visit_policies Ends
  policies-Ends [] state = (refl, ground arith)
  policies-Ends (policy ∷ policies) state =
      Ends-next _ _ (verdicts_on applies policy.effect policy policy.events) _ _
        (events-Ends policy policy.events state) (λ next. policies-Ends policies next)

  conclude :
      (first : Option (String × String)) (state : State)
      → (concluded warnings applies first state).allowed ≡ is_some first
  unfolding concluded
  conclude none state = refl
  conclude (some f) state = refl

  -- no denial stands where none ends the loops
  no_refusal : (vs : List Verdict) → find_first stops vs ≡ none → any refuses vs ≡ false
  no_refusal [] h = refl
  no_refusal ((effect, none) ∷ vs) h = absurd (cc h)
  no_refusal ((effect, some b) ∷ vs) h = ground (arith, no_refusal vs)

  refused :
      (vs : List Verdict) → find_first stops vs ≡ some (deny, some true) → any refuses vs ≡ true
  refused [] h = absurd (cc h)
  refused ((effect, none) ∷ vs) h = absurd (cc h)
  refused ((effect, some b) ∷ vs) h = ground (arith, refused vs)

  -- For any test of an event, which may raise: if in the order of the loops the first event whose test
  -- raises comes before every event of a DENY policy that applies, the evaluator raises. Else it answers,
  -- and allows the request exactly if some policy with the effect ALLOW has an event that applies and no
  -- policy with the effect DENY has one, whatever the order of the policies.
  pub evaluate-overrides :
      (policies : List Policy)
      → ((raises_first applies policies ≡ true) × (evaluate warnings applies policies ≡ none))
        ⊎ ((raises_first applies policies ≡ false)
            × (d : Decision) × (evaluate warnings applies policies ≡ some d)
            × (d.allowed ≡ (not (any (denies applies) policies) && any (allows applies) policies)))
  unfolding evaluate ended Ends
  evaluate-overrides policies =
      go (visit_policies warnings applies policies (start warnings applies))
        (policies-Ends policies (start warnings applies))
    where
      go :
          (s : Step)
          → Ends s (verdicts applies policies) false
          → ((raises_first applies policies ≡ true) × (ended warnings applies s ≡ none))
            ⊎ ((raises_first applies policies ≡ false)
                × (d : Decision) × (ended warnings applies s ≡ some d)
                × (d.allowed
                    ≡ (not (any (denies applies) policies) && any (allows applies) policies)))
      go raises (effect, found) = inl (rw found refl, refl)
      go (returns decision) (shut, found) = inr (
        rw found refl,
        decision,
        refl,
        ground (
          arith,
          shut,
          refused (verdicts applies policies) found,
          policies_any applies (λ b. b) policies,
        ),
      )
      go (goes_on state) (passed, permitted) = inr (
        rw passed refl,
        concluded warnings applies state.first_allow state,
        refl,
        conclude state.first_allow state
            ∙ permitted
            ∙ ground (
              arith,
              no_refusal (verdicts applies policies) passed,
              policies_any applies (λ b. b) policies,
              policies_any applies not policies,
            ),
      )
