-- ===== src/Abac/Tests.antt =====
-- Patterns and a small set of policies, and runs of the properties on them.
use Prim.Native.Char.{Char}
use xolo_api.Base.{
  String, ◌≡◌, refl, ◌↔◌, Bool, true, false, not, ◌&&◌, ◌||◌, List, [], ◌∷◌, any, Option, none,
  some, ◌⊎◌, ◌==◌, if◌then◌else◌,
}
use xolo_api.Abac.Types.{allow, deny, Effect, glob_v2, wildcard, Event, Policy, Decision}
use xolo_api.Abac.Pattern.{glob, Matches, glob-Matches}
use xolo_api.Abac.Evaluator.{evaluate}
use xolo_api.Abac.Evaluator.Overrides.{raises_first, denies, allows, evaluate-overrides}

abbrev same : Char → Char → Bool
same c d = String.◌∷◌ c String.[] == String.◌∷◌ d String.[]

star_takes : glob same "doc/*" "doc/a" ≡ true
unfolding glob
star_takes = refl

glob-Matches_example : (glob same "doc/*" "doc/a" ≡ true) ↔ Matches same "doc/*" "doc/a"
glob-Matches_example = glob-Matches same "doc/*" "doc/a"

abbrev event : String → String → Event
event id subject = record {
  event_id = id;
  subject = subject;
  resource = "*";
  location = record { center = none; radius_km = "1.0" };
  time = record { mode = wildcard; start = none; end = none };
  action = "*";
}

abbrev policy : String → Effect → String → Policy
policy id effect subject = record {
  account_id = "acme";
  policy_id = id;
  name = id;
  effect = effect;
  events = event id subject ∷ [];
  matcher_version = glob_v2;
  timezone = "UTC";
}

-- an event applies to bob
abbrev to_bob : Policy → Event → Option Bool
to_bob p e = some (e.subject == "bob" || e.subject == "*")

abbrev everyone_but_bob : List Policy
everyone_but_bob = policy "p1" allow "*" ∷ policy "p2" deny "bob" ∷ []

abbrev allowed_by : Option Decision → Option Bool
allowed_by none = none
allowed_by (some d) = some d.allowed

bob_denied : allowed_by (evaluate [] to_bob everyone_but_bob) ≡ some false
unfolding evaluate
bob_denied = refl

-- a test that raises on the second policy alone
abbrev strained : Policy → Event → Option Bool
strained p e = if p.policy_id == "p2" then none else some true

raised_last : evaluate [] strained everyone_but_bob ≡ none
unfolding evaluate
raised_last = refl

-- the early return of a denial comes first
denied_first :
    allowed_by (evaluate [] strained (policy "p0" deny "*" ∷ everyone_but_bob)) ≡ some false
unfolding evaluate
denied_first = refl

evaluate-overrides_example :
    ((raises_first to_bob everyone_but_bob ≡ true) × (evaluate [] to_bob everyone_but_bob ≡ none))
    ⊎ ((raises_first to_bob everyone_but_bob ≡ false)
        × (d : Decision) × (evaluate [] to_bob everyone_but_bob ≡ some d)
        × (d.allowed
            ≡ (not (any (denies to_bob) everyone_but_bob) && any (allows to_bob) everyone_but_bob)))
evaluate-overrides_example = evaluate-overrides [] to_bob everyone_but_bob
