-- ===== src/Abac/ServiceTests.antt =====
-- A calendar and a database with one policy, and runs of the properties of the service on them.
use Prim.Native.Char.{Char}
use xolo_api.Base.{◌≡◌, refl, Bool, true, false, [], ◌∷◌, all, filter, none, some}
use xolo_api.Exec.{ok, err}
use xolo_api.Platform.Mongo.{in_memory}
use xolo_api.Platform.Text.{caseless}
use xolo_api.World.{Database, empty, World}
use xolo_api.Abac.Types.{allow, glob_v2, wildcard, AccessRequest, Event, Policy}
use xolo_api.Abac.Events.{Calendar}
use xolo_api.Abac.Documents.{policy_from_doc, policies_from_docs, policy_to_doc}
use xolo_api.Abac.Documents.Laws.{is_valid, policy_from_doc-policy_to_doc}
use xolo_api.Abac.Repository.{is_of_account}
use xolo_api.Abac.Repository as Repository
use xolo_api.Abac.Service as Service
use xolo_api.Abac.Requests.{create_policy, delete_policy, handle, start, next, handle-others}
use xolo_api.Abac.Deciding.{Answer, evaluate_decides, find_by_id-save}

-- it reads no text, and every number is in range
abbrev blank : Calendar
blank = record {
  instant = λ _ _. none;
  time_at = λ _ _. 0;
  date_at = λ _ _. 0;
  time = λ _. none;
  date = λ _. none;
  has_offset = λ _. false;
  overflows = λ _ _. false;
  in_order = λ _ _. none;
  in_range = λ _ _ _. true;
  within = λ _ _ _. true;
}

abbrev same : Char → Char → Bool
same a b = true

abbrev anywhere : Event
anywhere = record {
  event_id = "e1";
  subject = "bob";
  resource = "*";
  location = record { center = some (record { lat = "19.4"; lng = "-99.1" }); radius_km = "1.0" };
  time = record { mode = wildcard; start = none; end = none };
  action = "*";
}

abbrev bob_anywhere : Policy
bob_anywhere = record {
  account_id = "acme";
  policy_id = "ap-1";
  name = "bob";
  effect = allow;
  events = anywhere ∷ [];
  matcher_version = glob_v2;
  timezone = "UTC";
}

events_valid : all (is_valid blank) bob_anywhere.events ≡ true
unfolding xolo_api.Abac.Documents.valid_point xolo_api.Abac.Documents.valid_radius
    xolo_api.Abac.Documents.valid_window
events_valid = refl

policy_from_doc-policy_to_doc_example :
    policy_from_doc blank (policy_to_doc 7 bob_anywhere) ≡ some bob_anywhere
policy_from_doc-policy_to_doc_example =
    policy_from_doc-policy_to_doc blank 7 bob_anywhere events_valid

abbrev calm_world : Database → World
calm_world db = record { db = db; calls = 0; outage = λ _. false }

find_by_id-save_example :
    (Repository.find_by_id ⦃mongo = in_memory⦄ blank "acme" "ap-1"
      (Repository.save ⦃mongo = in_memory⦄ 7 bob_anywhere (calm_world empty)).1).0
    ≡ ok (some bob_anywhere)
find_by_id-save_example =
    find_by_id-save ⦃mongo = in_memory⦄ blank 7 bob_anywhere (calm_world empty) (λ _. refl)
      events_valid

stored_world : World
stored_world =
    handle ⦃mongo = in_memory⦄ blank "acme" (create_policy "1" 7 "bob" allow (anywhere ∷ []) "UTC")
      (calm_world empty)

abbrev bob_asks : AccessRequest
bob_asks = record {
  subject = "bob";
  resource = "doc";
  location = none;
  time = none;
  action = "read";
}

evaluate_decides_example :
    Answer ⦃unicode = caseless⦄ blank same "acme" bob_asks stored_world.db
      (Service.evaluate ⦃mongo = in_memory⦄ blank ⦃unicode = caseless⦄ same "acme" bob_asks
        stored_world).0
unfolding stored_world handle Service.create_policy xolo_api.Exec.◌>>=◌ xolo_api.World.query
    xolo_api.World.command
evaluate_decides_example =
    evaluate_decides ⦃mongo = in_memory⦄ ⦃unicode = caseless⦄ blank same "acme" bob_asks
      stored_world (λ _. refl)

handle-others_example :
    filter
      (is_of_account "acme")
      (handle ⦃mongo = in_memory⦄ blank "globex"
        (delete_policy "ap-1")
        stored_world).db.abac_policies
    ≡ filter (is_of_account "acme") stored_world.db.abac_policies
unfolding handle stored_world
handle-others_example =
    handle-others ⦃mongo = in_memory⦄ blank "globex" "acme" (delete_policy "ap-1") stored_world
      (next "acme" (create_policy "1" 7 "bob" allow (anywhere ∷ []) "UTC") (calm_world empty)
        (start empty refl) refl)
      tt refl
