-- ===== src/Acl/Listing.antt =====
-- The pages of the owned and of the shared resources, where no outage strikes.
use xolo_api.Base.{
  String, ℕ, suc, ◌+◌, ◌-◌, ◌*◌, ◌≤◌, ◌<◌, ◌≡◌, refl, ap, ◌∙◌, Bool, List, filter, length, count,
  arith,
}
use xolo_api.Exec.{ok}
use xolo_api.Platform.Mongo.{Mongo}
use xolo_api.Platform.Pages.{
  PageResult, total_pages, enough_pages, tight_pages, size_on, length-page_of,
}
use xolo_api.World.{Database, World, IsCalm}
use xolo_api.World.Calm.{Yields, Yields-pure, Yields-query, Yields-raise_if, Yields-bind}
use xolo_api.Acl.Types.{ResourcePolicy}
use xolo_api.Acl.Repository.{
  is_owned_by, is_shared_with, find_page, find_owned_by, find_shared_with,
}
use xolo_api.Acl.Reading.{get_owned_resources_page, get_shared_resources_page}

-- A page of a listing, which MongoDB gives in no promised order: the total is that of the listing, and the
-- pages that the result counts are just enough for it; the page has as many items as its place leaves,
-- and none more often than the listing has it.
pub record IsPageOf (listing : List ResourcePolicy) (k size : ℕ) (r : PageResult ResourcePolicy)
    : Type 0 where
  pub counted : r.total ≡ length listing
  pub enough : length listing ≤ total_pages r * size
  pub tight : total_pages r * size < length listing + size
  pub full : length r.items ≡ size_on (length listing) k size
  pub drawn : (q : ResourcePolicy → Bool) → count q r.items ≤ count q listing

module _ ⦃mongo : Mongo⦄ where
  abbrev page_in : (ResourcePolicy → Bool) → ℕ → ℕ → Database → PageResult ResourcePolicy
  page_in wanted k s db = record {
    items = mongo.find_page wanted ((suc k - 1) * suc s) (suc s) db.policies;
    total = mongo.count_documents wanted db.policies;
    page = suc k;
    size = suc s;
  }

  page_in-IsPageOf :
      (wanted : ResourcePolicy → Bool) (k s : ℕ) (db : Database)
      → IsPageOf (filter wanted db.policies) k (suc s) (page_in wanted k s db)
  page_in-IsPageOf wanted k s db =
      let listing : List ResourcePolicy = filter wanted db.policies in
      let before : suc k - 1 ≡ k = omega arith in
      record {
        counted = mongo.count_documents_law wanted db.policies;
        enough =
            rw (mongo.count_documents_law wanted db.policies) (enough_pages (length listing) s);
        tight =
            rw (mongo.count_documents_law wanted db.policies)
              (omega (arith, tight_pages (length listing) s));
        full =
            mongo.find_page_size_law wanted ((suc k - 1) * suc s) (suc s) db.policies
            ∙ length-page_of (suc k - 1) s listing
            ∙ ap (λ (j : ℕ). size_on (length listing) j (suc s)) before;
        drawn = mongo.find_page_count_law wanted ((suc k - 1) * suc s) (suc s) db.policies;
      }

  find_page-Yields :
      (wanted : ResourcePolicy → Bool) (k s : ℕ)
      → Yields
          (find_page wanted (suc k) (suc s))
          (λ db. ((page_in wanted k s db).items, (page_in wanted k s db).total))
  unfolding find_page
  find_page-Yields wanted k s =
      Yields-bind _ (λ db. mongo.count_documents wanted db.policies) _
        (λ total db. (mongo.find_page wanted ((suc k - 1) * suc s) (suc s) db.policies, total))
        (Yields-query _)
        (λ total.
          Yields-bind _ (λ _. tt) _
            (λ _ db. (mongo.find_page wanted ((suc k - 1) * suc s) (suc s) db.policies, total))
            (Yields-raise_if _ _ refl)
            (λ _.
              Yields-bind _ (λ db. mongo.find_page wanted ((suc k - 1) * suc s) (suc s) db.policies)
                _ (λ docs _. (docs, total)) (Yields-query _) (λ docs. Yields-pure _)))

  -- Where no outage strikes, a page of the owned and one of the shared resources, numbered from 1 and of
  -- a positive size, are answered, and are pages of the policies of the account that have an owner's grant
  -- to the user, and of those that have a grant to one of the principals and are not excluded: the total is
  -- their number, the pages counted are just enough for it, the page has as many items as its number
  -- leaves for it, and no item more often than they have it. Which of them stand on which page is open,
  -- since the query has no order.
  pub get_page-IsPageOf :
      (account_id user_id : String) (principal_ids exclude_ids : List String) (k s : ℕ) (w : World)
      → IsCalm w
      → ((r : PageResult ResourcePolicy) × ((get_owned_resources_page account_id user_id
              (suc k)
              (suc s)
              w).0
            ≡ ok r)
          × IsPageOf (filter (is_owned_by account_id user_id) w.db.policies) k (suc s) r)
        × ((r : PageResult ResourcePolicy) × ((get_shared_resources_page account_id principal_ids
                exclude_ids
                (suc k)
                (suc s)
                w).0
              ≡ ok r)
            × IsPageOf
                (filter (is_shared_with account_id principal_ids exclude_ids) w.db.policies)
                k
                (suc s)
                r)
  unfolding get_owned_resources_page get_shared_resources_page find_owned_by find_shared_with
  get_page-IsPageOf account_id user_id principal_ids exclude_ids k s w calm = (
    (
      page_in (is_owned_by account_id user_id) k s w.db,
      ((Yields-bind _ _ _
            (λ found _. record { items = found.0; total = found.1; page = suc k; size = suc s })
            (find_page-Yields (is_owned_by account_id user_id) k s) (λ found. Yields-pure _)).at
          w calm).0,
      page_in-IsPageOf (is_owned_by account_id user_id) k s w.db,
    ),
    (
      page_in (is_shared_with account_id principal_ids exclude_ids) k s w.db,
      ((Yields-bind _ _ _
            (λ found _. record { items = found.0; total = found.1; page = suc k; size = suc s })
            (find_page-Yields (is_shared_with account_id principal_ids exclude_ids) k s)
            (λ found. Yields-pure _)).at
          w calm).0,
      page_in-IsPageOf (is_shared_with account_id principal_ids exclude_ids) k s w.db,
    ),
  )
