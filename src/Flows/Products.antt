-- ===== src/Flows/Products.antt =====
-- ecommerce_super/easyecom/flows/item_pull.py: the walk over the pages of EasyEcom's products. The server is an argument: what
-- it answers to a cursor, or to a first request with its watermark.
pub mod Dedupe
pub mod Catalogue
pub mod Upsert
pub mod Processed
pub mod Linked
pub mod Resume
pub mod Watermark
use ecommerce_super.Base.{
  ℕ, zero, suc, ◌+◌, String, Bool, true, false, ◌&&◌, ◌||◌, not, Option, none, some, List, [], ◌∷◌,
  ◌++◌, map, str_eq, if◌then◌else◌, length, has, lookup, Result, ok, err, ◌>>=◌,
}

-- A record of a page; no SKU is the empty text.
pub record Product : Type 0 where
  pub sku : String
  pub company_name : String
  pub body : ℕ

-- What stands in a page's list of records: a dict, or another value that is false or true in a test.
pub data Entry : Type 0 where
  product : Product → Entry
  no_dict : (is_truthy : Bool) → Entry

-- The loops over the records skip one that is no dict.
abbrev pub as_product : Entry → Option Product
as_product (product r) = some r
as_product (no_dict is_truthy) = none

-- `(r or {}).get` raises AttributeError on it.
abbrev pub has_no_get : Entry → Bool
has_no_get (product r) = false
has_no_get (no_dict is_truthy) = is_truthy

unfoldable pub any_without_get : List Entry → Bool
any_without_get [] = false
any_without_get (e ∷ entries) = let rest = any_without_get entries in has_no_get e || rest

-- `by_sku[sku] = r` on a dict.
unfoldable pub put_by : String → Product → List (String × Product) → List (String × Product)
put_by sku r [] = (sku, r) ∷ []
put_by sku r ((j, q) ∷ by_sku) =
    let rest = put_by sku r by_sku in if str_eq j sku then (j, r) ∷ by_sku else (j, q) ∷ rest

abbrev pub is_some : Option Product → Bool
is_some none = false
is_some (some r) = true

-- `sku in by_sku`
abbrev pub in_dict : String → List (String × Product) → Bool
in_dict sku by_sku = is_some (lookup sku by_sku)

-- The loop without a primary location.
unfoldable pub first_seen :
    List (Option Product) → List (String × Product) → List (String × Product)
unfolding put_by
first_seen [] seen = seen
first_seen (none ∷ records) seen = first_seen records seen
first_seen (some r ∷ records) seen =
    let kept = first_seen records seen in
    let added = first_seen records (put_by (r.sku) r seen) in
    if not (str_eq (r.sku) "") && not (in_dict (r.sku) seen) then added else kept

-- The loop with one.
unfoldable pub prefer :
    String
    → List (Option Product)
    → List (String × Product)
    → (primary_seen : List String) → List (String × Product)
unfolding put_by
prefer primary [] by_sku primary_seen = by_sku
prefer primary (none ∷ records) by_sku primary_seen = prefer primary records by_sku primary_seen
prefer primary (some r ∷ records) by_sku primary_seen =
    let kept = prefer primary records by_sku primary_seen in
    let master = prefer primary records (put_by (r.sku) r by_sku) (r.sku ∷ primary_seen) in
    let fallback = prefer primary records (put_by (r.sku) r by_sku) primary_seen in
    if str_eq (r.sku) ""
    then kept
    else if str_eq (r.company_name) primary
    then master
    else if not (has (r.sku) primary_seen) && not (in_dict (r.sku) by_sku)
    then fallback
    else kept

-- The dict of `_dedupe_to_primary_location`, which returns its values.
unfoldable pub dedupe_to_primary_location : String → List (Option Product) → List (String × Product)
unfolding first_seen prefer
dedupe_to_primary_location primary records =
    if str_eq primary "" then first_seen records [] else prefer primary records [] []

abbrev pub values : List (String × Product) → List Product
values by_sku = map (λ (sku, r). r) by_sku

-- A response; `data` that is no list is none. `nextUrl` may be the empty text.
pub record Page : Type 0 where
  pub records : Option (List Entry)
  pub next_url : Option String

-- `_normalise_page_data`
abbrev pub normalise_page_data : Option (List Entry) → List Entry
normalise_page_data none = []
normalise_page_data (some records) = records

-- The fields of the account that a pull reads and writes.
pub record Account : Type 0 where
  pub item_pull_cursor : Option String
  pub item_pull_last_updated_at : Option ℕ

-- `PullOutcome`, as far as the pull itself reads it.
pub record PullOutcome (F : Type 0) : Type 0 where
  pub page_failures : List F
  pub pages_walked : ℕ
  pub products_processed : ℕ
  pub last_cursor : Option String

-- What a request asks for: a page by its cursor, or the first one.
pub data Request : Type 0 where
  at_cursor : String → Request
  from_start : (updated_after : Option ℕ) → Request

-- What the walk has when it stops; it stops early when a request raises.
pub record Walk (S F E : Type 0) : Type 0 where
  pub content : S
  pub account : Account
  pub outcome : PullOutcome F
  pub raised : Option E

-- What a pull is called with: `fetch` is the client, `process_page` handles the products of a page under
-- savepoints and returns the failures, `attribute_error` is what Python raises, `now` is the clock at the end.
pub record Pull (S F E : Type 0) : Type 0 where
  pub fetch : Request → Result E Page
  pub process_page : List Product → S → S × List F
  pub primary_location : String
  pub attribute_error : E
  pub now : ℕ

module _ {S F E : Type 0} (p : Pull S F E) where
  abbrev pub request : Option String → Option ℕ → Request
  request none updated_after = from_start updated_after
  request (some cursor) updated_after = at_cursor cursor

  abbrev pub products_of : Page → List Product
  products_of page = values (
      dedupe_to_primary_location (p.primary_location)
        (map as_product (normalise_page_data (page.records))))

  -- Without a primary location, the records of a page are read before their type is known.
  unfoldable pub read_records : Page → Result E Page
  unfolding any_without_get
  read_records page =
      if str_eq (p.primary_location) "" && any_without_get (normalise_page_data (page.records))
      then err (p.attribute_error)
      else ok page

  -- A response whose records can be read, or what is raised; nothing is done in between.
  unfoldable pub response : Request → Result E Page
  unfolding read_records
  response r = p.fetch r >>= read_records

  -- The body of the loop over the pages.
  abbrev pub advanced : Page → S → Account → PullOutcome F → Walk S F E
  advanced page content account outcome = record {
    content = (p.process_page (products_of page) content).0;
    account = record account { item_pull_cursor = page.next_url };
    outcome = record {
      page_failures = outcome.page_failures ++ (p.process_page (products_of page) content).1;
      pages_walked = outcome.pages_walked + 1;
      products_processed = outcome.products_processed + length (products_of page);
      last_cursor = page.next_url;
    };
    raised = none;
  }

  -- `if not current_cursor ...: return`; an empty cursor ends the walk as well.
  abbrev pub go_on : Option String → Walk S F E → (String → Walk S F E) → Walk S F E
  go_on none w next = w
  go_on (some cursor) w next = if str_eq cursor "" then w else next cursor

  -- The loop from a response on, with at most so many pages after it.
  unfoldable pub follow_pages : ℕ → Result E Page → S → Account → PullOutcome F → Walk S F E
  unfolding response
  follow_pages left (err e) content account outcome = record {
    content = content;
    account = account;
    outcome = outcome;
    raised = some e;
  }
  follow_pages zero (ok page) content account outcome = advanced page content account outcome
  follow_pages (suc left) (ok page) content account outcome =
      let done = advanced page content account outcome in
      go_on (page.next_url) done (λ cursor.
        follow_pages left (response (at_cursor cursor)) (done.content) (done.account)
          (done.outcome))

  -- The pages of `_iter_pages` in the loop of the pull, at most `suc left` of them.
  unfoldable pub walk : ℕ → Option String → Option ℕ → S → Account → PullOutcome F → Walk S F E
  unfolding follow_pages
  walk left cursor updated_after content account outcome =
      follow_pages left (response (request cursor updated_after)) content account outcome

  abbrev pub not_empty : Option String → Option String
  not_empty none = none
  not_empty (some cursor) = if str_eq cursor "" then none else some cursor

  -- `_resolve_starting_cursor`
  abbrev pub resolve_starting_cursor : Account → Bool → Option String
  resolve_starting_cursor account true = none
  resolve_starting_cursor account false = not_empty (account.item_pull_cursor)

  abbrev pub watermark_of : Account → Bool → Option ℕ
  watermark_of account true = none
  watermark_of account false = account.item_pull_last_updated_at

  -- `start_fresh` wipes the stored cursor first.
  abbrev pub prepared : Account → Bool → Account
  prepared account true = record account { item_pull_cursor = none }
  prepared account false = account

  abbrev pub new_outcome : PullOutcome F
  new_outcome = record {
    page_failures = [];
    pages_walked = 0;
    products_processed = 0;
    last_cursor = none;
  }

  -- The end of a clean walk.
  abbrev pub clean_walk : Option E → Option String → List F → Account → Account
  clean_walk none none [] account = record account {
    item_pull_cursor = none;
    item_pull_last_updated_at = some (p.now);
  }
  clean_walk raised last_cursor failures account = account

  abbrev pub finished : Walk S F E → Walk S F E
  finished w = record w {
    account = clean_walk (w.raised) (w.outcome.last_cursor) (w.outcome.page_failures) (w.account);
  }

  -- `pull_products`, of `suc left` pages at most.
  unfoldable pub pull_products : ℕ → (start_fresh : Bool) → S → Account → Walk S F E
  unfolding walk
  pull_products left start_fresh content account = finished (
      walk left (resolve_starting_cursor account start_fresh) (watermark_of account start_fresh)
        content (prepared account start_fresh) new_outcome)
