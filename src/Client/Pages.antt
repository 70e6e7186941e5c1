-- ===== src/Client/Pages.antt =====
-- ecommerce_super/easyecom/client/client.py: the walk over the pages of a bulk endpoint. Fetching a page
-- is an argument; the address of a page is the JSON value that the page before gave. The walk is a
-- generator without a bound of its own, so it is cut off after a number of pages: the fuel.
pub mod Walk
use ecommerce_super.Base.{
  ℕ, zero, suc, ◌+◌, String, Bool, false, Option, none, some, List, [], ◌∷◌, leb, if◌then◌else◌,
  Result, ok, err,
}
use ecommerce_super.Payload.{Json, dict, Entries, get}
use ecommerce_super.Client.Retry.{CallError}
use ecommerce_super.Client.Response.{is_true}

abbrev pub next_keys : List String
next_keys = "next_page_url" ∷ "nextPageUrl" ∷ "next_page" ∷ "next" ∷ "nextUrl" ∷ []

-- The value of a field where it is there and true.
abbrev pub true_value : Option Json → Option Json
true_value none = none
true_value (some v) = if is_true v then some v else none

abbrev pub first_of : Option Json → Option Json → Option Json
first_of (some v) o = some v
first_of none o = o

unfoldable pub first_true : List String → Entries → Option Json
unfolding is_true get
first_true [] es = none
first_true (k ∷ ks) es = first_of (true_value (get k es)) (first_true ks es)

abbrev pub inside : Option Json → Option Json
inside (some (dict es)) = first_true next_keys es
inside _ = none

-- `_extract_next_page_url`: at the top, then inside `data`.
unfoldable pub extract_next_page_url : Entries → Option Json
unfolding first_true
extract_next_page_url page = first_of (first_true next_keys page) (inside (get "data" page))

pub data PagesEnd : Type 0 where
  finished : PagesEnd
  failed : CallError → PagesEnd
  unfinished : PagesEnd

-- `max_pages is not None and pages_seen >= max_pages`
unfoldable pub enough_pages : Option ℕ → ℕ → Bool
enough_pages none seen = false
enough_pages (some m) seen = leb m seen

abbrev pub and_page : Entries → List Entries × PagesEnd → List Entries × PagesEnd
and_page page (pages, end) = (page ∷ pages, end)

-- What follows a page, by the address that it gives; `go` is the rest of the walk.
unfoldable pub after_page :
    Option ℕ → ℕ → Option Json → (Json → List Entries × PagesEnd) → List Entries × PagesEnd
unfolding enough_pages
after_page max_pages seen none go = ([], finished)
after_page max_pages seen (some url) go =
    if enough_pages max_pages seen then ([], finished) else go url

unfoldable pub after_fetch :
    Option ℕ
    → ℕ
    → Result CallError Entries
    → (Json → List Entries × PagesEnd)
    → List Entries × PagesEnd
unfolding after_page extract_next_page_url
after_fetch max_pages seen (err e) go = ([], failed e)
after_fetch max_pages seen (ok page) go =
    and_page page (after_page max_pages (seen + 1) (extract_next_page_url page) go)

module _ (fetch : Option Json → Result CallError Entries) where
  -- The loop: the pages that it yields, from an address and the pages seen so far.
  unfoldable pub walk : ℕ → Option ℕ → ℕ → Option Json → List Entries × PagesEnd
  unfolding after_fetch
  walk zero max_pages seen url = ([], unfinished)
  walk (suc fuel) max_pages seen url =
      after_fetch max_pages seen (fetch url) (λ next. walk fuel max_pages (seen + 1) (some next))

  unfoldable pub paginated : ℕ → Option ℕ → List Entries × PagesEnd
  unfolding walk
  paginated fuel max_pages = walk fuel max_pages 0 none
