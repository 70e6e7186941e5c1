-- ===== src/Client/Pages/Walk.antt =====
-- ecommerce_super/easyecom/client/client.py: how far `paginated` goes and which pages it yields.
use ecommerce_super.Base.{
  ℕ, zero, suc, ◌+◌, ◌-◌, ◌≤◌, ◌<◌, max, ◌≡◌, refl, ap, ◌≢◌, inl, inr, Option, none, some, List, [],
  ◌∷◌, arith, leb, Bool-cases, length, Result, ok, err,
}
use ecommerce_super.Payload.{Json, Entries}
use ecommerce_super.Client.Retry.{CallError}
use ecommerce_super.Client.Pages.{
  PagesEnd, finished, unfinished, enough_pages, and_page, after_page, after_fetch, walk, paginated,
  extract_next_page_url,
}

-- The walk stopped by itself, with at most `n` pages.
abbrev pub StopsWithin : ℕ → List Entries × PagesEnd → Type 0
StopsWithin n (pages, end) = (end ≢ unfinished) × (length pages ≤ n)

after_page-StopsWithin :
    (m seen : ℕ) (next : Option Json) (go : Json → List Entries × PagesEnd)
    → ((url : Json) → seen < m → StopsWithin (m - seen) (go url))
    → StopsWithin (m - seen) (after_page (some m) seen next go)
unfolding after_page enough_pages
after_page-StopsWithin m seen none go h = (λ e. cc, omega arith)
after_page-StopsWithin m seen (some url) go h = elim (Bool-cases (leb m seen)) [
  | inl e ↦ rw e (λ e. cc, omega arith)
  | inr e ↦ rw e (h url (ground arith))
]

and_page-StopsWithin :
    (page : Entries) (n : ℕ) (r : List Entries × PagesEnd)
    → StopsWithin n r
    → StopsWithin (n + 1) (and_page page r)
and_page-StopsWithin page n (pages, end) h = (h.0, omega (arith, h.1))

after_fetch-StopsWithin :
    (m seen : ℕ) (reply : Result CallError Entries) (go : Json → List Entries × PagesEnd)
    → ((url : Json) → seen + 1 < m → StopsWithin (m - (seen + 1)) (go url))
    → StopsWithin (m - (seen + 1) + 1) (after_fetch (some m) seen reply go)
unfolding after_fetch
after_fetch-StopsWithin m seen (err e) go h = (λ e. cc, omega arith)
after_fetch-StopsWithin m seen (ok page) go h =
    and_page-StopsWithin page (m - (seen + 1)) _
      (after_page-StopsWithin m (seen + 1) (extract_next_page_url page) go h)

-- The addresses lead from one page to the next, and the last page gives none.
pub data Chain (fetch : Option Json → Result CallError Entries)
    : Option Json → List Entries → Type 0 where
  last :
      {url : Option Json} (page : Entries)
      → fetch url ≡ ok page
      → extract_next_page_url page ≡ none
      → Chain fetch url (page ∷ [])
  more :
      {url : Option Json} {pages : List Entries} (page : Entries) (next : Json)
      → fetch url ≡ ok page
      → extract_next_page_url page ≡ some next
      → Chain fetch (some next) pages
      → Chain fetch url (page ∷ pages)

module _ (fetch : Option Json → Result CallError Entries) where
  walk-StopsWithin :
      (fuel m seen : ℕ) (url : Option Json)
      → m ≤ fuel + 1 + seen
      → StopsWithin (m - (seen + 1) + 1) (walk fetch (suc fuel) (some m) seen url)
  unfolding walk
  walk-StopsWithin zero m seen url le =
      after_fetch-StopsWithin m seen (fetch url) _ (λ next lt. absurd (omega arith))
  walk-StopsWithin (suc k) m seen url le = after_fetch-StopsWithin m seen (fetch url) _ (λ next lt.
      let same : m - (seen + 1 + 1) + 1 ≡ m - (seen + 1) = omega arith in
      rw same at (walk-StopsWithin k m (seen + 1) (some next) (omega arith)))

  -- With `max_pages`, whatever the pages are and even if their addresses go in a circle, the walk ends
  -- within `max_pages` pages, or after one if that is 0; fuel for them is enough.
  pub paginated-StopsWithin : (m : ℕ) → StopsWithin (max 1 m) (paginated fetch (max 1 m) (some m))
  unfolding paginated
  paginated-StopsWithin zero = walk-StopsWithin 0 0 0 none (omega arith)
  paginated-StopsWithin (suc k) =
      let all : max 1 (suc k) ≡ suc k = omega arith in
      let same : suc k - (0 + 1) + 1 ≡ suc k = omega arith in
      rw all (rw same at (walk-StopsWithin k (suc k) 0 none (omega arith)))

  walk-Chain :
      (pages : List Entries) (seen : ℕ) (url : Option Json)
      → Chain fetch url pages
      → walk fetch (length pages) none seen url ≡ (pages, finished)
  unfolding walk after_fetch after_page enough_pages
  walk-Chain _ seen url (last page q n) = rw (q, n) refl
  walk-Chain _ seen url (more {pages = pages} page next q n rest) =
      rw (q, n) (ap (and_page page) (walk-Chain pages (seen + 1) (some next) rest))

  -- Without `max_pages`, the walk yields the pages of a chain in order, and ends after the last.
  pub paginated-Chain :
      (pages : List Entries)
      → Chain fetch none pages
      → paginated fetch (length pages) none ≡ (pages, finished)
  unfolding paginated
  paginated-Chain pages c = walk-Chain pages 0 none c
