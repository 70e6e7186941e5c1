-- ===== src/Flows/Products/Watermark.antt =====
-- ecommerce_super/easyecom/flows/item_pull.py: the watermark of delta pulls after a pull that was interrupted.
use ecommerce_super.Base.{
  ℕ, zero, suc, ◌+◌, String, ◌≡◌, refl, sym, ap, ◌∙◌, ◌≢◌, Bool, true, false, Option, none, some,
  List, [], ◌∷◌, ◌++◌, str_eq, Result, ok, err,
}
use mathlib.Core.List.{append-nil, append_assoc}
use ecommerce_super.Flows.Products.{
  Page, Account, PullOutcome, Walk, Pull, at_cursor, from_start, Request, request, response,
  advanced, go_on, follow_pages, walk, not_empty, resolve_starting_cursor, watermark_of, prepared,
  new_outcome, clean_walk, pull_products,
}
use ecommerce_super.Flows.Products.Resume.{
  either_walk, follow_pages-GoesOn, resumed, pull_products-resumed,
}

module _ {S F E : Type 0} (p : Pull S F E) where
  -- What a walk counts as failed comes after what was counted before, and the watermark stays.
  abbrev Continues : PullOutcome F → Account → Walk S F E → Type 0
  Continues before account w =
      ((later : List F) × (w.outcome.page_failures ≡ before.page_failures ++ later))
      × (w.account.item_pull_last_updated_at ≡ account.item_pull_last_updated_at)

  go_on-Continues :
      (before : PullOutcome F) (account : Account) (next : Option String) (w : Walk S F E)
      (rest : String → Walk S F E)
      → Continues before account w
      → ((c : String) → Continues before account (rest c))
      → Continues before account (go_on p next w rest)
  go_on-Continues before account none w rest this later = this
  go_on-Continues before account (some c) w rest this later =
      either_walk p (Continues before account) (str_eq c "") w (rest c) this (later c)

  follow_pages-Continues :
      (left : ℕ) (r : Result E Page) (content : S) (account : Account) (outcome : PullOutcome F)
      → Continues outcome account (follow_pages p left r content account outcome)
  unfolding follow_pages
  follow_pages-Continues left (err e) content account outcome =
      (([], sym (append-nil (outcome.page_failures))), refl)
  follow_pages-Continues zero (ok page) content account outcome = ((_, refl), refl)
  follow_pages-Continues (suc left) (ok page) content account outcome =
      go_on-Continues outcome account (page.next_url) (advanced p page content account outcome) _
        ((_, refl), refl)
        (λ c.
          let ((later, found), kept) =
            follow_pages-Continues left (response p (at_cursor c))
              ((advanced p page content account outcome).content)
              ((advanced p page content account outcome).account)
              ((advanced p page content account outcome).outcome) in
          ((_, found ∙ append_assoc (outcome.page_failures) _ later), kept))

  some_failed :
      (before later : List F) (raised : Option E) (last : Option String) (account : Account)
      → before ≢ []
      → clean_walk p raised last (before ++ later) account ≡ account
  some_failed [] later raised last account failed = elim (failed refl) [ ]
  some_failed (f ∷ before) later none none account failed = refl
  some_failed (f ∷ before) later none (some c) account failed = refl
  some_failed (f ∷ before) later (some e) last account failed = refl

  failed_before :
      (failures before later : List F) (raised : Option E) (last : Option String)
      (account : Account)
      → failures ≡ before ++ later
      → before ≢ []
      → clean_walk p raised last failures account ≡ account
  failed_before failures before later raised last account found failed =
      ap (λ fs. clean_walk p raised last fs account) found
      ∙ some_failed before later raised last account failed

  set_when_clean :
      (raised : Option E) (last : Option String) (failures : List F) (account : Account)
      → raised ≡ none
      → last ≡ none
      → failures ≡ []
      → (clean_walk p raised last failures account).item_pull_last_updated_at ≡ some (p.now)
  set_when_clean none none [] account quiet ended clean = refl
  set_when_clean none none (f ∷ failures) account quiet ended clean = cc
  set_when_clean none (some c) failures account quiet ended clean = cc
  set_when_clean (some e) last failures account quiet ended clean = cc

  prepared-watermark :
      (account : Account) (start_fresh : Bool)
      → (prepared p account start_fresh).item_pull_last_updated_at
        ≡ account.item_pull_last_updated_at
  prepared-watermark account true = refl
  prepared-watermark account false = refl

  -- Where the next pull from an account begins, and from which watermark.
  abbrev pub next_request : Account → Request
  next_request account =
      request p (resolve_starting_cursor p account false) (watermark_of p account false)

  next_request_lem :
      (account : Account) (since : Option ℕ)
      → account.item_pull_cursor ≡ none
      → account.item_pull_last_updated_at ≡ since
      → next_request account ≡ from_start since
  next_request_lem account since ended same =
      ap (λ c. request p (not_empty p c) (account.item_pull_last_updated_at)) ended
      ∙ ap from_start same

  cursor_when_clean :
      (raised : Option E) (last : Option String) (failures : List F) (account : Account)
      → raised ≡ none
      → last ≡ none
      → failures ≡ []
      → (clean_walk p raised last failures account).item_pull_cursor ≡ none
  cursor_when_clean none none [] account quiet ended clean = refl
  cursor_when_clean none none (f ∷ failures) account quiet ended clean = cc
  cursor_when_clean none (some c) failures account quiet ended clean = cc
  cursor_when_clean (some e) last failures account quiet ended clean = cc

  -- One pull of as many pages keeps the watermark that it started with.
  whole_watermark :
      (n m : ℕ) (start_fresh : Bool) (content : S) (account : Account) (cursor : String)
      → str_eq cursor "" ≡ false
      → (pull_products p n start_fresh content account).raised ≡ none
      → (pull_products p n start_fresh content account).outcome.last_cursor ≡ some cursor
      → (pull_products p n start_fresh content account).outcome.page_failures ≢ []
      → (pull_products p (n + suc m) start_fresh content account).account.item_pull_last_updated_at
        ≡ account.item_pull_last_updated_at
  unfolding pull_products walk
  whole_watermark n m start_fresh content account cursor filled quiet last failed =
      let r = response p (
        request p (resolve_starting_cursor p account start_fresh)
          (watermark_of p account start_fresh)) in
      let first =
        walk p n (resolve_starting_cursor p account start_fresh)
          (watermark_of p account start_fresh) content (prepared p account start_fresh)
          (new_outcome p) in
      let whole =
        walk p (n + suc m) (resolve_starting_cursor p account start_fresh)
          (watermark_of p account start_fresh) content (prepared p account start_fresh)
          (new_outcome p) in
      let goes_on =
        follow_pages-GoesOn p n (n + suc m) m r content (prepared p account start_fresh)
          (new_outcome p) refl cursor filled quiet last in
      let ((later, found), _) =
        follow_pages-Continues m (response p (at_cursor cursor)) (first.content) (first.account)
          (first.outcome) in
      let (_, kept) =
        follow_pages-Continues (n + suc m) r content (prepared p account start_fresh)
          (new_outcome p) in
      ap (λ a. a.item_pull_last_updated_at)
        (failed_before (whole.outcome.page_failures) (first.outcome.page_failures) later
          (whole.raised) (whole.outcome.last_cursor) (whole.account)
          (ap (λ w. w.outcome.page_failures) goes_on ∙ found) failed)
      ∙ (kept ∙ prepared-watermark account start_fresh)

  -- A pull to the end without a failure: the next one asks for what changed since its end.
  clean_pull :
      (m : ℕ) (content : S) (account : Account)
      → (pull_products p m false content account).raised ≡ none
      → (pull_products p m false content account).outcome.last_cursor ≡ none
      → (pull_products p m false content account).outcome.page_failures ≡ []
      → ((pull_products p m false content account).account.item_pull_cursor ≡ none)
        × ((pull_products p m false content account).account.item_pull_last_updated_at
            ≡ some (p.now))
  unfolding pull_products
  clean_pull m content account clean ended none_failed =
      let w =
        walk p m (resolve_starting_cursor p account false) (watermark_of p account false) content
          (prepared p account false) (new_outcome p) in
      (
        cursor_when_clean (w.raised) (w.outcome.last_cursor) (w.outcome.page_failures) (w.account)
            clean ended none_failed,
        set_when_clean (w.raised) (w.outcome.last_cursor) (w.outcome.page_failures) (w.account)
            clean ended none_failed,
      )

  -- When products failed in a pull that its bound stopped at a cursor that is not empty, and the pull that resumes it comes
  -- to the end without a failure, the next pull asks for what changed since the end of the latter. After one pull of as many
  -- pages, the next asks for what changed since the watermark that the account had before.
  pub pull_products-forgets :
      (n m : ℕ) (start_fresh : Bool) (content : S) (account : Account) (cursor : String)
      → str_eq cursor "" ≡ false
      → (pull_products p n start_fresh content account).raised ≡ none
      → (pull_products p n start_fresh content account).outcome.last_cursor ≡ some cursor
      → (pull_products p n start_fresh content account).outcome.page_failures ≢ []
      → (resumed p n m start_fresh content account).raised ≡ none
      → (resumed p n m start_fresh content account).outcome.last_cursor ≡ none
      → (resumed p n m start_fresh content account).outcome.page_failures ≡ []
      → (next_request ((resumed p n m start_fresh content account).account)
          ≡ from_start (some (p.now)))
        × (next_request ((pull_products p (n + suc m) start_fresh content account).account)
            ≡ from_start (account.item_pull_last_updated_at))
  pull_products-forgets n m start_fresh content account cursor filled quiet last failed clean ended
        none_failed =
      let (at_end, forgotten) =
        clean_pull m ((pull_products p n start_fresh content account).content)
          ((pull_products p n start_fresh content account).account) clean ended none_failed in
      let (contents, same_cursor, raises, pages, products) =
        pull_products-resumed p n m start_fresh content account cursor filled quiet last in
      (
        next_request_lem ((resumed p n m start_fresh content account).account) (some (p.now)) at_end
            forgotten,
        next_request_lem ((pull_products p (n + suc m) start_fresh content account).account)
            (account.item_pull_last_updated_at) (same_cursor ∙ at_end)
            (whole_watermark n m start_fresh content account cursor filled quiet last failed),
      )
