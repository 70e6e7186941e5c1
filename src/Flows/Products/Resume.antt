-- ===== src/Flows/Products/Resume.antt =====
-- ecommerce_super/easyecom/flows/item_pull.py: a pull that stops and a pull that goes on from its cursor.
use ecommerce_super.Base.{
  ℕ, zero, suc, ◌+◌, String, ◌≡◌, ◌≢◌, refl, sym, ap, ◌∙◌, Bool, true, false, str_eq, if◌then◌else◌,
  Option, none, some, List, [], ◌∷◌, arith, Result, ok, err,
}
use mathlib.Core.Path.{subst}
use ecommerce_super.Flows.Products.{
  Page, Account, PullOutcome, Walk, Pull, at_cursor, request, response, advanced, go_on,
  follow_pages, walk, not_empty, resolve_starting_cursor, watermark_of, prepared, new_outcome,
  clean_walk, finished, pull_products,
}

some_injective : {a b : String} → some a ≡ some b → a ≡ b
some_injective same = cc

module _ {S F E : Type 0} (p : Pull S F E) where
  -- What holds of both walks holds of the one that a test takes.
  pub either_walk :
      (P : Walk S F E → Type 0) (t : Bool) (w v : Walk S F E) → P w → P v → P (if t then w else v)
  either_walk P true w v this that = this
  either_walk P false w v this that = that

  -- A walk that raised nothing leaves the cursor of its last page in the account.
  abbrev IsStored : Walk S F E → Type 0
  IsStored w = (raised : w.raised ≡ none) → w.account.item_pull_cursor ≡ w.outcome.last_cursor

  go_on-IsStored :
      (next : Option String) (w : Walk S F E) (rest : String → Walk S F E)
      → IsStored w
      → ((c : String) → IsStored (rest c))
      → IsStored (go_on p next w rest)
  go_on-IsStored none w rest stored later = stored
  go_on-IsStored (some c) w rest stored later =
      either_walk IsStored (str_eq c "") w (rest c) stored (later c)

  follow_pages-IsStored :
      (left : ℕ) (r : Result E Page) (content : S) (account : Account) (outcome : PullOutcome F)
      → IsStored (follow_pages p left r content account outcome)
  unfolding follow_pages
  follow_pages-IsStored left (err e) content account outcome raised = cc
  follow_pages-IsStored zero (ok page) content account outcome raised = refl
  follow_pages-IsStored (suc left) (ok page) content account outcome raised =
      go_on-IsStored (page.next_url) (advanced p page content account outcome) _ (λ _. refl)
        (λ c. follow_pages-IsStored left (response p (at_cursor c)) _ _ _) raised

  -- A walk that the bound stopped goes on where a longer one would.
  abbrev pub GoesOn : ℕ → Walk S F E → Walk S F E → Type 0
  GoesOn more stopped whole =
      (cursor : String)
      → str_eq cursor "" ≡ false
      → stopped.raised ≡ none
      → stopped.outcome.last_cursor ≡ some cursor
      → whole
        ≡ follow_pages p more (response p (at_cursor cursor)) (stopped.content) (stopped.account)
            (stopped.outcome)

  go_on-GoesOn :
      (more : ℕ) (next : Option String) (w : Walk S F E) (f g : String → Walk S F E)
      → w.outcome.last_cursor ≡ next
      → ((c : String) → GoesOn more (f c) (g c))
      → GoesOn more (go_on p next w f) (go_on p next w g)
  go_on-GoesOn more none w f g same later cursor filled quiet last = cc
  go_on-GoesOn more (some c) w f g same later cursor filled quiet last =
      by_test (str_eq c "") refl cursor filled quiet last
    where
      clash : {k : String} → c ≡ k → str_eq c "" ≡ true → str_eq k "" ≢ false
      clash found empty filled_k = cc (ap (λ x. str_eq x "") found, empty, filled_k)

      by_test :
          (t : Bool) → str_eq c "" ≡ t → GoesOn more (if t then w else f c) (if t then w else g c)
      by_test true empty k filled_k quiet_k last_k =
          elim (clash (some_injective (sym same ∙ last_k)) empty filled_k) [ ]
      by_test false filled_too k filled_k quiet_k last_k = later c k filled_k quiet_k last_k

  stopped-GoesOn :
      (more : ℕ) (next : Option String) (w : Walk S F E)
      → w.outcome.last_cursor ≡ next
      → GoesOn more w (
          go_on p next w (λ c.
            follow_pages p more (response p (at_cursor c)) (w.content) (w.account) (w.outcome)))
  stopped-GoesOn more none w same cursor filled quiet last = cc
  stopped-GoesOn more (some c) w same cursor filled quiet last =
      let found : c ≡ cursor = some_injective (sym same ∙ last) in rw (found, filled) refl

  pub follow_pages-GoesOn :
      (left total more : ℕ) (r : Result E Page) (content : S) (account : Account)
      (outcome : PullOutcome F)
      → total ≡ left + suc more
      → GoesOn more
          (follow_pages p left r content account outcome)
          (follow_pages p total r content account outcome)
  unfolding follow_pages
  follow_pages-GoesOn left total more (err e) content account outcome size cursor filled quiet
        last =
      cc
  follow_pages-GoesOn left zero more (ok page) content account outcome size cursor filled quiet
        last =
      grind arith
  follow_pages-GoesOn zero (suc total) more (ok page) content account outcome size cursor filled
        quiet last =
      subst
        (λ k. GoesOn more (advanced p page content account outcome) (
          go_on p (page.next_url) (advanced p page content account outcome) (λ c.
            follow_pages p k (response p (at_cursor c))
              ((advanced p page content account outcome).content)
              ((advanced p page content account outcome).account)
              ((advanced p page content account outcome).outcome))))
        (omega (arith, size))
        (stopped-GoesOn more (page.next_url) (advanced p page content account outcome) refl) cursor
        filled quiet last
  follow_pages-GoesOn (suc left) (suc total) more (ok page) content account outcome size cursor
        filled quiet last =
      go_on-GoesOn more (page.next_url) (advanced p page content account outcome) _ _ refl
        (λ c.
          follow_pages-GoesOn left total more (response p (at_cursor c)) _ _ _
            (omega (arith, size)))
        cursor filled quiet last

  -- Two walks that differ in what they had counted before.
  abbrev Agree : PullOutcome F → Walk S F E → Walk S F E → Type 0
  Agree before w v =
      (w.content ≡ v.content)
      × (w.account ≡ v.account)
      × (w.raised ≡ v.raised)
      × (w.outcome.pages_walked ≡ before.pages_walked + v.outcome.pages_walked)
      × (w.outcome.products_processed ≡ before.products_processed + v.outcome.products_processed)

  go_on-Agree :
      (before : PullOutcome F) (next : Option String) (w v : Walk S F E) (f g : String → Walk S F E)
      → Agree before w v
      → ((c : String) → Agree before (f c) (g c))
      → Agree before (go_on p next w f) (go_on p next v g)
  go_on-Agree before none w v f g agree later = agree
  go_on-Agree before (some c) w v f g agree later = by_test (str_eq c "")
    where
      by_test : (t : Bool) → Agree before (if t then w else f c) (if t then v else g c)
      by_test true = agree
      by_test false = later c

  follow_pages-Agree :
      (left : ℕ) (r : Result E Page) (content : S) (account : Account)
      (before more less : PullOutcome F)
      → more.pages_walked ≡ before.pages_walked + less.pages_walked
      → more.products_processed ≡ before.products_processed + less.products_processed
      → Agree before
          (follow_pages p left r content account more)
          (follow_pages p left r content account less)
  unfolding follow_pages
  follow_pages-Agree left (err e) content account before more less pages products =
      (refl, refl, refl, pages, products)
  follow_pages-Agree zero (ok page) content account before more less pages products =
      (refl, refl, refl, omega (arith, pages), omega (arith, products))
  follow_pages-Agree (suc left) (ok page) content account before more less pages products =
      go_on-Agree before (page.next_url) _ _ _ _
        (refl, refl, refl, omega (arith, pages), omega (arith, products))
        (λ c.
          follow_pages-Agree left (response p (at_cursor c)) _ _ before _ _ (omega (arith, pages))
            (omega (arith, products)))

  clean_walk-cursor :
      (raised : Option E) (last : Option String) (failures : List F) (account : Account)
      → ((quiet : raised ≡ none) → account.item_pull_cursor ≡ last)
      → (clean_walk p raised last failures account).item_pull_cursor ≡ account.item_pull_cursor
  clean_walk-cursor none none [] account stored = sym (stored refl)
  clean_walk-cursor none none (f ∷ failures) account stored = refl
  clean_walk-cursor none (some c) failures account stored = refl
  clean_walk-cursor (some e) last failures account stored = refl

  stopped_account :
      (raised : Option E) (last : Option String) (failures : List F) (account : Account)
      {cursor : String}
      → last ≡ some cursor
      → clean_walk p raised last failures account ≡ account
  stopped_account none none failures account stopped = cc
  stopped_account none (some c) failures account stopped = refl
  stopped_account (some e) last failures account stopped = refl

  resumed-Agree :
      (m : ℕ) (ua : Option ℕ) (w : Walk S F E) (account : Account) (cursor : String)
      → account ≡ w.account
      → not_empty p (account.item_pull_cursor) ≡ some cursor
      → Agree
          (w.outcome)
          (follow_pages p m (response p (at_cursor cursor)) (w.content) (w.account) (w.outcome))
          (walk p m (not_empty p (account.item_pull_cursor)) ua (w.content) account (new_outcome p))
  unfolding walk
  resumed-Agree m ua w account cursor same stored =
      let base =
        follow_pages-Agree m (response p (at_cursor cursor)) (w.content) (w.account) (w.outcome)
          (w.outcome) (new_outcome p) (omega arith) (omega arith) in
      subst
        (λ b.
          Agree (w.outcome)
            (follow_pages p m (response p (at_cursor cursor)) (w.content) (w.account) (w.outcome))
            (follow_pages p m (response p (request p (not_empty p (account.item_pull_cursor)) ua))
              (w.content) b (new_outcome p)))
        (sym same)
        (subst
          (λ c.
            Agree (w.outcome)
              (follow_pages p m (response p (at_cursor cursor)) (w.content) (w.account) (w.outcome))
              (follow_pages p m (response p (request p c ua)) (w.content) (w.account)
                (new_outcome p)))
          (sym stored) base)

  pub cursor_kept :
      (cursor : String) → str_eq cursor "" ≡ false → not_empty p (some cursor) ≡ some cursor
  cursor_kept cursor filled = rw (filled) refl

  -- A pull, and a pull that resumes from what it stored.
  abbrev pub resumed : ℕ → ℕ → Bool → S → Account → Walk S F E
  resumed n m start_fresh content account =
      pull_products p m false ((pull_products p n start_fresh content account).content)
        ((pull_products p n start_fresh content account).account)

  -- A pull that its bound stopped at a cursor that is not empty, and then a pull that resumes from the account, have together the effect of
  -- one pull of as many pages: the same database, the same cursor, the same exception, if any, and the pages
  -- and the products of both are those of the one.
  pub pull_products-resumed :
      (n m : ℕ) (start_fresh : Bool) (content : S) (account : Account) (cursor : String)
      → str_eq cursor "" ≡ false
      → (pull_products p n start_fresh content account).raised ≡ none
      → (pull_products p n start_fresh content account).outcome.last_cursor ≡ some cursor
      → ((pull_products p (n + suc m) start_fresh content account).content
          ≡ (resumed n m start_fresh content account).content)
        × ((pull_products p (n + suc m) start_fresh content account).account.item_pull_cursor
            ≡ (resumed n m start_fresh content account).account.item_pull_cursor)
        × ((pull_products p (n + suc m) start_fresh content account).raised
            ≡ (resumed n m start_fresh content account).raised)
        × ((pull_products p (n + suc m) start_fresh content account).outcome.pages_walked
            ≡ (pull_products p n start_fresh content account).outcome.pages_walked
              + (resumed n m start_fresh content account).outcome.pages_walked)
        × ((pull_products p (n + suc m) start_fresh content account).outcome.products_processed
            ≡ (pull_products p n start_fresh content account).outcome.products_processed
              + (resumed n m start_fresh content account).outcome.products_processed)
  unfolding pull_products walk
  pull_products-resumed n m start_fresh content account cursor filled quiet last =
      let first =
        walk p n (resolve_starting_cursor p account start_fresh)
          (watermark_of p account start_fresh) content (prepared p account start_fresh)
          (new_outcome p) in
      let whole =
        walk p (n + suc m) (resolve_starting_cursor p account start_fresh)
          (watermark_of p account start_fresh) content (prepared p account start_fresh)
          (new_outcome p) in
      let r = response p (
        request p (resolve_starting_cursor p account start_fresh)
          (watermark_of p account start_fresh)) in
      let goes_on =
        follow_pages-GoesOn n (n + suc m) m r content (prepared p account start_fresh)
          (new_outcome p) refl cursor filled quiet last in
      let kept =
        stopped_account (first.raised) (first.outcome.last_cursor) (first.outcome.page_failures)
          (first.account) last in
      let stored =
        follow_pages-IsStored n r content (prepared p account start_fresh) (new_outcome p) quiet in
      let at =
        ap (λ a. not_empty p (a.item_pull_cursor)) kept
        ∙ (ap (not_empty p) (stored ∙ last) ∙ cursor_kept cursor filled) in
      let second =
        walk p m (not_empty p ((finished p first).account.item_pull_cursor))
          (watermark_of p ((finished p first).account) false) (first.content)
          ((finished p first).account) (new_outcome p) in
      let agree =
        resumed-Agree m (watermark_of p ((finished p first).account) false) first
          ((finished p first).account) cursor kept at in
      let (contents, accounts, raises, pages, products) = agree in
      let whole_stored =
        follow_pages-IsStored (n + suc m) r content (prepared p account start_fresh)
          (new_outcome p) in
      let second_stored =
        follow_pages-IsStored m
          (response p (
            request p (not_empty p ((finished p first).account.item_pull_cursor))
              (watermark_of p ((finished p first).account) false)))
          (first.content) ((finished p first).account) (new_outcome p) in
      (
        ap (λ w. w.content) goes_on ∙ contents,
        clean_walk-cursor (whole.raised) (whole.outcome.last_cursor) (whole.outcome.page_failures)
              (whole.account) whole_stored
            ∙ (ap (λ w. w.account.item_pull_cursor) goes_on
                ∙ (ap (λ a. a.item_pull_cursor) accounts
                    ∙ sym (
                        clean_walk-cursor (second.raised) (second.outcome.last_cursor)
                          (second.outcome.page_failures) (second.account) second_stored))),
        ap (λ w. w.raised) goes_on ∙ raises,
        ap (λ w. w.outcome.pages_walked) goes_on ∙ pages,
        ap (λ w. w.outcome.products_processed) goes_on ∙ products,
      )
