-- ===== src/Provider/Pages.antt =====
-- The loops of the providers over the pages of a listing. The SDKs' pagers take the token of the
-- next page, which is none at first and after the last page. A context lets some number of pages
-- through before its deadline, and then a call for a page fails.
use mathlib.Core.List.{append-nil}
use caa_csi_block_driver.Prelude.{
  ℕ, zero, suc, ◌≤◌, String, ◌≡◌, refl, sym, ap, Option, none, some, List, [], ◌∷◌, ◌++◌, arith,
}
use caa_csi_block_driver.Result.{Result, ok, err, error}
use caa_csi_block_driver.Provider.{Call}

abbrev pub Page : Type 0 → Type 0
Page Item = List Item × Option String

abbrev pub Pager : Type 0 → Type 0 → Type 0
Pager Cloud Item = Option String → Call Cloud (Page Item)

module _ {Item Info : Type 0} where
  -- The body of the inner loop passes over an item or makes an info of it.
  unfoldable pub collect : (Item → Option Info) → List Item → List Info
  collect to_info [] = []
  collect to_info (x ∷ xs) = elim (to_info x) [
    | none ↦ collect to_info xs
    | some info ↦ info ∷ collect to_info xs
  ]

  pub collect-append :
      (to_info : Item → Option Info) (xs ys : List Item)
      → collect to_info (xs ++ ys) ≡ collect to_info xs ++ collect to_info ys
  unfolding collect
  collect-append to_info [] ys = refl
  collect-append to_info (x ∷ xs) ys = ground (arith, collect-append to_info xs ys)

module _ {Cloud Info : Type 0} where
  abbrev join_pages : List Info → Result (List Info) × Cloud → Result (List Info) × Cloud
  join_pages infos (err e, c) = (err e, c)
  join_pages infos (ok more, c) = (ok (infos ++ more), c)

module _ {Cloud Item Info : Type 0} (to_info : Item → Option Info) where
  after_page : (String → Call Cloud (List Info)) → Result (Page Item) → Call Cloud (List Info)
  after_page next (err e) c = (err e, c)
  after_page next (ok (items, none)) c = (ok (collect to_info items), c)
  after_page next (ok (items, some token)) c = join_pages (collect to_info items) (next token c)

  -- for pager.More() { page, err := pager.NextPage(ctx); … }
  unfoldable pub list_pages : ℕ → Pager Cloud Item → Option String → Call Cloud (List Info)
  unfolding after_page
  list_pages zero pager token c = (err (error "context deadline exceeded"), c)
  list_pages (suc pages) pager token c =
      let (page, c') = pager token c in after_page (λ t. list_pages pages pager (some t)) page c'

module _ {Item : Type 0} where
  abbrev pub joined : List (List Item) → List Item
  joined [] = []
  joined (p ∷ ps) = p ++ joined ps

  abbrev pub page_count : List (List Item) → ℕ
  page_count [] = 0
  page_count (p ∷ ps) = suc (page_count ps)

module _ {Cloud Item : Type 0} (pager : Pager Cloud Item) where
  -- A cloud that answers the calls of a listing with some pages, the last of which has no token.
  pub data Serves : Cloud → Option String → List (List Item) → Cloud → Type 0 where
    last_page :
        {c c' : Cloud} {token : Option String} {items : List Item}
        → pager token c ≡ (ok (items, none), c')
        → Serves c token (items ∷ []) c'
    next_page :
        {c c' c'' : Cloud} {token : Option String} {t : String} {items : List Item}
        {rest : List (List Item)}
        → pager token c ≡ (ok (items, some t), c')
        → Serves c' (some t) rest c''
        → Serves c token (items ∷ rest) c''

module _ {Cloud Item Info : Type 0} (to_info : Item → Option Info) (pager : Pager Cloud Item) where
  -- The loop makes an info of every item of every page that it is made for, in order.
  pub list_pages_lem :
      (pages : ℕ) {c c' : Cloud} {token : Option String} {ps : List (List Item)}
      → Serves pager c token ps c'
      → page_count ps ≤ pages
      → list_pages to_info pages pager token c ≡ (ok (collect to_info (joined ps)), c')
  unfolding list_pages
  list_pages_lem zero (last_page e) h = absurd (omega arith)
  list_pages_lem zero (next_page e s) h = absurd (omega arith)
  list_pages_lem (suc pages) (last_page {c'} {items} e) h =
      rw (e, list_pages)
        (ap (λ (xs : List Item). (ok (collect to_info xs), c')) (sym (append-nil items)))
  list_pages_lem (suc pages) (next_page {c'} {c''} {t} {items} {rest} e s) h =
      rw (e, list_pages)
        (rw (list_pages_lem pages s (omega arith))
          (ap (λ (xs : List Info). (ok xs, c'')) (sym (collect-append to_info items _))))
