-- ===== src/Ibmcloud/Listing/Ends.antt =====
-- The loop of listVolumes in pkg/provider/ibmcloud/provider.go ends by itself: it stops at a token
-- that it has seen, so a service with finitely many tokens cannot keep it going.
use caa_csi_block_driver.Prelude.{
  ℕ, zero, suc, ◌+◌, ◌≤◌, ◌<◌, String, ◌≡◌, ◌≢◌, refl, inl, inr, true, false, Option, none, some,
  List, [], ◌∷◌, ◌++◌, arith, Bool-cases, ◌==◌, eq_iff, eq_refl, if◌then◌else◌,
}
use caa_csi_block_driver.GoMap.{Params}
use caa_csi_block_driver.Result.{GoError, Result, ok, err, error, wrap}
use caa_csi_block_driver.Ibmcloud.Volumes.{VolumePage, Session, has}
use caa_csi_block_driver.Ibmcloud.Listing.{Volumes, after_page, list_from, list_volumes}

-- How many tokens of a list were not seen.
unseen : List String → List String → ℕ
unseen seen [] = 0
unseen seen (t ∷ ts) = let rest = unseen seen ts in if has seen t then rest else suc rest

abbrev count : List String → ℕ
count [] = 0
count (t ∷ ts) = suc (count ts)

unseen_all : (tokens : List String) → unseen [] tokens ≡ count tokens
unfolding unseen has
unseen_all [] = refl
unseen_all (t ∷ ts) = ground (arith, unseen_all ts)

unseen_more :
    (seen tokens : List String) (s : String) → unseen (s ∷ seen) tokens ≤ unseen seen tokens
unfolding unseen has
unseen_more seen [] s = omega arith
unseen_more seen (t ∷ ts) s = ground (arith, unseen_more seen ts s)

-- Seeing a token of the list leaves fewer.
unseen_less :
    (seen tokens : List String) (s : String)
    → has seen s ≡ false
    → has tokens s ≡ true
    → unseen (s ∷ seen) tokens < unseen seen tokens
unfolding unseen has
unseen_less seen [] s new known = absurd (ground arith)
unseen_less seen (t ∷ ts) s new known = elim (Bool-cases (t == s)) [
  | inl same ↦
      let e : t ≡ s = ground (arith, eq_iff t s) in
      let fewer = unseen_more seen ts s in let hit = eq_refl s in rw (e, new, hit) (omega arith)
  | inr other ↦
      let back : has ts s ≡ true = ground arith in
      let fewer = unseen_less seen ts s new back in ground (arith, eq_iff t s, eq_iff s t)
]

module _ {Cloud : Type 0} (session : Session Cloud) (filters : Params) where
  -- How the loop goes on from a token, and what it returns at its end.
  pub data Lists : List String → String → Volumes → Cloud → Result Volumes → Cloud → Type 0 where
    repeated :
        {seen : List String} {start : String} {volumes : Volumes} {c : Cloud}
        → has seen start ≡ true
        → Lists seen start volumes c (err (error "IBM list returned a repeated pagination token")) c
    failed :
        {seen : List String} {start : String} {volumes : Volumes} {c c' : Cloud} {e : GoError}
        → has seen start ≡ false
        → session.list_volumes 100 start filters c ≡ (err e, c')
        → Lists seen start volumes c (err (wrap "listing IBM volumes" e)) c'
    no_page :
        {seen : List String} {start : String} {volumes : Volumes} {c c' : Cloud}
        → has seen start ≡ false
        → session.list_volumes 100 start filters c ≡ (ok none, c')
        → Lists seen start volumes c (err (error "IBM list returned a nil response")) c'
    last_page :
        {seen : List String} {start : String} {volumes : Volumes} {c c' : Cloud} {page : VolumePage}
        → has seen start ≡ false
        → session.list_volumes 100 start filters c ≡ (ok (some page), c')
        → page.next ≡ ""
        → Lists seen start volumes c (ok (volumes ++ page.volumes)) c'
    next_page :
        {seen : List String} {start : String} {volumes : Volumes} {c c' c'' : Cloud}
        {page : VolumePage} {r : Result Volumes}
        → has seen start ≡ false
        → session.list_volumes 100 start filters c ≡ (ok (some page), c')
        → page.next ≢ ""
        → Lists (start ∷ seen) page.next (volumes ++ page.volumes) c' r c''
        → Lists seen start volumes c r c''

  -- A service that gives no token but these.
  abbrev pub Emits : List String → Type 0
  Emits tokens =
      (start : String) (c c' : Cloud) (page : VolumePage)
      → session.list_volumes 100 start filters c ≡ (ok (some page), c')
      → has ("" ∷ tokens) page.next ≡ true

  -- A round that asks for a page, by what it was answered.
  round :
      (next : String → Volumes → Cloud → Result Volumes × Cloud) (seen : List String)
      (start : String) (volumes : Volumes) (c : Cloud)
      → has seen start ≡ false
      → ((page : VolumePage) (c' : Cloud)
          → session.list_volumes 100 start filters c ≡ (ok (some page), c')
          → page.next ≢ ""
          → (let (r, c'') = next page.next (volumes ++ page.volumes) c' in
              Lists (start ∷ seen) page.next (volumes ++ page.volumes) c' r c''))
      → (answer : Result (Option VolumePage)) (c' : Cloud)
      → session.list_volumes 100 start filters c ≡ (answer, c')
      → (let (r, c'') = after_page session filters next volumes answer c' in
          Lists seen start volumes c r c'')
  unfolding after_page
  round next seen start volumes c new go (err e) c' h = failed new h
  round next seen start volumes c new go (ok none) c' h = no_page new h
  round next seen start volumes c new go (ok (some page)) c' h =
      elim (Bool-cases (page.next == "")) [
        | inl last ↦ rw last (last_page new h (ground (arith, eq_iff page.next "")))
        | inr more ↦
            let ne : page.next ≢ "" = λ e. ground (arith, eq_iff page.next "") in
            rw more (next_page new h ne (go page c' h ne))
      ]

  Lists-list_from :
      (tokens : List String)
      → Emits tokens
      → (rounds : ℕ) (seen : List String) (start : String) (volumes : Volumes) (c : Cloud)
      → has ("" ∷ tokens) start ≡ true
      → unseen seen ("" ∷ tokens) < rounds
      → (let (r, c') = list_from session filters rounds seen start volumes c in
          Lists seen start volumes c r c')
  unfolding list_from
  Lists-list_from tokens emits zero seen start volumes c known few = absurd (omega arith)
  Lists-list_from tokens emits (suc rounds) seen start volumes c known few =
      elim (Bool-cases (has seen start)) [
        | inl old ↦ rw (old, list_from) (repeated old)
        | inr new ↦
            let fewer = unseen_less seen ("" ∷ tokens) start new known in
            rw (new, list_from)
              (round (list_from session filters rounds (start ∷ seen)) seen start volumes c new
                (λ page c' h ne.
                  Lists-list_from tokens emits rounds (start ∷ seen) page.next
                    (volumes ++ page.volumes) c' (emits start c c' page h) (omega arith))
                (session.list_volumes 100 start filters c).0
                (session.list_volumes 100 start filters c).1 refl)
      ]

  -- The loop ends: for a service that gives no tokens but those of a list, more rounds than that list
  -- has tokens, and one more, are enough for the loop to come to an end of its own, with the volumes
  -- of the pages up to the last, or with the error of a call, of a nil page or of a repeated token.
  pub Lists-list_volumes :
      (tokens : List String) (rounds : ℕ) (c : Cloud)
      → Emits tokens
      → count tokens + 1 < rounds
      → (let (r, c') = list_volumes session filters rounds c in Lists [] "" [] c r c')
  unfolding list_volumes unseen has
  Lists-list_volumes tokens rounds c emits enough =
      let all = unseen_all ("" ∷ tokens) in
      Lists-list_from tokens emits rounds [] "" [] c refl (omega arith)
