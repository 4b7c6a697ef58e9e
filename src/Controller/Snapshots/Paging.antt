-- ===== src/Controller/Snapshots/Paging.antt =====
-- ListSnapshots in pages: a client that follows the tokens sees every snapshot once, in order.
use mathlib.Core.Option
use caa_csi_block_driver.Prelude.{
  ℕ, zero, suc, ◌+◌, ◌-◌, ◌<◌, ◌^◌, pos, String, ◌≡◌, ◌≢◌, refl, ◌∙◌, ap, Option, none, some, List,
  [], ◌∷◌, ◌++◌, arith, ◌==◌, sym, ne→==, if◌then◌else◌, Option-cases, inl, inr,
}
use caa_csi_block_driver.Result.{done, status, panic}
use caa_csi_block_driver.Provider.{SnapshotInfo}
use caa_csi_block_driver.Action.{◌>>=◌}
use caa_csi_block_driver.Server.{Setup, World}
use caa_csi_block_driver.Controller.Snapshots.{
  ListSnapshotsRequest, Page, page_loop, snapshot_page, drop, list_page, token_of,
}

abbrev length {ℓ} : {A : Type ℓ} → List A → ℕ
length [] = 0
length (x ∷ xs) = suc (length xs)

-- At most k of a list, and the index of what is left, if anything is.
split : ℕ → ℕ → List SnapshotInfo → Page
split k i [] = ([], none)
split zero i (s ∷ rest) = ([], some i)
split (suc k) i (s ∷ rest) = (s ∷ (split k (i + 1) rest).0, (split k (i + 1) rest).1)

page_loop-eq-split :
    (m k count i : ℕ) (infos : List SnapshotInfo)
    → count + k ≡ suc m
    → page_loop (pos (suc m)) count i infos ≡ split k i infos
unfolding page_loop split
page_loop-eq-split m k count i [] h = refl
page_loop-eq-split m zero count i (s ∷ rest) h = ground arith
page_loop-eq-split m (suc k) count i (s ∷ rest) h =
    ground (arith, page_loop-eq-split m k (count + 1) (i + 1) rest (omega arith))

-- A page with no next index is all that is left.
split-last :
    (k i : ℕ) (infos : List SnapshotInfo) → (split k i infos).1 ≡ none → (split k i infos).0 ≡ infos
unfolding split
split-last k i [] h = refl
split-last zero i (s ∷ rest) h = absurd (ground arith)
split-last (suc k) i (s ∷ rest) h =
    ap (λ (r : List SnapshotInfo). s ∷ r) (split-last k (i + 1) rest h)

-- The next page begins where a page ends.
split-next :
    (k i j : ℕ) (infos : List SnapshotInfo)
    → (split k i infos).1 ≡ some j
    → (j ≡ i + k) × ((split k i infos).0 ++ drop k infos ≡ infos) × (k < length infos)
unfolding split drop
split-next k i j [] h = absurd (ground arith)
split-next zero i j (s ∷ rest) h = (ground arith, refl, omega arith)
split-next (suc k) i j (s ∷ rest) h =
    let (start, whole, more) = split-next k (i + 1) j rest h in
    (omega arith, ap (λ (r : List SnapshotInfo). s ∷ r) whole, omega arith)

drop-drop : (n k : ℕ) (infos : List SnapshotInfo) → drop k (drop n infos) ≡ drop (n + k) infos
unfolding drop
drop-drop zero k infos = let e : k ≡ 0 + k = omega arith in ap (λ (t : ℕ). drop t infos) e
drop-drop (suc n) zero [] = let e : suc n ≡ suc n + 0 = omega arith in ap (λ (t : ℕ). drop t []) e
drop-drop (suc n) (suc k) [] =
    let e : suc (n + suc k) ≡ suc n + suc k = omega arith in ap (λ (t : ℕ). drop t []) e
drop-drop (suc n) k (s ∷ rest) =
    let e : suc (n + k) ≡ suc n + k = omega arith in
    drop-drop n k rest ∙ ap (λ (t : ℕ). drop t (s ∷ rest)) e

length-drop : (n : ℕ) (infos : List SnapshotInfo) → length (drop n infos) ≡ length infos - n
unfolding drop
length-drop zero infos = omega arith
length-drop (suc n) [] = omega arith
length-drop (suc n) (s ∷ rest) = omega (arith, length-drop n rest)

-- A page from index i: the snapshots that it holds, and the index of the next page.
page_at : ℕ → ℕ → List SnapshotInfo → Page
page_at m i infos = page_loop (pos (suc m)) 0 i (drop i infos)

page_at-eq-split :
    (m i : ℕ) (infos : List SnapshotInfo) → page_at m i infos ≡ split (suc m) i (drop i infos)
unfolding page_at
page_at-eq-split m i infos = page_loop-eq-split m (suc m) 0 i (drop i infos) (omega arith)

next_drop :
    (m i j : ℕ) (infos : List SnapshotInfo)
    → (split (suc m) i (drop i infos)).1 ≡ some j
    → drop j infos ≡ drop (suc m) (drop i infos)
next_drop m i j infos e =
    let (start, whole, more) = split-next (suc m) i j (drop i infos) e in
    rw start (sym (drop-drop i (suc m) infos))

shorter :
    (fuel m i j : ℕ) (infos : List SnapshotInfo)
    → length (drop i infos) < suc fuel
    → (split (suc m) i (drop i infos)).1 ≡ some j
    → length (drop j infos) < fuel
shorter fuel m i j infos h e =
    let (start, whole, more) = split-next (suc m) i j (drop i infos) e in
    omega (arith, length-drop i infos, length-drop j infos)

next-bound :
    (m i j : ℕ) (infos : List SnapshotInfo)
    → length infos < 2 ^ 63
    → (split (suc m) i (drop i infos)).1 ≡ some j
    → j < 2 ^ 63
next-bound m i j infos small e =
    let (start, whole, more) = split-next (suc m) i j (drop i infos) e in
    omega (arith, length-drop i infos)

-- The documented behaviour of strconv.Itoa and strconv.Atoi: an index that fits an int and that was
-- printed is read back.
pub record PrintsIndices (S : Setup) : Type 0 where
  pub roundtrip : (i : ℕ) → i < 2 ^ 63 → S.platform.parse_int (S.platform.itoa i) ≡ some (pos i)
  pub nonempty : (i : ℕ) → S.platform.itoa i ≢ ""

module _ (S : Setup) where
  -- Whether a token stands for an index.
  abbrev StartsAt : String → ℕ → Type 0
  StartsAt token i =
      (if token == "" then some (pos 0) else S.platform.parse_int token) ≡ some (pos i)

  list_page_lem :
      (req : ListSnapshotsRequest) (m i : ℕ) (infos : List SnapshotInfo) (w : World S)
      → req.max_entries ≡ pos (suc m)
      → StartsAt req.starting_token i
      → list_page S req infos w ≡ (
        done (record {
          entries = (page_at m i infos).0;
          next_token = token_of S (page_at m i infos).1;
        }),
        w,
      )
  unfolding list_page page_at ◌>>=◌ snapshot_page
  list_page_lem req m i infos w max start = ground arith

  -- What a client sees that asks for pages of the listed snapshots, each with the token of the page
  -- before, until a page has none.
  unfoldable pub follow_pages :
      ℕ → ListSnapshotsRequest → List SnapshotInfo → World S → Option (List SnapshotInfo)
  follow_pages zero req infos w = none
  follow_pages (suc fuel) req infos w = elim (list_page S req infos w).0 [
    | done page ↦
        let rest = follow_pages fuel (record req { starting_token = page.next_token }) infos w in
        if page.next_token == ""
        then some page.entries
        else Option.map (λ more. page.entries ++ more) rest
    | status code ↦ none
    | panic ↦ none
  ]

  module _ (I : PrintsIndices S) where
    next_pages :
        (fuel m i j : ℕ) (req : ListSnapshotsRequest) (infos : List SnapshotInfo) (w : World S)
        → req.max_entries ≡ pos (suc m)
        → (split (suc m) i (drop i infos)).1 ≡ some j
        → follow_pages fuel (record req { starting_token = S.platform.itoa j }) infos w
          ≡ some (drop j infos)
        → (if S.platform.itoa j == ""
            then some (split (suc m) i (drop i infos)).0
            else Option.map
                (λ more. (split (suc m) i (drop i infos)).0 ++ more)
                (follow_pages fuel (record req { starting_token = S.platform.itoa j }) infos w))
          ≡ some (drop i infos)
    next_pages fuel m i j req infos w max e ih =
        rw (ne→== _ _ (I.nonempty j), ih)
          (let (start, whole, more) = split-next (suc m) i j (drop i infos) e in
            ap some (
              ap (λ (t : List SnapshotInfo). (split (suc m) i (drop i infos)).0 ++ t)
                (next_drop m i j infos e)
              ∙ whole))

    follow_pages_from :
        (fuel m i : ℕ) (req : ListSnapshotsRequest) (infos : List SnapshotInfo) (w : World S)
        → req.max_entries ≡ pos (suc m)
        → StartsAt req.starting_token i
        → length infos < 2 ^ 63
        → length (drop i infos) < fuel
        → follow_pages fuel req infos w ≡ some (drop i infos)
    unfolding follow_pages
    follow_pages_from zero m i req infos w max start small h = absurd (omega arith)
    follow_pages_from (suc fuel) m i req infos w max start small h =
        elim (Option-cases (split (suc m) i (drop i infos)).1) [
          | inl e ↦
              rw
                (
                  list_page_lem req m i infos w max start,
                  follow_pages,
                  page_at-eq-split m i infos,
                  e,
                )
                (ap some (split-last (suc m) i (drop i infos) e))
          | inr (j, e) ↦
              rw
                (
                  list_page_lem req m i infos w max start,
                  follow_pages,
                  page_at-eq-split m i infos,
                  e,
                )
                (next_pages fuel m i j req infos w max e (
                  follow_pages_from fuel m j (record req { starting_token = S.platform.itoa j })
                    infos w max
                    (rw (ne→== _ _ (I.nonempty j)) (I.roundtrip j (next-bound m i j infos small e)))
                    small (shorter fuel m i j infos h e)))
        ]

    -- A client that asks for pages of at least one entry, first with no token and then with each
    -- page's token, gets all the listed snapshots, if they are fewer than 2 ^ 63, once and in their
    -- order, after at most one round more than there are snapshots.
    pub follow_pages_lem :
        (m : ℕ) (req : ListSnapshotsRequest) (infos : List SnapshotInfo) (w : World S)
        → req.max_entries ≡ pos (suc m)
        → req.starting_token ≡ ""
        → length infos < 2 ^ 63
        → follow_pages (suc (length infos)) req infos w ≡ some infos
    unfolding drop
    follow_pages_lem m req infos w max start small =
        follow_pages_from (suc (length infos)) m 0 req infos w max (rw start refl) small
          (omega arith)
