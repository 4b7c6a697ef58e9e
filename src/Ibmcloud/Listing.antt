-- ===== src/Ibmcloud/Listing.antt =====
-- listVolumes of pkg/provider/ibmcloud/provider.go: the loop over the pages of a listing, which stops
-- at a token that it has seen. The loop has no bound of its own: the model's takes a number of
-- rounds, and Listing/Ends proves how many are enough.
pub mod Ends
use caa_csi_block_driver.Prelude.{
  ℕ, zero, suc, String, true, false, Option, none, some, List, [], ◌∷◌, ◌++◌, ◌==◌, if◌then◌else◌,
}
use caa_csi_block_driver.GoMap.{Params}
use caa_csi_block_driver.Result.{Result, ok, err, error, wrap}
use caa_csi_block_driver.Provider.{Call}
use caa_csi_block_driver.Ibmcloud.Volumes.{Volume, VolumePage, Session, has}

abbrev pub Volumes : Type 0
Volumes = List (Option Volume)

module _ {Cloud : Type 0} (session : Session Cloud) (filters : Params) where
  -- One call of ListVolumes was answered; `next` is the next round.
  unfoldable pub after_page :
      (String → Volumes → Call Cloud Volumes)
      → Volumes
      → Result (Option VolumePage)
      → Call Cloud Volumes
  after_page next volumes (err e) c = (err (wrap "listing IBM volumes" e), c)
  after_page next volumes (ok none) c = (err (error "IBM list returned a nil response"), c)
  after_page next volumes (ok (some page)) c =
      if page.next == ""
      then (ok (volumes ++ page.volumes), c)
      else next page.next (volumes ++ page.volumes) c

  -- for start := ""; ; { … }
  unfoldable pub list_from : ℕ → List String → String → Volumes → Call Cloud Volumes
  unfolding after_page has
  list_from zero seen start volumes c = (err (error "out of rounds"), c)
  list_from (suc rounds) seen start volumes c = elim (has seen start) [
    | true ↦ (err (error "IBM list returned a repeated pagination token"), c)
    | false ↦
        let (page, c') = session.list_volumes 100 start filters c in
        after_page (list_from rounds (start ∷ seen)) volumes page c'
  ]

  unfoldable pub list_volumes : ℕ → Call Cloud Volumes
  unfolding list_from
  list_volumes rounds = list_from rounds [] "" []
