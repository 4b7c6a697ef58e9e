-- ===== src/Ibmcloud/Refinement.antt =====
-- CreateVolume and DeleteVolume of pkg/provider/ibmcloud/provider.go implement what a
-- provider promises, over any history.
use caa_csi_block_driver.Prelude.{
  arith, none, ℕ, ℤ, String, ◌≡◌, refl, ◌∙◌, ap, inl, inr, some, List,
}
use caa_csi_block_driver.Provider.Specification.{
  Op, create, Disks, or_else, specified, specified_all, agree_at, idle_at,
}
use caa_csi_block_driver.Provider.History.{Acts, creates, deletes, expands, History, sizes-History}
use caa_csi_block_driver.Ibmcloud.{IbmCloudProvider}
use caa_csi_block_driver.Ibmcloud.Cloud.{VpcLaws}
use caa_csi_block_driver.Ibmcloud.Volumes.{Session, Packages}
use caa_csi_block_driver.Ibmcloud.Operations.{expanded_capacity}
use caa_csi_block_driver.Ibmcloud.Recovery.{block_volume_provider}
use caa_csi_block_driver.Ibmcloud.Effects.Changes.{
  requested_units, Creates, Creates-create_volume, sizes-delete_volume,
}

module _ {Cloud : Type 0} (P : Packages) (rounds : ℕ) (p : IbmCloudProvider (Session Cloud))
    (L : VpcLaws p.session) (unset : p.config.volume_id ≡ "") where
  open L use {sizes}

  -- The specification with the provider's rounding; a volume is known by its own name.
  abbrev specified_op : Op → Disks → Disks
  specified_op = specified (requested_units p.config.profile) expanded_capacity (λ v. v)

  meets-create :
      (v : String) (n : ℤ) (c c' : Cloud)
      → Creates P rounds p L v n c c'
      → (w : String) → sizes c' w ≡ specified_op (create v n) (sizes c) w
  unfolding specified
  meets-create v n c c' (inl (m, there, same)) w =
      ap (λ d. d w) same
      ∙ idle_at v w (sizes c) (or_else (requested_units p.config.profile n)) (rw there refl)
  meets-create v n c c' (inr (missing, added)) w =
      ap (λ d. d w) added
      ∙ agree_at v w (sizes c) (λ _. some (requested_units p.config.profile n))
          (or_else (requested_units p.config.profile n)) (rw missing refl)

  meets :
      (c c' : Cloud) (op : Op)
      → Acts (block_volume_provider P rounds p) none c op c'
      → (w : String) → sizes c' w ≡ specified_op op (sizes c) w
  unfolding specified
  meets c c' op (creates {v = v} {n = n} {info = info} h) =
      meets-create v n c c' (Creates-create_volume P rounds p L unset v n c c' info h)
  meets c c' op (deletes {v = v} h) = sizes-delete_volume P rounds p L unset v c c' h
  meets c c' op (expands {x = x} own h) = absurd (ground arith)

  -- On a session with the SDK's laws and with no volume ID configured, and over any history of
  -- CreateVolume and DeleteVolume calls that succeed, the sizes of the volumes are those that the
  -- specification computes: a volume that is there keeps its size when it is created again, a new one
  -- gets its normalized size, and a deleted one is gone.
  pub sizes-block_volume_provider :
      {c c' : Cloud} {ops : List Op}
      → History (block_volume_provider P rounds p) none c ops c'
      → (w : String)
      → sizes c' w
        ≡ specified_all
            (requested_units p.config.profile)
            expanded_capacity
            (λ v. v)
            ops
            (sizes c)
            w
  sizes-block_volume_provider h w =
      sizes-History (block_volume_provider P rounds p) none (requested_units p.config.profile)
        expanded_capacity (λ v. v) sizes meets h w
