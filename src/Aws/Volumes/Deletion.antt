-- ===== src/Aws/Volumes/Deletion.antt =====
-- DeleteVolume of the controller in pkg/driver/controllerserver.go with the AWS provider of
-- pkg/provider/aws/provider.go below it.
use caa_csi_block_driver.Prelude.{ℕ, String, ◌<>◌, ◌≡◌, ◌≢◌, refl, arith, eq_iff}
use caa_csi_block_driver.Result.{GoError, ok, err, done}
use caa_csi_block_driver.Provider.{new_block_volume_provider}
use caa_csi_block_driver.Provider.Calls.{◌>>=◌, try, wrapping}
use caa_csi_block_driver.Platform.{VolumeRecord}
use caa_csi_block_driver.Server.{Setup, World}
use caa_csi_block_driver.Store.{load, delete}
use caa_csi_block_driver.Controller.{delete_provider_params}
use caa_csi_block_driver.Controller.Lookup.{load_volume_record-of_load}
use caa_csi_block_driver.Controller.Delete.{DeleteVolumeRequest, delete_volume}
use caa_csi_block_driver.Aws.{AwsProvider, tag_filter, volume_tag_key}
use caa_csi_block_driver.Aws.Clone.{aws_block_provider}
use caa_csi_block_driver.Aws.Cloud.{Ec2Laws}
use caa_csi_block_driver.Aws.Volumes
use caa_csi_block_driver.Aws.Volumes.{find_ebs_volume_id, tagged_volumes, delete_found}

module _ {Cloud : Type 0} (p : AwsProvider Cloud) where
  -- A search that fails ends the deletion without an error.
  delete_volume-unanswered :
      (v : String) (c : Cloud) (e : GoError) (c' : Cloud)
      → p.ec2_client.describe_volumes (tag_filter ("tag:" <> volume_tag_key) v) c ≡ (err e, c')
      → Volumes.delete_volume p v c ≡ (ok tt, c')
  unfolding Volumes.delete_volume find_ebs_volume_id tagged_volumes delete_found ◌>>=◌ try wrapping
  delete_volume-unanswered v c e c' h = rw h refl

module _ (S : Setup) (p : AwsProvider S.Cloud) (L : Ec2Laws p.ec2_client) (pages : ℕ)
    (ttl : String) where
  -- Where the registered factory gives the AWS provider and EC2 keeps its laws, a DeleteVolume of a
  -- volume with a record, whose search for the EBS volume fails, is reported as done: the record is
  -- deleted from the store, while every EBS volume of the cloud is still there.
  pub delete_volume-forgets :
      (req : DeleteVolumeRequest) (w : World S) (rec : VolumeRecord) (e : GoError) (c' : S.Cloud)
      → req.volume_id ≢ ""
      → load S.platform S.dir req.volume_id w.files ≡ ok rec
      → new_block_volume_provider S.registry (delete_provider_params rec) w.cloud
        ≡ (ok (aws_block_provider p pages ttl), w.cloud)
      → p.ec2_client.describe_volumes (tag_filter ("tag:" <> volume_tag_key) req.volume_id) w.cloud
        ≡ (err e, c')
      → (delete_volume S req w ≡ (
        done tt,
        record { files = (delete S.platform S.dir req.volume_id w.files); cloud = c' },
      ))
        × (L.volumes c' ≡ L.volumes w.cloud)
  unfolding delete_volume aws_block_provider
  delete_volume-forgets req w rec e c' named found made_it failed =
      let unanswered = delete_volume-unanswered p req.volume_id w.cloud e c' failed in
      (
        ground (
          arith,
          eq_iff req.volume_id "",
          load_volume_record-of_load S req.volume_id w rec found,
          made_it,
          unanswered,
        ),
        L.describe_keeps failed,
      )
