-- ===== src/Node/Publish/Written.antt =====
-- What NodePublishVolume leaves for the Kata runtime.
use caa_csi_block_driver.Prelude.{
  String, ◌≡◌, ◌≢◌, refl, [], arith, eq_iff, inl, inr, ◌==◌, if◌then◌else◌,
}
use caa_csi_block_driver.GoMap.{get, set, entries, lookup-set}
use caa_csi_block_driver.Result.{ok, done, Result-cases}
use caa_csi_block_driver.Platform.{IsLawful}
use caa_csi_block_driver.Node.{MountInfo, NodeSetup, NodeState, volume_dir, mount_info_file_name}
use caa_csi_block_driver.Node.Publish.{
  NodePublishVolumeRequest, node_publish_volume, published_info, published_metadata,
}

-- The path of a volume that its context names, or else the device that it was staged on.
abbrev pub path_or_device : String → String → String
path_or_device path device = if path == "" then device else path

-- What the Kata runtime reads of a volume: its device, an ext4 file system with no options, and its
-- ID and path.
pub record Describes (volume_id device path : String) (info : MountInfo) : Type 0 where
  pub type_of : info.volume_type ≡ "directvol"
  pub device_of : info.device ≡ device
  pub fs_type_of : info.fs_type ≡ "ext4"
  pub no_options : info.options ≡ []
  pub id_of : get info.metadata "cloud-volume-id" ≡ volume_id
  pub path_of : get info.metadata "cloud-volume-path" ≡ path_or_device path device

Describes-published_info :
    (req : NodePublishVolumeRequest) (device : String)
    → Describes req.volume_id device
        (get (entries req.volume_context) "cloud-volume-path")
        (published_info req device)
unfolding published_info published_metadata
Describes-published_info req device =
    let context = entries req.volume_context in
    let m = set context "cloud-volume-id" req.volume_id in
    record {
      type_of = refl;
      device_of = refl;
      fs_type_of = refl;
      no_options = refl;
      id_of = ground (
        arith,
        lookup-set context "cloud-volume-id" req.volume_id "cloud-volume-id",
        lookup-set m "cloud-volume-path" device "cloud-volume-id",
      );
      path_of = ground (
        arith,
        lookup-set context "cloud-volume-id" req.volume_id "cloud-volume-path",
        lookup-set m "cloud-volume-path" device "cloud-volume-path",
      );
    }

-- Making a directory changes no file that can be read, and a mount info that was written as JSON reads back.
pub record KeepsMounts (S : NodeSetup) : Type 0 where
  pub read-mkdir_all :
      (f : S.platform.Files) (d p : String) (b : S.platform.Bytes)
      → S.platform.read_file f p ≡ ok b
      → S.platform.read_file (S.mkdir_all f d).1 p ≡ ok b
  pub mount_roundtrip :
      (m : MountInfo) (b : S.platform.Bytes) → S.marshal_mount m ≡ ok b → S.unmarshal_mount b ≡ ok m

module _ (S : NodeSetup) (L : IsLawful S.platform) (K : KeepsMounts S) where
  -- After a publication that is reported, the file that the Kata runtime reads for the target path
  -- holds a mount info with the device that the volume was staged on, which is not empty, an ext4
  -- file system, no options, the volume's ID, and its path, which is the device unless the request's
  -- context names one.
  pub read-node_publish_volume :
      (req : NodePublishVolumeRequest) (w w' : NodeState S)
      → node_publish_volume S req w ≡ (done tt, w')
      → (b : S.platform.Bytes) × (S.platform.read_file w'.files
            (S.platform.join (volume_dir S req.target_path) mount_info_file_name)
          ≡ ok b)
        × (info : MountInfo) × (S.unmarshal_mount b ≡ ok info)
        × (get w.devices req.volume_id ≢ "")
        × Describes req.volume_id
            (get w.devices req.volume_id)
            (get (entries req.volume_context) "cloud-volume-path")
            info
  unfolding node_publish_volume
  read-node_publish_volume req w w' h =
      let info = published_info req (get w.devices req.volume_id) in
      elim (Result-cases (S.marshal_mount info)) [
        | inl (b, e) ↦ (
          b,
          grind (arith, L.read-write, K.read-mkdir_all),
          info,
          K.mount_roundtrip info b e,
          λ none_staged. ground (arith, eq_iff (get w.devices req.volume_id) ""),
          Describes-published_info req (get w.devices req.volume_id),
        )
        | inr (c, e) ↦ absurd (ground arith)
      ]
