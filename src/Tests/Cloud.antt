-- ===== src/Tests/Cloud.antt =====
-- A cloud that is a list of volumes, and the servers over it.
use caa_csi_block_driver.GoMap.{Params}
use caa_csi_block_driver.Tests.Files.{parameters, Content, mount_info, memory, without, wrong_type}
use caa_csi_block_driver.Prelude.{
  Option, ℤ, pos, String, ◌<>◌, Bool, true, false, none, some, List, [], ◌∷◌, ◌==◌, if◌then◌else◌,
  ◌≡◌, refl,
}
use caa_csi_block_driver.Platform.Http.{HttpClient}
use caa_csi_block_driver.Node.Labels.{sa_token_path, sa_ca_path}
use caa_csi_block_driver.Result.{Result, ok, err, error}
use caa_csi_block_driver.Provider.{VolumeInfo, VolumeRecoverer, BlockVolumeProvider}
use caa_csi_block_driver.Server.{Setup, World}
use caa_csi_block_driver.Node.{MountInfo, Statfs, VolumeUsage, bytes, NodeSetup, NodeState}

abbrev pub Volumes : Type 0
Volumes = List VolumeInfo

abbrev pub new_volume : String → ℤ → VolumeInfo
new_volume id size = record {
  volume_id = id;
  path = "/dev/" <> id;
  size_bytes = size;
  provider = "aws";
  metadata = [];
}

unfoldable pub remove_volume : String → Volumes → Volumes
remove_volume id [] = []
remove_volume id (v ∷ vs) =
    let rest = remove_volume id vs in if v.volume_id == id then rest else v ∷ rest

unfoldable pub has_volume : String → Volumes → Bool
has_volume id [] = false
has_volume id (v ∷ vs) = if v.volume_id == id then true else has_volume id vs

abbrev pub lister : VolumeRecoverer Volumes
lister = record { list_managed_volumes = λ vs. (ok vs, vs) }

abbrev pub provider : BlockVolumeProvider Volumes
provider = record {
  create_volume = λ id size vs. (ok (new_volume id size), new_volume id size ∷ vs);
  delete_volume = λ id vs. (ok tt, remove_volume id vs);
  get_volume_info = λ id vs. (ok (new_volume id (pos 1)), vs);
  volume_exists = λ id vs. (ok (has_volume id vs), vs);
  expander =
      some (record {
        expand_volume = λ id size vs. (ok tt, new_volume id size ∷ remove_volume id vs);
      });
  recoverer = some lister;
  snapshotter = none;
  cloner = none;
}

abbrev pub no_env : String → String
no_env k = ""

abbrev pub setup : Setup
setup = record {
  platform = memory no_env;
  dir = "/store";
  Cloud = Volumes;
  registry = ("aws", λ params vs. (ok provider, vs)) ∷ [];
}

abbrev pub root_fs : Statfs
root_fs = record {
  frsize = 0;
  bsize = 4096;
  blocks = 1000;
  bavail = 300;
  bfree = 400;
  inode_count = 100;
  ffree = 60;
}

abbrev pub usage : VolumeUsage
usage = record { available = pos 1; total = pos 3; used = pos 2; unit = bytes }

abbrev mount_of : Content → Result MountInfo
mount_of (mount_info m) = ok m
mount_of _ = err wrong_type

pub mount_of-ok :
    (m : MountInfo) (b : Content)
    → ◌≡◌ {A = Result Content} (ok (mount_info m)) (ok b)
    → mount_of b ≡ ok m
mount_of-ok m b h = let e : mount_info m ≡ b = cc in rw (← e) refl

-- A node in a cluster.
abbrev pub in_cluster : String → String
in_cluster k =
    if k == "KUBERNETES_SERVICE_HOST"
    then "10.0.0.1"
    else if k == "KUBERNETES_SERVICE_PORT"
    then "443"
    else ""

-- What the API server sends of every node.
abbrev node_object : Content
node_object = parameters (some (("topology.kubernetes.io/zone", "zone-1") ∷ []))

abbrev labels_of : Content → Result (Option Params)
labels_of (parameters labels) = ok labels
labels_of _ = err wrong_type

abbrev http : HttpClient Content Volumes
http = record {
  Pool = Unit;
  Request = String;
  Response = Content;
  text_of = λ b. "token";
  cert_pool = λ b. some tt;
  join_host_port = λ host port. host <> ":" <> port;
  path_escape = λ s. s;
  url = λ scheme host path. scheme <> "://" <> host <> path;
  new_request = λ url. ok url;
  set_header = λ key value req. req;
  send = λ pool req vs. (ok node_object, vs);
  read_all = λ limit resp vs. (ok resp, vs);
  status_code = λ resp. 200;
  unmarshal_labels = labels_of;
}

-- A machine with no commands. A directory is no file, and holds at most a mount info.
abbrev pub machine : NodeSetup
machine = record {
  platform = memory in_cluster;
  Cloud = Volumes;
  registry = ("aws", λ params vs. (ok provider, vs)) ∷ [];
  mkdir_all = λ f d. (ok tt, f);
  remove_all = λ f d. (ok tt, without (d <> "/mountInfo.json") f);
  encode_name = λ s. s;
  decode_name = λ s. some s;
  marshal_mount = λ m. ok (mount_info m);
  unmarshal_mount = mount_of;
  unmarshal_usage = λ s. if s == "[bytes]" then ok (some usage ∷ []) else err (error "not JSON");
  trim_space = λ s. s;
  look_path = λ s. err (error "not found");
  run = λ args vs. (err (error "no such command"), vs);
  statfs = λ path vs. ok root_fs;
  http = http;
}

abbrev pub fresh : World setup
fresh = record { files = []; cloud = [] }

abbrev pub booted : NodeState machine
booted = record {
  files = (sa_token_path, parameters none) ∷ (sa_ca_path, parameters none) ∷ [];
  cloud = [];
  devices = [];
  topo = none;
}
