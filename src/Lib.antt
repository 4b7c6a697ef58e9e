-- ===== src/Lib.antt =====
-- The Go program caa-csi-block-driver: a CSI driver that makes block volumes in a cloud and hands
-- them to Kata containers.
--
-- Parts. A CSI controller (pkg/driver/controllerserver.go) makes, deletes, expands and snapshots
-- volumes through a cloud provider, which a registry (pkg/provider/factory.go) picks by the parameter
-- `cloudProvider`. It keeps a JSON record for each volume, and a manifest of the parameters, in a
-- directory (pkg/driver/volumestore.go), and rebuilds missing records from the volumes that the cloud
-- lists. Topology (pkg/driver/topology.go) moves between requests, parameters and responses. A CSI
-- node server (pkg/driver/nodeserver.go) keeps the device of every staged volume in memory, and tells
-- the Kata runtime of it by a mount info file. The driver (pkg/driver/driver.go) starts the services.
--
-- Files.
--   GoMap             Go's map[string]string as an association list; a nil map is `none`
--   Result            (value, error) results, gRPC codes and replies, with a panic as a reply
--   Action, Server    an RPC handler: from a state to a reply and the state that it leaves on every
--                     path. The controller's state, `World`, is the files and the cloud
--   Platform          os, filepath, strconv and encoding/json as parameters, with the laws that the
--                     driver relies on
--   Provider          pkg/provider/interface.go and factory.go
--                     Provider/Calls puts a provider's methods together from calls of its cloud,
--                     Provider/Pages has the loop over the pages of a listing,
--                     Provider/Specification what a provider promises on the sizes of its disks,
--                     Provider/History its successful calls one after another
--   Aws               pkg/provider/aws/provider.go: Settings (NewAWSProvider), Volumes, Snapshots,
--                     Clone. The EC2 client is the record `Ec2` of its calls; Aws/Cloud has the
--                     laws that EC2 documents of them, in which a request is carried out later
--   Azure             pkg/provider/azure/provider.go: Settings (NewAzureProvider), Names, Disks,
--                     Snapshots, Clone, in the same way; Azure/Cloud has the laws that Azure documents
--   Libvirt           pkg/provider/libvirt/provider.go over a record of file operations; Libvirt/Clone
--                     has CreateVolumeFromVolume, Libvirt/Failures the laws of the file system
--   Ibmcloud          pkg/provider/ibmcloud/provider.go: the parameters; Capacity (NormalizeCapacity),
--                     Volumes (configTag, checkOwnedVolume, volumeInfo), Listing (listVolumes),
--                     Lookup (lookupVolume), Operations and Recovery (the provider's methods). The
--                     SDK's session is the record `Session` of its calls; Ibmcloud/Cloud has the laws
--                     that the SDK documents of them, Effects and Refinement what creations and
--                     deletions do to the sizes of the volumes. No law says what UpdateVolume does
--                     with a capacity, so of an expansion it is only shown which call it makes
--   Identity          NewDriver and parseEndpoint of pkg/driver/driver.go, identityserver.go, and the
--                     announced capabilities
--   Driver            Run of pkg/driver/driver.go, which starts all services on the node's files and the
--                     cloud; Driver/Main is cmd/main.go
--   Store             pkg/driver/volumestore.go: `load` is Load, `save` is Save, `delete` is Delete,
--                     `write_manifest` is writeManifestLocked. Store/Env has paramsFromEnv and
--                     sanitizePersistableParams, Store/Recovery has RecoverFromCloud
--   Topology          pkg/driver/topology.go
--   Controller        pkg/driver/controllerserver.go: a child for each handler (Create, Delete, Expand,
--                     Snapshots, Capabilities), and loadVolumeRecord in Controller itself
--   Node              pkg/driver/nodeserver.go: Stage, Publish, Stats (with stats_linux.go; Stats/Darwin
--                     is stats_darwin.go), Cleanup, Info and Labels (with topology_node.go);
--                     Node/History is any sequence of calls
--   Tests             a file system in memory, a cloud and a machine, and the theorems applied to them
--
-- Bounds. The loops of the program run over lists, and are structural recursion. A client's loop
-- over the pages of ListSnapshots, `follow_pages`, has fuel; one round more than there are
-- snapshots is enough. A provider's loop over the pages of a listing has as fuel the number of
-- pages that its context lets through, and fails after them as the context's deadline makes it
-- fail. The loop of the IBM Cloud provider has no deadline but stops at a token that it has seen:
-- with more rounds than the service has tokens, and one more, its fuel does not run out. int64
-- statistics wrap around at 2 ^ 64, and sizes in GiB are converted to int32; sizes and counts
-- elsewhere are only compared and passed on, and are integers without a bound. The product of an
-- int32 and a GiB fits in int64.
--
-- Not modelled. The gRPC server after Serve, Driver.Stop and the signals that main waits for; the
-- texts of statuses, the arguments of error texts that nothing looks at, logging, contexts and
-- timeouts; the choice between the Linux and the Darwin file of statistics at build time: the node
-- server has the Linux one. A panic in the IBM Cloud provider, which reads a nil volume if the SDK
-- returns one, is an error. A method that holds a mutex is one step; overlapping calls of the
-- controller or of a provider are not modelled, those of NodeGetInfo on a node are. Go iterates
-- over a map in an unspecified order: copies of maps are folds from the right, which no property
-- depends on.
mod Prelude
pub mod GoMap
pub mod Result
pub mod Provider
pub mod Platform
pub mod Action
pub mod Server
pub mod Store
pub mod Identity
pub mod Aws
pub mod Azure
pub mod Libvirt
pub mod Ibmcloud
pub mod Topology
pub mod Controller
pub mod Driver
pub mod Node
mod Tests
