-- ===== src/Server.antt =====
-- What the controller's handlers in pkg/driver work on: the node's files and the cloud.
pub mod Frame
use caa_csi_block_driver.Prelude.{String}
use caa_csi_block_driver.Result.{Result, Code, done}
use caa_csi_block_driver.Action.{Action, reply_of}
use caa_csi_block_driver.Provider.{Call, Registry}
use caa_csi_block_driver.Platform.{Platform}

-- The parts of a running plugin that no handler changes: the Go packages, the directory of the
-- volume store and the registered providers.
pub record Setup : Type 1 where
  pub platform : Platform
  pub dir : String
  pub Cloud : Type 0
  pub registry : Registry Cloud

pub record World (S : Setup) : Type 0 where
  pub files : S.platform.Files
  pub cloud : S.Cloud

abbrev pub Handler : Setup → Type 0 → Type 0
Handler S A = Action (World S) A

module _ (S : Setup) {A : Type 0} where
  -- A value computed from the files.
  abbrev pub gets : (S.platform.Files → A) → Handler S A
  gets read w = (done (read w.files), w)

  -- A call into the cloud, whose error becomes a status.
  unfoldable pub call : Code → Call S.Cloud A → Handler S A
  unfolding reply_of
  call code m w = let (r, cloud) = m w.cloud in (reply_of code r, record w { cloud = cloud })

  -- A call into the cloud whose error the handler inspects.
  unfoldable pub attempt : Call S.Cloud A → Handler S (Result A)
  attempt m w = let (r, cloud) = m w.cloud in (done r, record w { cloud = cloud })

  -- An operation on the files that returns a value beside them.
  unfoldable pub on_files : (S.platform.Files → A × S.platform.Files) → Handler S A
  on_files m w = let (r, files) = m w.files in (done r, record w { files = files })
