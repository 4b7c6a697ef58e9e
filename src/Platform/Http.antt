-- ===== src/Platform/Http.antt =====
-- Go's packages net/http, net/url, crypto/x509 and encoding/json, as far as the lookup of a node's
-- labels in pkg/driver/topology_node.go calls them.
use caa_csi_block_driver.Prelude.{ℕ, String, Option}
use caa_csi_block_driver.GoMap.{Params}
use caa_csi_block_driver.Result.{Result}
use caa_csi_block_driver.Provider.{Call}

-- A pool of certificates from PEM data, which may have none; a URL from its scheme, host and path; a
-- GET request; the client's call, which uses a pool; the start of a response's body, at most some
-- number of bytes; and the labels of a node object, which may have none.
pub record HttpClient (Bytes Cloud : Type 0) : Type 1 where
  pub Pool : Type 0
  pub Request : Type 0
  pub Response : Type 0
  pub text_of : Bytes → String
  pub cert_pool : Bytes → Option Pool
  pub join_host_port : String → String → String
  pub path_escape : String → String
  pub url : String → String → String → String
  pub new_request : String → Result Request
  pub set_header : String → String → Request → Request
  pub send : Pool → Request → Call Cloud Response
  pub read_all : ℕ → Response → Call Cloud Bytes
  pub status_code : Response → ℕ
  pub unmarshal_labels : Bytes → Result (Option Params)
