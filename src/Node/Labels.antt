-- ===== src/Node/Labels.antt =====
-- lookupNodeLabelsFromAPI and firstNonEmptyLabel of pkg/driver/topology_node.go: the region and the
-- zone of a node, from the labels of its object in the Kubernetes API.
use caa_csi_block_driver.Prelude.{
  ◌^◌, nat_eq, String, ◌<>◌, not, ◌||◌, Option, none, some, List, [], ◌∷◌, ◌==◌, if◌then◌else◌,
}
use caa_csi_block_driver.GoMap.{Params, get, entries}
use caa_csi_block_driver.Result.{Result, ok, err, error}
use caa_csi_block_driver.Provider.{Call}
use caa_csi_block_driver.Provider.Calls.{pure, returning, reject_if, wrapping, ◌>>=◌, ◌>>◌}
use caa_csi_block_driver.Node.{NodeSetup}

abbrev pub label_zone_keys : List String
label_zone_keys =
    "topology.kubernetes.io/zone" ∷ "failure-domain.beta.kubernetes.io/zone"
    ∷ "ibm-cloud.kubernetes.io/zone" ∷ []

abbrev pub label_region_keys : List String
label_region_keys =
    "topology.kubernetes.io/region" ∷ "failure-domain.beta.kubernetes.io/region"
    ∷ "ibm-cloud.kubernetes.io/region" ∷ []

abbrev pub sa_token_path : String
sa_token_path = "/var/run/secrets/kubernetes.io/serviceaccount/token"

abbrev pub sa_ca_path : String
sa_ca_path = "/var/run/secrets/kubernetes.io/serviceaccount/ca.crt"

-- firstNonEmptyLabel
unfoldable pub first_non_empty_label : Params → List String → String
first_non_empty_label labels [] = ""
first_non_empty_label labels (k ∷ keys) =
    if get labels k == "" then first_non_empty_label labels keys else get labels k

-- The region and the zone of a node object's labels.
abbrev pub region_and_zone : Option Params → String × String
region_and_zone labels = (
  first_non_empty_label (entries labels) label_region_keys,
  first_non_empty_label (entries labels) label_zone_keys,
)

pool_or_error : {Pool : Type 0} → Option Pool → Result Pool
pool_or_error none = err (error "parsing serviceaccount CA")
pool_or_error (some pool) = ok pool

module _ (S : NodeSetup) (files : S.platform.Files) where
  open S use {http, platform}

  -- The request for a node object.
  node_request : String → String → String → platform.Bytes → Result http.Request
  node_request host port node_id token = elim (http.new_request url) [
    | err e ↦ err e
    | ok req ↦
        ok (http.set_header "Authorization" ("Bearer " <> S.trim_space (http.text_of token)) req)
  ]
    where
      url : String
      url =
          http.url "https" (http.join_host_port host port)
            ("/api/v1/nodes/" <> http.path_escape node_id)

  -- The labels of a node object that the API answers with.
  unfoldable pub get_labels : http.Pool → http.Request → String → Call S.Cloud (Option Params)
  unfolding ◌>>=◌ wrapping
  get_labels pool req node_id = do
    resp ← wrapping ("getting node " <> node_id) (http.send pool req)
    body ← wrapping ("reading node " <> node_id <> " response") (http.read_all (2 ^ 20) resp)
    reject_if (not (nat_eq (http.status_code resp) 200)) (error ("getting node " <> node_id))
    wrapping ("decoding node " <> node_id) (returning (http.unmarshal_labels body))

  unfoldable pub labels_from_api : String → String → String → Call S.Cloud (String × String)
  unfolding pool_or_error node_request get_labels ◌>>=◌ wrapping
  labels_from_api host port node_id = do
    token ←
        wrapping "reading serviceaccount token" (returning (platform.read_file files sa_token_path))
    ca ← wrapping "reading serviceaccount CA" (returning (platform.read_file files sa_ca_path))
    pool ← returning (pool_or_error (http.cert_pool ca))
    req ← returning (node_request host port node_id token)
    labels ← get_labels pool req node_id
    pure (region_and_zone labels)

  -- lookupNodeLabelsFromAPI; outside of a cluster there is neither a region nor a zone.
  unfoldable pub lookup_node_labels : String → Call S.Cloud (String × String)
  unfolding labels_from_api
  lookup_node_labels node_id =
      let host = platform.getenv "KUBERNETES_SERVICE_HOST" in
      let port = platform.getenv "KUBERNETES_SERVICE_PORT" in
      if host == "" || port == "" || node_id == ""
      then pure ("", "")
      else labels_from_api host port node_id
