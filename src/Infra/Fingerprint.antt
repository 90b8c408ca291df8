-- ===== src/Infra/Fingerprint.antt =====
-- internal/infra/fingerprint: resource dimensions and the identity of a time series
-- (resource.go, hierarchy.go, fingerprint.go, hash.go).
pub mod Identity
pub mod Series
use ingest.Prelude.{
  ℕ, Bool, true, false, List, [], ◌∷◌, ◌++◌, if◌then◌else◌, GoString, lit, text_key, elem,
}
use ingest.GoMap.{sorted_keys, at, insert}
use ingest.Infra.Otlp.{StringMap, first_non_empty}

pub record ResourceDimensions : Type 0 where
  pub service : GoString
  pub host : GoString
  pub pod : GoString
  pub container : GoString
  pub environment : GoString
  pub version : GoString
  pub namespace : GoString

abbrev pub namespace_labels : List GoString
namespace_labels = lit "service.namespace" ∷ lit "k8s.namespace.name" ∷ []

abbrev pub service_name_labels : List GoString
service_name_labels =
    lit "service.name"
    ∷ lit "cloudwatch.log.group.name"
    ∷ lit "k8s.deployment.name"
    ∷ lit "k8s.deployment.uid"
    ∷ lit "k8s.statefulset.name"
    ∷ lit "k8s.statefulset.uid"
    ∷ lit "k8s.daemonset.name"
    ∷ lit "k8s.daemonset.uid"
    ∷ lit "k8s.job.name"
    ∷ lit "k8s.job.uid"
    ∷ lit "k8s.cronjob.name"
    ∷ lit "k8s.cronjob.uid"
    ∷ lit "faas.name"
    ∷ []

abbrev pub host_labels : List GoString
host_labels =
    lit "k8s.node.name"
    ∷ lit "k8s.node.uid"
    ∷ lit "host.id"
    ∷ lit "host.name"
    ∷ lit "host.ip"
    ∷ lit "host"
    ∷ []

-- `ResolveResource`
unfoldable pub resolve_resource : StringMap → ResourceDimensions
resolve_resource attrs = record {
  service = first_non_empty attrs service_name_labels;
  host = first_non_empty attrs host_labels;
  pod = first_non_empty attrs (lit "k8s.pod.name" ∷ lit "k8s.pod.uid" ∷ []);
  container =
      first_non_empty attrs
        (lit "k8s.container.name" ∷ lit "container.name" ∷ lit "container_name" ∷ []);
  environment = first_non_empty attrs (lit "deployment.environment" ∷ lit "env" ∷ []);
  version = first_non_empty attrs (lit "service.version" ∷ lit "version" ∷ []);
  namespace = first_non_empty attrs namespace_labels;
}

abbrev pub separator_byte : ℕ
separator_byte = 255

-- the bytes that the loop of `FingerprintHash` writes to the digest, for the keys left
unfoldable pub identity_bytes_from : StringMap → List GoString → GoString
identity_bytes_from attrs [] = []
identity_bytes_from attrs (k ∷ ks) =
    k ++ (separator_byte ∷ (at k attrs ++ (separator_byte ∷ identity_bytes_from attrs ks)))

unfoldable pub identity_bytes : StringMap → GoString
unfolding identity_bytes_from sorted_keys
identity_bytes attrs = identity_bytes_from attrs (sorted_keys attrs)

abbrev pub high_cardinality_keys : List GoString
high_cardinality_keys =
    lit "k8s.pod.uid" ∷ lit "k8s.replicaset.uid" ∷ lit "container.id" ∷ lit "process.pid" ∷ []

unfoldable pub is_high_cardinality : GoString → Bool
is_high_cardinality k = elem k high_cardinality_keys

-- the loop over one of the two attribute maps, into `merged`
unfoldable pub merge_identity : StringMap → StringMap → StringMap
merge_identity merged [] = merged
merge_identity merged ((k, v) ∷ attrs) =
    merge_identity (if is_high_cardinality k then merged else insert k v merged) attrs

-- the map that `SeriesHash` hashes
unfoldable pub series_identity : GoString → GoString → StringMap → StringMap → StringMap
unfolding merge_identity is_high_cardinality
series_identity metric_name temporality res_attrs dp_attrs = insert (lit "__name__") metric_name (
    insert (lit "__temporality__") temporality
      (merge_identity (merge_identity [] res_attrs) dp_attrs))

-- `sum64` stands for the digest of the xxhash package.
module _ (sum64 : GoString → ℕ) where
  -- `FingerprintHash`
  unfoldable pub fingerprint_hash : StringMap → ℕ
  unfolding identity_bytes
  fingerprint_hash [] = 0
  fingerprint_hash attrs = sum64 (identity_bytes attrs)

  -- `SeriesHash`
  unfoldable pub series_hash : GoString → GoString → StringMap → StringMap → ℕ
  unfolding fingerprint_hash series_identity
  series_hash metric_name temporality res_attrs dp_attrs =
      fingerprint_hash (series_identity metric_name temporality res_attrs dp_attrs)
