-- ===== src/Lib.antt =====
-- The Terraform provider for Databricks: its models and what is proved of them.
--
-- The provider's resources turn the configuration of a user into calls of the Databricks REST API.
-- The parts that carry logic of their own are modelled here; the paths below are from the
-- repository's root.
--
-- Base holds the lists, texts and sorting that the parts share: Go's `strings` functions over
-- native texts, a stable sort for `sort.Slice`, and maps as lists of entries.
--
-- Common.Errors is the error type of common/http.go; a Go function that returns a value and an
-- error gives a `Result`. Common.Service is the remote service: a parameter that answers each
-- request from the requests before it. A method gives its result and the log of all requests, so
-- that a theorem can say which requests were sent, in which order, on success and on failure.
-- Common.Http is how common/http.go makes an error of a response and decides whether to retry;
-- Common.Http.Masking is what of a body it writes to the log; the JSON and regexp libraries are
-- parameters. Common.Client is the client of common/client.go: Providers the methods of
-- authentication, with those of common/azure_auth.go, common/azure_cli_auth.go and common/gcp.go,
-- and Authentication the choice between them. Common.Commands is the results of commands in
-- common/commands.go. Common.Pair is common/pair.go, whose IDs the resources for bindings use.
--
-- Compute.States is the state machine of compute/model.go, with `CanReach`; a state is one of the
-- eight constants or any other text. Compute.Clusters is compute/clusters.go: Model the data and
-- requests, Api the methods on one cluster, Reuse `GetOrCreateRunningCluster`, Events the paging of
-- events, and Configuration and Resource the handlers of compute/resource_cluster.go, with the
-- requests of compute/libraries.go. Its methods wait by `resource.RetryContext` of the Terraform
-- SDK, which Compute.Retry takes as a parameter: a function that makes some number of attempts, and
-- stops at the first that is finished or not retryable. Compute.Selection.NodeTypes and
-- Compute.Selection.SparkVersions are the selection of a node type and of a runtime version, which
-- `GetOrCreateRunningCluster` calls. Compute.Libraries is compute/libraries.go. Compute.Jobs is
-- compute/resource_job.go, and Compute.Pipelines compute/resource_pipeline.go: a method that reads
-- through a nil pointer ends in a panic, apart from its errors. Compute.Execution is
-- compute/commands.go, the session that runs a command on a cluster; Compute.Execution.Session is
-- its contract, and Compute.Execution.Whitespace is internal/utils.go.
--
-- Access.SqlPermissions is access/resource_sql_permissions.go, which runs SQL statements by an
-- executor on a cluster: the executor is a parameter. Access.Permissions is
-- access/resource_permissions.go, its API and, in Access.Permissions.Lifecycle, the handlers of the
-- resource.
--
-- Identity.Scim is identity/scim.go, and Identity.Groups is identity/groups.go with
-- identity/resource_group.go; Identity.Users is identity/users.go with identity/resource_user.go.
--
-- SqlAnalytics.Endpoints is sqlanalytics/resource_sql_endpoint.go. Mws.Workspaces is
-- mws/resource_workspace.go, with the networks of mws/resource_network.go; its client is that of
-- Common.Client. Exporter.Model is exporter/model.go, and Exporter.Emitting is how
-- exporter/context.go collects the resources that it exports.
--
-- Storage.Dbfs is storage/dbfs.go; base64 is a parameter, and where a theorem needs it the two
-- functions are assumed to round-trip on bytes.
--
-- Numbers are natural numbers: the sizes and counts of the source are not negative. The number of
-- cores of a node type, a float in the source, is counted in thousandths. Letters fold as in ASCII.
-- The order in which Go reads a map is the order of the list that stands for it.
--
-- Loops over data recurse on the data. The paging of `Events` takes fuel, and without enough says
-- that it runs on. `CanReach` runs on 16 rounds: the state machine lists ten successors in all, so
-- its queue is read at most eleven times. The loops of `Create` and `Read` in Storage.Dbfs take
-- fuel, and more than the length of the content is enough; a recursive listing takes the depth of
-- the directories, and `Emit`, which an importable's `Import` calls again, the depth of these
-- calls: its theorems hold for each depth.
--
-- Not modelled: the HTTP client itself and the refreshing of tokens, the schemas that the provider
-- makes by reflection, the exporter's table of resources and its conversion to HCL, the handlers of
-- pools and policies, SQL queries and dashboards, service principals and tokens, mounts and the
-- tests' helpers. The mutex of `GetOrCreateRunningCluster` is left out, since one call is modelled
-- at a time.
--
-- Tests holds runs at concrete inputs, and each theorem with hypotheses applied where they hold.
pub mod Base
pub mod Common
pub mod Compute
pub mod Access
pub mod Storage
pub mod Identity
pub mod SqlAnalytics
pub mod Mws
pub mod Exporter
mod Tests
