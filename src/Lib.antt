-- ===== src/Lib.antt =====
-- osde2e: cluster versions, the provider of clusters, their life, health and upgrade
--
-- osde2e provisions OpenShift clusters, tests them, and upgrades them. A provider
-- (pkg/common/providers/ocmprovider) launches, lists and deletes clusters, and it lists versions, of
-- which the version to install and the version to upgrade to are chosen (pkg/common/versions). A
-- cluster is then launched and awaited, its health is checked until it is clean a number of times in
-- a row, and in the end it is deleted or given more time (pkg/common/cluster). An upgrade is
-- scheduled with the provider, triggered and followed (pkg/common/upgrade). A krkn-ai run
-- (pkg/krknai) checks what a user gives it, and runs a container twice, around which the expiry of
-- the cluster is moved; its results are read from CSV files (pkg/krknai/aggregator). A cleanup
-- deletes old clusters (cmd/osde2e/cleanup). A tool gives log files to a language model
-- (internal/llm/tools), without what a sanitizer finds in them (internal/sanitizer).
--
-- Files. Prelude and its children: lists, texts, integers, sorting, ranks and the regular expression
-- matcher that the components share. Go: panics and errors; Go/Calls, code that makes calls one
-- after the other; Go/Steps, code that reads and changes a state. Semver: the outside version
-- library as an interface (the class Semver, its laws SemverLaws) and a sample that meets it.
--   Spi/Version              pkg/common/spi/version.go
--   Versions/Common          pkg/common/versions/common/utils.go
--   Versions/Settings        the settings that the selectors read and write (config.go)
--   Versions/Install         pkg/common/versions/installselectors: one `choose_...` for each
--                            `SelectVersion`, and one selector record for each selector type
--   Versions/Upgrade         pkg/common/versions/upgradeselectors, in the same way
--   Versions/Selector        getInstallVersion and setInstallVersion of versionselector.go
--   Versions/ClusterVersions getUpgradeVersion, setUpgradeVersion and SelectClusterVersions
--   Health                   pkg/common/cluster/healthchecks, one file for each check
--   Cluster/Poll             PollClusterHealth of pkg/common/cluster/clusterutil.go
--   Cluster/Wait             the wait for clean polls in a row of the same file
--   Cluster/Provisioning     WaitForOCMProvisioning of the same file
--   Cluster/Names            clusterName, and RandomStr of pkg/common/util/util.go
--   Cluster/Config           the settings, the clusters and the calls of a cluster's life
--   Cluster/Launch           ProvisionCluster
--   Cluster/Setup            ConfigureVersion, WaitForClusterReadyPostInstall; in Setup/Provision
--                            Provision, ProvisionOrReuseCluster, InstallAddonsIfConfigured
--   Cluster/Teardown         DeleteCluster, UpdateClusterProperties, HandleExpirationExtension
--   Managed                  pkg/common/upgrade: Schedule, Operator, Trigger and Progress are parts
--                            of managed.go, Runs is RunUpgrade and VersionToChannel of upgrade.go
--   Spi/Cluster              pkg/common/spi/cluster.go
--   Ocm                      pkg/common/providers/ocmprovider, by its files:
--     Provider               the state, the settings and the calls of the provider
--     Clusters               the reading of a cluster, its caches and its properties (cluster.go)
--     Deletion               DeleteCluster, with the wait until the cluster is ready
--     Listing                ListClusters, IsValidClusterName and the clusters of an account
--     Choices, Reserve       random choices (also flavour.go, sku.go), and the reserved clusters
--     Quota                  quota.go
--     Description, Launch    GenerateProperties, the zones, the image sources, and LaunchCluster
--     Gates                  upgrades.go, and the upgrade policies of cluster.go
--     Addons, Proxy, Logs    InstallAddons, proxy.go, logs.go
--     Environments           environments.go, and two methods of ocm.go
--     Versions               versions.go
--   Krkn/Query               validatePromQL of pkg/krknai/params_validation.go
--   Krkn/Inputs              the health check endpoints of the same file, and PreProcess of
--                            pkg/krknai/krknai.go
--   Krkn/Runs                Execute of pkg/krknai/krknai.go
--   Krkn/Results             pkg/krknai/aggregator/aggregator.go
--   Cleanup                  collectActiveClusters and the deletions of cmd/osde2e/cleanup/cmd.go
--   Sanitizer                internal/sanitizer: rules.go (Rules) and sanitizer.go
--   ReadFile                 internal/llm/tools/read_file.go; Request is the validation
--   TestResults              collectTestResults of internal/aggregator/aggregator.go
--   Examples                 tests, and each result at a concrete input
--
-- State. A selector takes a World, the settings and the version list, and returns it changed: the
-- in-place sort and the writes to the settings show in it. SelectClusterVersions keeps a
-- VersionSelector; the wait keeps its two counters and the statuses it has asked for. A call that
-- panics is `panics` of Go.Outcome. The managed upgrade is a Run, the list of its calls and its end;
-- the life of a cluster is a Step on a World of settings and calls, and a panic is the end `dies`.
-- Provision runs SelectClusterVersions on the same settings, and RunUpgrade ends with the wait of
-- Cluster/Wait. The provider is a Step on its State: settings, the caches of clusters and of
-- kubeconfigs, and the calls so far, on which every reply of the service depends; of a call that the
-- code retries, the last try is the call. An error is the format and the texts of its `fmt.Errorf`
-- call.
--
-- Bounds. Go's int and int64 wrap at 64 bits (`add_int`, `% word_size`), so results on indices ask
-- for sums below 2^63. Loops are recursions on lists. A poll loop runs over the list of its rounds,
-- and the end of the list is the timeout, so no fuel is needed there; the pages of the versions
-- endpoint are read on fuel, one for each page, so a hundredth of the number of versions, rounded
-- up, is enough; the listings of clusters are read on fuel too, and there the loop of the code may
-- go on for ever; the wait before a deletion has the rounds of its poll; the batches of the file
-- tool are at most as many as the lines; the decimal text of n uses n + 1 rounds, and n has no more
-- digits than that.
--
-- Outside. The semver library, of which results on the order of versions assume the laws of
-- SemverLaws, the replies of providers and of the cluster's API, the conversion of unstructured
-- objects, the test of an error for a retry, the clock, regular expressions of the sanitizer,
-- floats, the reader of CSV, and the order of a Go map are parameters or the order of lists. Not
-- modelled: log messages, nil pointers inside version lists, the concurrency of the settings store,
-- the clients of the cluster's API (getRestConfig, ClusterConfig), the health check job, the
-- connection of the OCM provider, the ROSA provider, the AWS clients with the resources that a
-- cleanup deletes through them, the credentials of a GCP account but for its project, the summary of
-- a krkn-ai configuration, the file of the audit log, the test runner and the reports.
pub mod Prelude
pub mod Go
pub mod Semver
pub mod Spi
pub mod Health
pub mod Cleanup
pub mod ReadFile
pub mod Sanitizer
pub mod TestResults
pub mod Cluster
pub mod Versions
pub mod Managed
pub mod Krkn
pub mod Ocm
pub mod Examples
