-- ===== src/Lib.antt =====
-- AppCat: the tools that run VSHN's managed services on Kubernetes. The repository holds the
-- composition functions (pkg/comp-functions), the controllers and admission webhooks (pkg/controller),
-- the maintenance jobs (pkg/maintenance), the API server (pkg/apiserver) and the exporters. The parts
-- meet in Kubernetes objects: one part writes an object, another is called when it changes.
--
-- Billing.antt and the modules below it model the billing controller, pkg/controller/billing, with the
-- resource of apis/vshn/v1/billing_service.go:
--   Billing/Types      the BillingService with its spec, status, finalizer and annotations
--   Billing/Client     the Kubernetes API, Odoo, the clock and Go's map order, as a record of calls
--   Billing/Events     findEvent, hasBacklog and the other searches of events.go
--   Billing/Prune      pruneEventsIfNeeded; Prune/Marks and Prune/Spec prove what it leaves
--   Billing/Queue      processQueue and all below it (delivery.go); Queue/Order: which event is taken;
--                      Queue/Drain: rounds that succeed; Queue/Refusal and Queue/Collision: rounds that
--                      do not
--   Billing/Resend     handleResendAnnotation (resend.go)
--   Billing/Conditions setCondition and updateStatus (conditions.go)
--   Billing/Lifecycle  enqueueEvent, handleItemCreation, handleItemScaling, handleDeletion and
--                      handleRemovedItems (create.go, scale.go, delete.go, remove.go)
--   Billing/Reconcile  Reconcile and New (billing_handler.go)
--   Billing/Examples   an API server in memory, on which the theorems are run; Examples/Lifecycle: the
--                      runs of deletions, items and the finalizer
--
-- TcpGateway.antt and the modules below it model the webhook that places TCP listeners on gateways,
-- pkg/controller/webhooks/tcpgateway:
--   TcpGateway/Sharding   SelectGateway (sharding.go); Sharding/Selection: what it answers
--   TcpGateway/Objects    what is read from XListenerSets (allocator.go), and ToInt32 of
--                         pkg/common/utils/convert.go; Objects/Capacity: sets placed one after another
--   TcpGateway/Cluster    the Kubernetes API and the clock, as a record of calls
--   TcpGateway/Allocator  AllocatePort and tryReclaimStaleLease (allocator.go); Allocator/Range: which
--                         port it returns; Allocator/Exclusive: leases that are held
--   TcpGateway/Handler    Handle and parseAllowedGateways (handler.go); Handler/Frame: what stays of an
--                         object; Handler/Ports: the loop over the listeners; Handler/Admission: what
--                         is let in; Handler/Total: that there is an answer
--   TcpGateway/Examples   runs on two gateways and two ports; Examples/Requests: whole requests
--
-- Maintenance.antt and the modules below it model the wait for running backups, pkg/maintenance/backup:
--   Maintenance/Backup    WaitForRunningBackups and IsBackupStuck (waiter.go), and the functions of
--                         cnpg.go, k8up.go and stackgres.go that find running backups
--   Backup/Waiting        what the end of the wait says
--   Backup/Running        which backups hold up a maintenance
--   Maintenance/Postgresql
--                         the maintenance of PostgreSQL (postgresql.go) and GetLatestMinorVersion
--                         (pkg/auth/stackgres/client.go); Postgresql/Streams: what the events of
--                         a watch say; Postgresql/Runs: runs of a schedule of operations;
--                         Postgresql/Schedule: the schedule of a cluster; Postgresql/Versions:
--                         which version is the latest
--   Maintenance/Examples  a poll of three turns; the files below it run the other parts
-- Three more modules below Maintenance model the updates of instances:
--   Maintenance/Semver    what the code uses of the semver library, as a record
--   Maintenance/Release   ReleaseLatest (pkg/maintenance/release/release.go); Release/Latest: which
--                         revision is chosen; Release/Update: what is done to claim and composite
--   Maintenance/Helm      DoMaintenance and the version strategies (pkg/maintenance/helm/helmpatcher.go);
--                         Helm/Patches: which version is chosen; Helm/Maintain: what is patched;
--                         Helm/Registry: the tags of an image; Registry/Pages: all pages are read
--
-- SliExporter.antt and the modules below it model the manager of the probes, pkg/sliexporter/probes:
--   SliExporter/Probes    StartProbe, StopProbe, runProbe and the reasons of sendProbe (manager.go), as
--                         steps that the goroutines take in any order; Probes/Invariant and
--                         Probes/Reached: what holds in all states that they reach;
--                         Probes/Overlap: a run with two probes of one instance
--   SliExporter/Examples  an instance that is started twice
--
-- Webhooks.antt and the modules below it model the validating webhooks, pkg/controller/webhooks:
--   Webhooks/Deletion     the protection against deletion (deletionprotection.go) and the handlers for
--                         managed (generic_deletionprotection_handler.go) and unmanaged objects
--                         (unmanaged_protection.go); Deletion/Holds: what is held back;
--                         Deletion/Managed and Deletion/Unmanaged: what is answered
--   Webhooks/Disk         ValidateDiskDownsizing (default_handler.go) and the plans of
--                         pkg/common/utils/plans.go; Disk/Size: which disk a composite has;
--                         Disk/Growth: which updates are downsizings and what passes
--   Webhooks/Examples     runs on objects with and without labels, and on sizes
--
-- Runtime.antt and the modules below it model parts of the runtime of the composition functions,
-- pkg/comp-functions/runtime:
--   Runtime/Naming        the escaping of names (naming.go); Naming/Conforms: the rules for names;
--                         Naming/Escape: that escaped names follow them
--   Runtime/Protection    the protection annotations (function_mgr.go); Protection/Names: lists of names
--                         in a text; Protection/Refinement: the set of names that an annotation is
--   Runtime/Dependencies  readiness and the waiting for other resources (function_mgr.go);
--                         Dependencies/Waiting: when a resource is deployed
--   Runtime/Examples      names and a service with three resources
--
-- Quotas.antt and the modules below it model the quotas, pkg/common/quotas and pkg/common/utils:
--   Quotas                the data and the arithmetic of resources (resources.go)
--   Quotas/Sidecars       the sidecars (sidecars.go) and the default quotas
--   Quotas/Limits         CheckQuotas (quotas.go) and CheckResourcesAgainstQuotas (resources.go)
--   Quotas/Sizes          checkQuotas of pkg/controller/webhooks/default_handler.go
--   Quotas/Annotations    AddNamespaceQuotas (quotas.go)
--   Quotas/Admission, Quotas/Requests, Quotas/Products
--                         what passes, what is asked for, and when products are exact
--   Quotas/Examples       an organization with two namespaces
--
-- A Go method that holds a BillingService by pointer is a computation over the object and the state
-- `W` of the outside world: `M W A`. What it did to the object before an error stays done, as in Go.
-- The outside world is the parameter `Client W`; `Storage`, `Accepts`, `Hears`, `Walks` and
-- `Updates` name what a theorem assumes of it, and the server in memory shows that this can hold. Searches by index are
-- recursions on the list; the loop over a Go map is a walk over its keys in an order that the outside
-- world chooses. The loops over lists are structural, so no fuel is needed; `rounds n` runs
-- processQueue `n` times, as the controller does by requeueing, and the theorem on draining says how
-- many rounds are enough. The loop of AllocatePort runs on fuel, for its port is an int32 that wraps around:
-- where the end of the range is the greatest int32 the loop of the source never ends by itself. For any
-- other range of positive ports the fuel is the number of ports and one more, which is proved enough.
-- The loops over the pages of a registry run on fuel too: a turn for each page is proved enough.
--
-- Not modelled: the rounding of times to seconds that storing an object makes, resource versions (a
-- write that conflicts is a call that fails), the watches and the rate limiter, logging, the HTTP
-- client of pkg/odoo, and the other parts of the repository.
pub mod Common
pub mod Billing
pub mod TcpGateway
pub mod Maintenance
pub mod SliExporter
pub mod Webhooks
pub mod Runtime
pub mod Quotas
