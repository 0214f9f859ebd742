-- ===== src/Lib.antt =====
-- A verification library for the web frontend of IOP, the infrastructure operations platform: the
-- logic of frontend/src that decides what is scanned, imported, shown, sent and kept secret.
--
-- The parts and how they interact. The pages keep React state and call the backend through one
-- HTTP client, whose interceptors add the access token and refresh it; the session tells the
-- route guard what to show; long scans answer with a stream of server-sent events, which one
-- reader cuts into events and hands to the handlers of a page.
--
-- * Address models the IPv4 arithmetic of frontend/src/pages/NetworkScan/NetworkScanPage.tsx
--   (ipToInt, isIPInCIDR), which frontend/src/pages/IPRecords/IPRecordsPage.tsx repeats
--   (ipv4ToInt, isIPInCIDR).
-- * Scan models frontend/src/pages/NetworkScan/NetworkScanPage.tsx and frontend/src/api/scan.ts:
--   Lookup is findSubnetForIP, Cidrs parseCidrs, Estimate the estimates and the confirmation,
--   Page the state with handleScan, Progress the progress timer, Review what a scan leaves,
--   Selection the table's row handlers, Groups the grouping, Import handleImport.
-- * Auth.Client models frontend/src/api/client.ts, Auth.Session
--   frontend/src/context/AuthContext.tsx and frontend/src/components/common/ProtectedRoute.tsx.
-- * Stream models readSSE of frontend/src/api/integrations.ts; BulkScan models
--   frontend/src/components/common/BulkCheckAvailabilityModal.tsx over
--   frontend/src/api/ipRecords.ts, and CheckModal
--   frontend/src/components/common/CheckAvailabilityModal.tsx, whose runs supersede each other.
-- * IpRecords models frontend/src/pages/IPRecords/IPRecordsPage.tsx: Page the list and its
--   filters, Submit the form with the quick subnet, Bulk the actions on one and on the selected
--   records.
-- * SubnetTree models frontend/src/pages/Subnets/SubnetsPage.tsx, Vault.Folders buildTree of
--   frontend/src/pages/Vault/FolderTree.tsx, Vault.Reveal frontend/src/pages/Vault/useReveal.ts,
--   Vault.Generator frontend/src/pages/Vault/PasswordGeneratorPage.tsx, UnusedIps
--   frontend/src/pages/UnusedIPs/UnusedIPsPage.tsx.
-- * PaloAlto models frontend/src/pages/PaloAltoCheck/PaloAltoCheckPage.tsx: the tests on what is
--   typed, Single the check of one address as a step relation, Bulk the scan of many addresses
--   over the calls of frontend/src/api/integrations.ts, and the saving of those found, Panels the
--   panels of a result and of the recent checks.
-- * Integrations models the drawers of frontend/src/pages/Integrations: PaloAlto, Vsphere, and
--   Assigned those of Device42 and Zabbix over what the two share in Drawer.
-- * Vault.FolderActions models the handlers of frontend/src/pages/Vault/FolderTree.tsx and
--   frontend/src/pages/Vault/VaultPage.tsx, Vault.Cabinet the saving of a cabinet in
--   frontend/src/pages/Vault/CabinetModal.tsx, Share frontend/src/pages/Share/SharePage.tsx.
-- * SubnetTree.Scan models handleScanSubnet of frontend/src/pages/Subnets/SubnetsPage.tsx,
--   IpRecords.History frontend/src/pages/IPRecords/IPRecordHistoryDrawer.tsx, Duplicates
--   frontend/src/components/common/DuplicatesModal.tsx, Assistant
--   frontend/src/pages/Assistant/AssistantPage.tsx, Users
--   frontend/src/pages/Users/UsersPage.tsx, AuditLog frontend/src/pages/AuditLog/AuditLogPage.tsx.
-- * Types holds the interfaces of frontend/src/types, Api the outcome of a call, Text the string
--   functions of JavaScript that the code uses, Base the helpers.
--
-- How state is modelled. The state of a component is a record with the names of its useState
-- hooks and refs; a handler is a function of it, split at its await: `start_...` runs up to the
-- request and `settle_...` takes the answer, which is an argument (Response). Calls of message
-- and notification are data in a list of notices. Where a property is about several handlers,
-- events are data and `run` performs a list of them, in any order.
--
-- Bounds and parameters. Numbers are natural numbers, 32-bit words modulo 2 ^ 32 and shift counts
-- modulo 32; parseInt is exact, as JavaScript's is below 2 ^ 53. Durations are counted in tenths
-- and ten-thousandths of a second where the source has decimals. toLowerCase, localeCompare, the
-- random words, JSON.parse, JSON.stringify, encodeURIComponent, toFixed, differences of dates and
-- the answers of the server are arguments; Vault.Cabinet and UnusedIps.Detail take the server
-- itself. A text is the list of its UTF-16 code units. Fuel: `drain` gets the length of its buffer,
-- of which each round takes two code units; `decimal` gets more than the number has digits;
-- `fetch_from` gets its fuel from the caller, and the theorem on it says how much is enough.
--
-- Not modelled: the rendering, the pages that forward a form to one endpoint, the copied
-- component libraries, the backend, and the configuration.
pub mod Base
pub mod Text
pub mod Types
pub mod Api
pub mod Address
pub mod Scan
pub mod SubnetTree
pub mod Vault
pub mod Auth
pub mod Stream
pub mod BulkScan
pub mod IpRecords
pub mod UnusedIps
pub mod CheckModal
pub mod PaloAlto
pub mod Integrations
pub mod Duplicates
pub mod Assistant
pub mod Share
pub mod Users
pub mod AuditLog
