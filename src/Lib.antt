-- ===== src/Lib.antt =====
-- The logic of the Alike web console (webui/js), modelled and proved.
--
-- The console runs in a browser. It calls a web service, keeps what it answers in the browser's
-- `sessionStorage`, and turns statuses, sizes, times and addresses into the texts and the markup
-- of its pages. The model has its own logic, and takes what the browser, jQuery and the web
-- service give as arguments.
--
-- Base: names of the library passed on, Boolean tests on numbers, lists, whole numbers with a
-- sign, decimal texts and association lists.
-- Crc: `makeCRCTable` and `makeCRC` of webui/js/utils.js. A 32-bit word is its pattern, a number
-- below 2 ^ 32.
-- Net: `ipCheck`, `checkIP`, `maskToCIDR`, `CIDRToMask` of webui/js/utils.js, on lists of char
-- codes; the pattern is matched by backtracking (Net/Regex).
-- Status: the enumerations of webui/js/objects.js (Status/Enums) and the functions of
-- webui/js/utils.js that read a status: Status/Job for jobs and their entries, Status/File for
-- files, power states, platforms and check boxes. Status/Value has the values that can come from
-- the web service and the conversions that JavaScript makes of them; numbers are whole there, and
-- a text that is no decimal number is NaN. Status/Numeric is `isNumeric` of a text, with fractions,
-- exponents and the other bases.
-- Storage: the browser's storage as a list of items in the order of `key(i)`, `pruneStorage`, the
-- guid cache, `clearMetaCaches`. An item is the value whose JSON text the source keeps, so that
-- `JSON.parse` of what `JSON.stringify` wrote is the value itself.
-- Caches: `setNetworkCacheCB` and `setSrCacheCB` of webui/js/utils.js. They end with a storage and
-- the toasts that they show, or throw.
-- Format: sizes (Format/Size) and durations (Format/Duration) of webui/js/utils.js, on whole numbers,
-- and small functions on texts and lists (Format/Texts).
-- The floating-point quotients of sizes are by powers of two, and are kept as fractions.
-- Joblog: webui/js/joblogHelper.js, on descriptions as lists of char codes.
-- Jobs: `checkRunningJobs`, `jobDiff`, `showAlerts`, `makeVmPB` and `makeVmPbStatus` of webui/js/a3.js,
-- `makePB` of webui/js/utils.js. A round of the watch gives the storage that it leaves and the list
-- of what it does: toasts, reading the history, building the caches.
-- Pools: `setPoolCacheCB` and the searches in its cache, of webui/js/utils.js and webui/js/a3.js.
-- Service: the calls of the web service and what is kept of its sites, of webui/js/utils.js. A reply is
-- an argument; a call gives the list of what it does, a promise how it is settled.
-- Crumbs: `addCrumb` and `showCrumbs` of webui/js/utils.js.
-- Clock: `getTime`, `getDate`, `getDateCust`, `getScheduleTime`, `getScheduleVmSummaryText` and `getSchedNext`
-- (Clock/Next) of webui/js/utils.js; the parts of a local date, and the operations on dates, are
-- parameters.
-- Schedules: `saveScheduleRep`, `saveScheduleRestore` and `saveScheduleBackup` (Schedules/Backup) of
-- webui/js/events.js, from the form's fields to the steps that they take; what the awaited request
-- comes to is an argument. Schedules/Adding has the lists of systems of a replication and a restore,
-- Schedules/Backup/Loaded what `setSharedSched` and `editBackupSchedule` of webui/js/a3.js load.
-- Pager: the navigation and the rows (Pager/Rows) of `drawJobsTable` of webui/js/a3.js.
-- Enroll: the modal windows that test and save an A3 (Enroll/A3) and a host (Enroll/Host), of
-- webui/js/a3.js. A handler is cut at its `await`; Enroll/A3/Trace is the window of an A3 as a step
-- relation.
-- Destinations: where a system is restored to, of webui/js/a3.js, on the caches of Pools and Caches.
-- VmEdit: `editVmOn`, `editVmOff` and `editVmAccessIP` of webui/js/events.js.
-- Sync: `syncJoblog` and `drawJoblog` (Sync/Draw) of webui/js/a3.js, on a page that is its tables and
-- its rows.
-- Gfs: the page of the retention profiles, of webui/js/events.js and webui/js/a3.js.
-- Abd: the addresses of backup appliances, `abdUseDhcp`, `abdAddIp` and `abdDelIp` of
-- webui/js/events.js, on the masks of Net.
-- Schedules/Picking has the lists of systems and hosts of a backup, from the handlers of
-- webui/js/events.js that move their items and the functions of webui/js/a3.js that fill them.
-- Schedules/Options has the handlers of a schedule's options and the options of a replication that is
-- edited, Schedules/Edited what `editBackupSchedule`, and for their systems `editRepSchedule` and
-- `editRestSchedule`, of webui/js/a3.js load.
-- Explorer: the paths of the backup explorer, of webui/js/a3.js and webui/js/events.js, on the parts of
-- Net/Split.
-- Setup: the settings that are saved at once, of webui/js/events.js.
-- Actions: the start of a quick restore, the deletions and the licenses, of webui/js/events.js.
-- Hosts: `drawHostsTable` and `checkNoA3s` of webui/js/a3.js. Schedules/Table: `populateSchedules` of
-- webui/js/a3.js, on Clock and Pools.
--
-- Versions: the tables of backups and vaults, of webui/js/a3.js, with the handlers of their icons in
-- Actions. Systems: the tables of systems and agents, of webui/js/a3.js. Filters: the fields of
-- webui/js/events.js that filter lists.
--
-- Sync/Draw/Details has `getJobDetails` of webui/js/a3.js, with the logs that the storage keeps, and
-- Abd/Drawn the panels that `populateA3ABDs` of webui/js/a3.js draws.
--
-- Caches/Built has `buildMetaCaches` of webui/js/utils.js with the replies that follow it.
--
-- VmEdit/Header has `drawVmDetailHeader` of webui/js/a3.js, the page that has these texts.
--
-- Enroll/Agent is the window that adds an agent: `drawAddAgentModel`, `doTestAgent` and
-- `addAgentCallback` of webui/js/a3.js with their handlers in webui/js/events.js.
--
-- Schedules/Created is the form of a new schedule, of webui/js/a3.js, on the saves of Schedules.
--
-- Fuel: `scale` gets as many rounds as the size has bytes, and every round divides by 1024;
-- `binary_fuel` gets one more round than its number, which every round halves; `chunks` gets the
-- number of the bits, of which every round takes eight; `day_from` and `page_buttons` get the rounds
-- that their loops have at most.
--
-- Not modelled: the functions that only build markup or charts, the handlers and pages of
-- webui/js/a3.js and webui/js/events.js that are not named above, the bundled libraries, and the
-- parts of the repository that are not the console: the web service in PHP, the appliance's tools
-- and hooks, the engine in Java, the file system in C.
pub mod Base
pub mod Crc
pub mod Net
pub mod Status
pub mod Storage
pub mod Caches
pub mod Format
pub mod Joblog
pub mod Sync
pub mod Jobs
pub mod Pools
pub mod Service
pub mod Crumbs
pub mod Destinations
pub mod Clock
pub mod Schedules
pub mod Pager
pub mod Enroll
pub mod VmEdit
pub mod Abd
pub mod Gfs
pub mod Explorer
pub mod Setup
pub mod Actions
pub mod Hosts
pub mod Filters
pub mod Versions
pub mod Systems
