-- ===== src/Lib.antt =====
-- The core of CasaOS-AppManagement, the service that installs, updates, backs up and watches the apps
-- of a CasaOS box.
--
-- Parts, and where they are modelled:
--
--   AppOperations  service/app_operations.go. One operation per app: the registry under its mutex is a
--     record, each function one step on it, and a closure handed out is a handle. World runs any
--     sequence of calls; Listing is about RunningOperations, Waiting about beginWaiting.
--   LogStore.Hub  pkg/logstore/hub.go. The fan-out of log lines: a subscriber's bounded queue, with the
--     parts of Publish and drain that hold the lock as steps, and the reader between them.
--   LogStore.Purge  pkg/logstore/purge.go. Which day files the retention and the cap take.
--   LogStore.Line  pkg/logstore/line.go. The text of a line and the names of files; Level guesses how bad a
--     line is.
--   LogStore.Query  pkg/logstore/query.go. Filter is which lines a query asks for, Cursor where a page
--     ends; Reader has the two readers of a day file, each over the file's bytes, one round of the loop of
--     next as one step; Pager merges the files of a day and fills a page. Pager.Pages and Pager.Next are
--     about the pages of one walk, Reader.Written about a file that FormatLine wrote.
--   Backup.Hold  service/backup_hold.go, backup_hold_recovery.go. Stopping an app for a copy, over the file
--     of notes and a daemon that is a parameter: Release, and Recovery at the next start.
--   Backup.Schedule  service/backup_schedule.go. Slots says where a schedule's slots are, Due which are due.
--   Backup.Retention  service/backup_retention.go. Which runs go.
--   Backup.Scheduler  service/backup_scheduler.go, backup_upgrade_hold.go. A tick over a runner that is a
--     parameter: Spent for the schedules it records, Ticks for the whole of it.
--   Backup.Inventory, Backup.Plan  service/backup_inventory.go, backup_plan.go. What an app is made of, and
--     the copies: Numbers for the folders of binds, Sources, HostPaths for what is the host's, Safety
--     for both parts together, Root for the place.
--   Restic.Router  pkg/restic/router.go. The nine calls over two engines that are parameters.
--   GitApps.State  service/git_app_state.go. The record of a git app, its History and its Attempts.
--   GitApps.Automatic  service/git_tags.go, git_deploy.go. What may be deployed without a click, over the
--     versions of semver, which are a parameter.
--   GitApps.View  service/git_app_view.go. The state that is shown of a git app, and whether it has news.
--   GitApps.Signature  service/git_webhook_signature.go. Who signed a delivery and what it asks for, over
--     HMAC-SHA256, which is a parameter.
--   GitApps.Webhook  service/git_webhook_receive.go. The checks that deliveries ask for: the maps under the
--     lock, and the goroutines that wait, as steps. Spacing is about the debounce, Pushes about what a
--     push leads to.
--   GitApps.Receive  service/git_webhook_receive.go, git_webhook.go. A delivery from the request to the
--     answer, and turning a webhook on and off.
--
-- Prelude holds what they share: tests on numbers and texts, lists by native numbers, Go's maps as
-- association lists, its sorts as an insertion sort, its path package and its decimal numbers.
--
-- A backup planned by Backup.Plan comes from Backup.Inventory, is due by Backup.Schedule, taken under
-- Backup.Hold, listed and deleted through Restic.Router, and Backup.Retention says which runs are deleted;
-- AppOperations keeps a backup and a deployment of one app apart.
--
-- Go's int and int64 are natural numbers wherever the code keeps them from being negative; a uint64 is
-- written with its wrap-around. A time is a number since the start of year 1, with 0 for the zero time.
-- Loops that are not over a list have fuel: the outer loop of PlanPurge a round for each file, and the decimal
-- digits of a number have one for each number up to it. A reader is given a round for each byte forwards and
-- two backwards, the loop of readDay one for each line of the day; the theorems say that this is enough.
--
-- Not modelled: HTTP routes and generated code, Docker, compose, rclone, restic and git as programs, the
-- disk, and the logs that the code writes about itself.
mod Prelude
pub mod AppOperations
pub mod Backup
pub mod GitApps
pub mod LogStore
pub mod Restic
