-- ===== src/Lib.antt =====
-- The schedule broker of the FCIM timetable application, as a verification library.
--
-- The program is a Next.js application (src/), a Cloudflare Worker that brokers the published
-- timetable documents (worker/src/, with worker-shared/), and a publisher that feeds the Worker
-- (tools/md-publisher/). The publisher watches the faculty's page and its PDFs, and opens a
-- publication with the Worker when they change; the Worker plans it, takes the uploads and moves
-- its pointer; the application stores the accepted timetables and shows them. The Worker keeps
-- everything in one R2 bucket, and any number of its invocations run at once over it; what makes
-- it correct is which write each invocation makes, on which condition, and after which reads. The
-- publisher must never report that nothing changed without having looked, and the application
-- must not show one course's timetable under another's name.
--
-- How the code is modelled. A handler is a tree of its calls (Worker/Bucket.antt): after each call
-- it branches on every answer that the bucket could give. `Ensures` (Worker/Bucket/Rules.antt)
-- says of all branches what each change requires of the calls before it, and what each result
-- reports, so it holds whatever other invocations do in between. Worker/Bucket/Runs.antt runs
-- trees over a bucket with R2's documented behaviour, alone and interleaved call by call. The
-- publisher is a tree of the same kind over its own calls (Publisher/Calls.antt): requests, the
-- clock, files. The application's storage passes its caches, files and database rows as a state,
-- and its screen is a state with the steps that a user and the network make (an indexed type).
--
--   Worker/Types             worker/src/types.ts, the stored records and the results
--   Worker/Keys              worker/src/keys.ts
--   Worker/Documents         the readers of stored JSON, one per kind of object
--   Worker/Instants          the date formats of worker/src/pointer.ts and maintenance.ts
--   Worker/Policy            worker-shared/fcim-policy.ts and pdf-inventory.ts
--   Worker/Pointer           worker/src/pointer.ts
--   Worker/Jobs              worker/src/jobs.ts and extractor.ts
--   Worker/Descriptors       planning and descriptors, in worker/src/publisher.ts
--   Worker/Opening           openPublication, in worker/src/publisher.ts, and page-api.ts
--   Worker/Finalize          runFinalize, in worker/src/publisher.ts
--   Worker/Maintenance       worker/src/maintenance.ts, and runReconcile of publisher.ts
--   Worker/Auth              worker/src/publisher-auth.ts and verifyAuth of accepted-handler.ts
--   Worker/Requests          requests, responses and header checks (stream-limit.ts)
--   Worker/Uploads           the file upload of worker/src/publication-api.ts
--   Worker/Publications      the other publisher routes of publication-api.ts
--   Worker/Accepted          worker/src/accepted-handler.ts
--   Worker/Courses           worker/src/courses.ts
--   Worker/Streams           the guards around an upload, in worker/src/stream-limit.ts
--   Worker/Concurrent        writing requests interleaved
--   Worker/Queue             the queue consumer and the cron producer of worker/src/index.ts
--   Models                   src/lib/models.ts
--   Courses                  src/lib/courses.ts, the configuration and the parameter
--   Source/Revision          src/lib/source/revision.ts
--   Storage                  src/lib/storage/index.ts
--   Client/CourseLoad        src/lib/client/course-load.ts
--   Client/Screen            the loading state of src/components/ScheduleApp.tsx
--   Client/Time              src/lib/client/time.ts
--   Publisher/Types          tools/md-publisher/src/types.ts
--   Publisher/Broker         tools/md-publisher/src/broker.ts
--   Publisher/Upstream       tools/md-publisher/src/upstream.ts
--   Publisher/Records        the stored records of tools/md-publisher/src/state.ts
--   Publisher/Store          the store of tools/md-publisher/src/state.ts
--   Publisher/Baseline       tools/md-publisher/src/baseline.ts
--   Publisher/Detect         detectChange, in tools/md-publisher/src/publish.ts
--   Publisher/Attempt        one publication attempt, in publish.ts
--   Publisher/Publish        runPublish, in publish.ts
--   Publisher/Check          runCheck, in publish.ts
--   Text                     strings as lists of UTF-16 code units
--
-- Parameters. The JavaScript runtime (`new URL`, `JSON.parse`, SHA-256, the two global scans of a
-- page, dates as text) is a record of functions (Worker/Platform.antt) of which nothing is
-- assumed. R2 and the queue are a record with the documented laws of conditional writes
-- (Worker/Bucket/Runs.antt). The clock and random ids are arguments.
--
-- Bounds. Handlers recurse over the files of a descriptor, the listed prefixes, the predecessors
-- to keep (two) or the pages to scan (three), as the source's loops do; the publisher follows a
-- redirect for at most the rounds of the source's own loop. No definition runs on fuel of its own.
-- Times are natural numbers of milliseconds, and a difference is written as a sum on
-- the other side where the source's could be negative.
--
-- What is left out. A stored document is read back as the record that was written, or as not
-- readable; a document of the same shape under another key is not told apart from it. A call of
-- the bucket or of the queue answers, and does not throw, except under the queue consumer, where
-- any call may throw. Creating a directory is part of the write that needs it. HTTP headers of responses, log lines and
-- messages are left out, as are a field's fixed literals. A spelling of an index above 999 is
-- given three units, of which the first is no digit, so that the file id is refused as in the
-- source. The Worker's routing (worker/src/index.ts) and status route, the length that
-- FixedLengthStream enforces, the publisher's other commands (doctor, the installers),
-- its command-line glue, and the application's course seeds, parser, updater, broker client, database
-- adapters and views are not modelled.
pub mod Prelude
pub mod Text
pub mod Models
pub mod Courses
pub mod Source
pub mod Client
pub mod Publisher
pub mod Storage
pub mod Worker
