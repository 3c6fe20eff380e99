-- ===== src/Lib.antt =====
-- The applicant tracking backend, a NestJS service over a relational database. Recruiters submit
-- candidates to jobs; a submission runs through internal review, three interview rounds (L1 to
-- L3) and a final outcome; jobs belong to offices (a branch and a business unit of a tenant),
-- and what a member may do follows from permissions and office. Modelled are the rules that
-- decide what is stored and who may store it; they are pure functions of the stored row, the
-- request and the signed-in member, and the services call them between their queries.
--
-- Submissions: src/recruiter-submissions.
--   Model: the fields of a submission and of an update request (tracker-contract.ts).
--   RoundUpdate: roundUpdate of round-update.ts. `scan` is its first loop up to the break,
--     `reset` its second.
--   Capabilities: submissionCapabilities of submission-capabilities.ts.
--   Validate: validateTrackerUpdate of validate-tracker-update.ts. Validate/Shape has the checks
--     of the request's form, Validate/Interviews the loops over the rounds, Validate/Outcome the
--     rest. A `Context` holds the variables in scope of the checks.
--   History: submission-history.ts, with the replay of recorded changes.
--   Saving: RecruiterSubmissionsService.update as a transaction on one stored submission.
--     Saving/Prepare has the checks and the plan that it makes from the row it read,
--     Saving/Assigned the object `data`, Saving/Commit the database transaction. A `Run` is any
--     interleaving of members who read and save. `updated_at` is in microseconds, as the database
--     keeps it, and a version is its milliseconds.
--   Update: what RecruiterSubmissionsService.update (recruiter-submissions.service.ts) stores of
--     the rounds and the outcome; its proofs are below Update/.
--   Buckets: trackerBucketConditions of tracker-workflow.ts and the counts of the buckets in
--     recruiter-submissions.service.ts. A SQL expression is what it computes of a row; UPPER is
--     read as toUpperCase.
--   Amounts: isContractJob and submissionCompensation of submission-compensation.ts; the text of
--     an amount is the list of its code points, and a value that the request's type does not
--     allow (a number, an object) is left out. An amount in the range has at most ten digits
--     before the point, the number that digits is given.
-- Access: src/auth. Actor: AuthUser. Members: userManagementActions of user-management-policy.ts.
--   Roles: admin-role-assignment-policy.ts and role-request-policy.ts. Passwords: the services of
--   auth-password.service.ts, the table password_reset_tokens being a list of rows and each SQL
--   statement a function on it; Passwords/Tokens runs such statements in any order, and
--   Passwords/Retired says what a new link closes. `Faults` are the calls of forgotPassword that fail.
--   Deliveries: the queue of role-requests.service.ts (dispatchPending, deliver, finish) on the
--   rows of role_request_deliveries; a `Step` is what a worker does to the table, and workers may
--   interleave; the calls that deliver makes are given by what they come back with. Requests:
--   resolveRole, reviewers, review and submit of the same file; an identifier is a text that is
--   spelled as the database spells it, but the ones of a request, which `stored` casts.
--   Offices: utils/branch-scoping.ts.
-- Jobs: src/jobs. Actions: job-action-policy.ts. Pods: automatic-pod.ts, with
--   business-units/pod-strategy.ts and auth/workspace-features.ts. Staffing:
--   resolveJobStaffingScope of job-staffing.ts and auth/utils/branch-resolver.ts; what its
--   queries find is the record `Lookups`. Submitting: job-submission-access.ts.
-- Delivery: src/business-units. Pipeline: delivery-pipeline.ts, with currentTrackerRound of
--   recruiter-submissions/tracker-workflow.ts; a `Condition` is a filter of the database client,
--   evaluated by `selects` as SQL does.
-- Teams: src/pods, pods.service.ts. Leads: promoteToPodHead and demoteFromPodHead. Recruiters:
--   validateRecruiters. Available: getAvailableRecruiters. Scope: resolveScope and
--   assertPodAccess. Changes: create and remove; Editing: update. The rows of one workspace are
--   three lists, and the transactions are functions on them.
-- Sessions: observe of src/user-management/session-tracking.service.ts on lists of rows of the
--   tables it reads and writes (Observe), and the update of the membership by revoke of
--   user-management.service.ts. What a call reads of the process (the time, the settings, the
--   remembered checkpoint, whether the transaction fails) is part of the call. Refused: calls and
--   ends in any order; its lemmas are in Revoked and Ended.
-- Prelude: texts, JavaScript values and exceptions.
--
-- A thrown HTTP exception is the constructor `throws` of `Result`, with the exception's kind and
-- its message (messages with a computed part hold the fixed part and that part). A field of a
-- request or of a row is a `Js` value, so that an absent field (undefined), null and a text stay
-- apart. Date parsing and printing, the clock and the URL parser belong to the JavaScript runtime
-- and are the fields of `Runtime`; JSON.parse is the parameter `Parser`. String.trim and
-- toUpperCase are modelled on ASCII, Latin-1 and Unicode white space. Every function is structural
-- recursion, so no fuel is needed. A statement on the database succeeds, unless the model says
-- otherwise, and a row's id is unique where a theorem says so. Times are milliseconds and rates
-- hundredths, both natural numbers.
--
-- Not modelled: the queries and the other transactions of the services, the identity provider, e-mail, the
-- web sockets, the job board integrations and the HTTP layer, which are input, output and calls of
-- other systems.
mod Prelude
pub mod Submissions
pub mod Access
pub mod Jobs
pub mod Delivery
pub mod Teams
pub mod Sessions
