-- ===== src/Lib.antt =====
-- OpenCOI, a tracker for certificates of insurance (TypeScript). A certificate's extracted facts are
-- confirmed by a reviewer and compared with a versioned ruleset; the result is a list of findings and
-- a label for the document. Reminders are sent before a confirmed policy expires, uploads pass a
-- limiter, and the results are exported as CSV.
--
-- Parts and files:
--   Base: shared names; Booleans, lists and texts over the native numbers, integers, and the stable
--     sort that stands for Array.prototype.sort.
--   Dates: calendar dates of shared/domain.ts. iso_date is isoDate, add_iso_date_days is
--     addIsoDateDays, iso_date_to_epoch_day is isoDateToEpochDay. Dates/Calendar, Parse, Add, Order
--     hold the lemmas and theorems, Dates/Examples the runs.
--   Domain: facts, findings, exceptions and labels of shared/domain.ts. Domain/Label says what the
--     label means.
--   Rules: the engine of shared/rules.ts. Requirement and Finding hold its data; Schema is the chain of
--     zod schemas (parse_ruleset is parseRuleset); Period, Limit, Endorsement, Policy, Candidate and
--     Evaluate follow evaluatePolicyPeriod, evaluateLimit, evaluateEndorsements, evaluatePolicy,
--     compareCandidateEvaluations and evaluateCoverageRequirement; Compliance is evaluateCompliance.
--     Met, Origin, EveryFinding and Total hold the lemmas of the theorems in Compliant, Chosen,
--     HumanAuthority, Schema/Stable, Schema/Distinct, Schema/Valid and Compliance/Returns.
--   Csv: shared/csv.ts. Csv/Reader is a strict reader of RFC 4180, an independent description of the
--     format.
--   Uploads: server/http/uploadCapacity.ts, the limiter's closures as a state with one flag for each
--     accepted request.
--   Reminders: the reminder operations of server/db.ts and the cycle of server/services/reminders.ts.
--     Claim, Mark and Create are the statements of the repository; Delivery and Cycle the service.
--     Steps is the relation of all changes that workers of the service make, in any interleaving of
--     their statements; Refines, Settles, Renewals, Keys, Final and Fencing
--     hold the theorems, Held and Claimed the lemmas on a granted claim; Ends describes how a reminder ends.
--   Audit: server/audit.ts. Json is hashEvent's canonical text, Append is appendAuditEvent, Verify is
--     verifyAuditChain; Verify/Chain says what a valid chain is. SHA-256 and JSON.parse of the stored
--     metadata are a parameter, Platform.
--   Webhooks: the address guard of server/services/webhooks.ts. An address is what isIP takes it for, as
--     numbers; Ipv6 is ipv6Integer, which reads the number from a text, Halves its lemmas and Written the
--     texts that it reads. Blocks describes the refused IPv4 addresses as blocks, Target the IPv6 ranges
--     and the resolution. The lookup and the URL parser are what their callers give.
--   Outbox: server/services/domainEvents.ts and the deliveries of server/services/webhooks.ts, over the
--     tables of server/services/integrationSchema.ts. Publish is publishDomainEvent, Feed
--     listDomainEvents and getDomainEvent, Endpoints the administration of endpoints and the replay,
--     Claim the statements on a lease, Batch runWebhookDeliveryBatch with what it awaits and what others
--     do meanwhile as parameters. Steps is the relation of all changes that the services make, in any
--     interleaving. Sound, Keys, Granted and Due hold the lemmas on the deliveries; Refines, Progress,
--     Sending, Final, Fencing, FanOut, Numbers, Pages and Bounds the theorems. A random token or id is
--     a parameter. A batch runs over its candidates, so no fuel is used.
--   Security: the hashes of opaque tokens of server/security.ts; SHA-256 and HMAC are a parameter, Digest.
--   ServiceAccounts: server/services/serviceAccounts.ts. Token is the pattern of secretIdFromToken, Manage
--     the operations of the administration, Authenticate authenticateServiceAccount. Steps is the relation
--     of all changes; Lookup holds the lemmas, Authentic, Revoked and Issued the theorems. Random ids and
--     tokens are inputs.
--   Projections: the two summaries of a vendor in server/services/projections.ts. Reference is
--     vendorSummaryView, Listed the statement and the mapping of listVendorSummaryViews; Aggregates and
--     Agree compare them; the ranked subqueries of the statement are the same functions as in Reference.
--     A date is the number of its day, with the order of its text; no date is an
--     empty text. The text search and the collation of names are parameters.
--
-- Conventions:
--   A function that throws returns none; what was written before stays where the source writes first.
--   A string is the list of its UTF-16 code units. localeCompare is a parameter, Collation, of which
--   only a consistent order is asked. A number of minor units or days is a natural number or an
--   integer, and what the schemas refuse is refused in the model. A money sum above 2^53 - 1 is none,
--   which becomes an unknown finding, as in the source. Times of the reminder service are milliseconds since the year 0, as numbers; the
--   ISO texts of the table have the same order. All loops run over lists; only decimal digits
--   take fuel, the number itself, which has no fewer units than digits.
--
-- Not modelled: titles and explanations of findings, zod's handling of unknown keys and of values of
--   another type, the SQL joins that select renewal candidates, mail texts, and the rest of the server,
--   the client and the tools.
pub mod Base
pub mod Dates
pub mod Domain
pub mod Rules
pub mod Csv
pub mod Uploads
pub mod Reminders
pub mod Audit
pub mod Webhooks
pub mod Outbox
pub mod Security
pub mod ServiceAccounts
pub mod Projections
