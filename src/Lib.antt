-- ===== src/Lib.antt =====
-- Kootha: a model of the TypeScript code of the repository, and what has been proved of it.
--
-- The program plans field advertising and keeps proof of it. Administrators plan and assign works in
-- a web application (apps/web), drivers carry them out with a phone application (apps/driver) that
-- records location points while it may be offline, GPS devices send batches of telemetry to an HTTP
-- function (netlify/functions), and rules that all of them share are in packages/shared/src. The
-- database keeps the state (supabase/migrations).
--
-- Where the parts are modelled:
--   * Driver/Buffer.antt: the offline buffer of location points of apps/driver/src/locationProof.ts, and
--     the round of apps/driver/App.tsx that sends a batch of them. A buffer is a list of points; the
--     server's answer is an argument that may be anything.
--     Driver/Session.antt has the rest of that file's rules: the status of tracking, the decision to
--     capture a point, and the ids of repeated requests.
--   * Simulator.antt, Simulator/Random.antt: the GPS simulator of
--     packages/shared/src/physicalTelemetry/simulator.ts, with its clock and its generator. Each method
--     is a function from the simulator to the simulator that follows, or to an error. The loop of
--     `advance` runs on fuel; a round moves the due time on by at least a millisecond, so target + 2
--     rounds are enough. An instant beyond the dates of the language is a RangeError, after which the
--     simulator is not described; times are added exactly, as the language does up to 2 ^ 53.
--   * Host: the HTTP host of netlify/functions/_telemetry/http-host-v2.ts. Host/Calls.antt has the
--     calls that it makes of its surroundings (rate limits, authentication, storage, the record of
--     rejections) as a record of functions that see all calls made before, so that they may be any
--     program with a state; Host/Request.antt the checks of the request and the reading of the body;
--     Host/Handler.antt the handler, which returns a response and the calls it has made;
--     Host/Reply.antt the responses. The adapter is a parameter, which Generic fills.
--   * Work: the rules of packages/shared/src on a work. Work/Execution.antt is execution.ts,
--     Work/Workflow.antt is workflow.ts, Work/Tracking.antt is tracking.ts, Work/Assignment.antt is
--     assignment.ts, and Work/Closure.antt is closure.ts, with the text of the summary in
--     Work/Closure/Summary.antt. Statuses.antt has the vocabularies of statuses.ts and enquiry.ts, with
--     the labels that the summary prints.
--   * Identity: identity.ts and contentIdentity.ts of packages/shared/src/physicalTelemetry.
--     Identity/Canonical.antt has the canonical text, whose depth is counted down over the 17 levels that
--     the source allows; Identity/Event.antt and Identity/Content.antt the identities, with the digest as
--     a function. Identity/Measure.antt, Identity/Reader.antt and Identity/SourceText.antt describe what
--     the code means without its steps: the limits, a reader of JSON, the source of an event. The fuel of
--     the reader is any number from the cost of the value on.
--   * Generic.antt: the adapter of netlify/functions/_telemetry/generic-http-adapter.ts, from parsing
--     (Generic.antt) to the canonical event (Generic/Build.antt, Generic/Normalize.antt).
--     Generic/Hosted.antt puts it into the host.
--   * Export: packages/shared/src/operationsExport.ts. Export/Csv.antt writes a file, Export/Envelope.antt
--     checks an envelope, Export/Rfc4180.antt is a reader of CSV files.
--   * Telemetry: packages/shared/src/physicalTelemetry. Telemetry/Validation.antt and its folder are
--     validation.ts. Telemetry/Timestamp.antt is timestamp.ts over the calendar of
--     Telemetry/Calendar.antt, Telemetry/EventTime.antt is eventTime.ts. A search for a year runs
--     over 10001 years from the year 0, which the four digits of a year do not exceed.
--   * Registry.antt: the states of a GPS device of packages/shared/src/deviceRegistry.ts.
--   * Worker.antt: one run of the rule worker of netlify/functions/_m22/rule-worker.ts. The database and
--     the clock are functions of the calls made before. The loop over the queue is recursion on the four
--     iterations that the source allows.
--   * Comparison.antt: one run of the worker of netlify/functions/_m23/comparison-worker.ts, with at most
--     four waves of five calls. Comparison/Outcome.antt says when it fails and what it reports else.
--   * Pairing.antt: packages/shared/src/physicalTelemetry/m23PairingOracle.ts, over any order of ids.
--   * Prelude: what these share. Prelude/Json.antt has the values of JSON, Prelude/Print.antt prints
--     them, Prelude/Text.antt has the string methods, Prelude/Sort.antt the stable sort,
--     Prelude/Number.antt the numbers of JavaScript, of which the integers are exact and the others are
--     told apart as far as the code does.
--
-- Numbers: a count, an id or an instant is a natural number where the code checks or produces one; the
-- 32-bit generator keeps its wrap-around; a bound of 2 ^ 53 is kept where the code checks
-- `Number.isSafeInteger`. Strings that are only compared are strings; those that are taken apart are
-- lists of UTF-16 code units. What is null and what is undefined is the same where the code does not
-- tell them apart.
--
-- Not modelled: the database's functions and policies (SQL), the pages and screens, the calls of the
-- network and of the phone, cryptography, and the build's scripts. Components of the shared package
-- that are not in the list above are not modelled either.
pub mod Driver
pub mod Host
pub mod Prelude
pub mod Simulator
pub mod Statuses
pub mod Work
pub mod Telemetry
pub mod Registry
pub mod Worker
pub mod Pairing
pub mod Export
pub mod Identity
pub mod Generic
pub mod Comparison
