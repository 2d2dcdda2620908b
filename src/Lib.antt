-- ===== src/Lib.antt =====
-- Verification of the vuln4shift backend: the manager's API, the digest writer, the syncs with Pyxis
-- and VMaaS and of exploits, the cleaner, the Kafka client and the client of AMS, translated from the
-- Go code, with the theorems that make them correct.
--
-- The manager (manager/) answers requests on the rows of a database. Its middleware
-- (manager/middlewares/filterer.go) parses the parameters of a request into filters
-- (manager/base/parsers.go), which change a query (manager/base/filters.go) that is then run
-- (manager/base/query.go). The digest writer (digestwriter/) takes messages with the digests of a
-- cluster's images and links the cluster to the images in the database. The Pyxis sync (pyxis/) keeps
-- the repositories, images and CVEs of that database as Pyxis gives them, through the client of
-- base/api/client.go.
--
-- - Prelude: what the other files share. Results is Go's pair of a value and an error, Action the same
--   over a state, GoMap Go's maps, Text its strings, Sort the package sort.
-- - Strings: the functions of the packages strings, strconv and time that the program calls.
-- - Models: rows and severities (base/models/models.go, base/models/types.go).
-- - Manager/Filters, Manager/Parsers, Manager/FilterParser: manager/base/filters.go and parsers.go. A
--   filter is a constructor of `Filter`, its ApplyQuery a clause of `apply_query`.
-- - Manager/Query: a query is the list of the calls of the builder, and `keeps` says which rows the
--   conditions keep. Manager/ListQuery: ListQuery of manager/base/query.go, with the counting and the
--   fetching of rows as parameters.
-- - Manager/Filterer: manager/middlewares/filterer.go.
-- - Digest/Message, Digest/Consumer: digestwriter/consumer.go and base/utils/payload_tracker.go. The
--   counters of a consumer are fields of a record and wrap at their width. A `go` statement keeps the
--   event that it hands on, and its call is a function of its own.
-- - Digest/Storage: digestwriter/storage.go. The statements on the database are the record `Database`,
--   over a state of its own; each transaction keeps the phase that it is left in.
-- - Client: base/api/client.go. The transport works on a state of the world.
-- - Pyxis/Api: pyxis/api.go. The three loops over pages are one loop with the function that adds the
--   data of a page.
-- - Pyxis/Tags: SortTags of base/utils/gorm.go, extractTags and the tests for an update of
--   pyxis/pyxis.go. Pyxis/Profile: pyxis/profile.go. Pyxis/Cache: pyxis/database.go.
-- - Pyxis/Image, Pyxis/Repo, Pyxis/Repos: registerMissingCves and syncImage, syncRepo, syncRepos of
--   pyxis/pyxis.go. The global maps are the record `Maps`, which a transaction only reads, and those of
--   pending rows the record `Pending`, which it changes.
-- - Kafka/Config, Kafka/Consumer, Kafka/Producer: base/utils/kafka.go, with the settings of
--   base/utils/config.go. The messages of a claim and the sessions that come about are lists, marking a
--   message is a parameter, and what a `select` finds is given to a call of SendMessage.
--   Kafka/Consumer/Digests runs the consumer with the processor of digestwriter/consumer.go.
-- - Vmsync/Api, Vmsync/Sync: vmsync/api.go, vmsync/vmsync.go and vmsync/database.go. The statements on
--   the database are a record, as in Pyxis/Image.
-- - Cleaner: cleaner/cluster.go. A time counts nanoseconds, and the product of the retention wraps.
-- - Expsync: expsync/ and base/api/github.go, with the text of the statement that updates the exploits.
-- - Amsclient, Amsclient/Details: manager/amsclient/ and base/ams/types.go. A subscription is what the
--   getters of the library give, and an empty page ends the loop.
-- - Tests: runs of the model, and the theorems at concrete inputs.
--
-- Parameters stand for what is not in the repository: the database behind gorm, the HTTP transport, the
-- codecs of JSON, gzip, YAML and UUIDs, the parser of floats and the clock. What a theorem needs of
-- them is a record of laws or a hypothesis, and holds of the instance in Tests.
--
-- Strings are lists of bytes and taken to be ASCII. An ID or a timestamp is a natural number, and a
-- number that the code gives a width wraps or is bounded as written out. A map is a list of entries; a
-- loop over it goes in the order of the list, which is any order. Totals of Pyxis are natural numbers;
-- the quotient of floats that counts the pages is exact below 2 ^ 43.
--
-- The only fuel is that of the loops over pages, whose length the server decides; two rounds more than
-- the pages of the greatest total, or than the most pages that are announced, are enough, and one round
-- more than the pages that are not empty.
--
-- Not modelled: the metrics and logs, the reading of most of the configuration, the controllers with
-- their SQL, the responses, the authentication, and calls of SendMessage that overlap, which race on
-- the fields of the producer.
pub mod Prelude
pub mod Strings
pub mod Models
pub mod Manager
pub mod Digest
pub mod Client
pub mod Pyxis
pub mod Kafka
pub mod Vmsync
pub mod Cleaner
pub mod Expsync
pub mod Amsclient
mod Tests
