-- ===== src/Lib.antt =====
-- TailState: polls the read-only Tailscale API, keeps snapshots of a tailnet in SQLite, and posts
-- the changes that it finds. The development models the decisions of the Go program: what is
-- claimed, warned about, refused, shortened, and what state each decision leaves.
--
-- Parts, and the files that model them (paths from the repository's root):
--   * internal/textutil/textutil.go and `truncateBytes` of internal/notify/budget.go: Text.antt has
--     strings as bytes and the functions of `strings` that the program calls; Text/Truncate.antt
--     has `Truncate`, and Text/Truncate/Runes.antt what it does to whole runes.
--   * internal/web/throttle.go: Web/Throttle.antt. The two maps that `loginMu` guards are one
--     record, and each method is a function of the time, its arguments and that record.
--   * internal/webhook/webhook.go: Webhook.antt has the bounds and the result of a verification;
--     below it Signature has the header, and Verify `Verify` and `CollectorsFor`.
--   * internal/store/webhooks.go: Store/Triggers.antt has the table `webhook_triggers` and the WHERE
--     clauses; Claim, Finish and Record below it have the transactions. A transaction is a function
--     of the rows; one that fails returns the rows that it was given. Store/Metadata.antt has
--     `decodeWebhookMetadata`: a column is the number of its bytes and what `json.Unmarshal` makes
--     of it, and a row whose columns break a bound fails the transaction that reads it. The
--     timestamps of a row are typed.
--   * internal/store/outbox.go: Store/Outbox.antt has the table `outbox` and its destinations; Claim
--     below it has `ClaimDueOutbox`, and Finish the calls that a worker makes with a claimed item.
--   * internal/monitor/delivery.go, and `retryDelay` of internal/monitor/scheduler.go:
--     Monitor/Delivery.antt. What a send comes to, the clock and the random draws are arguments.
--   * `unionScopes` of internal/monitor/triggers.go, with `normalizeCollectors` of
--     internal/monitor/scheduler.go and `succeeds` of internal/monitor/poll.go: Monitor/Scopes.antt.
--   * internal/model/model.go and internal/model/severity.go: Model.antt has changes and JSON values,
--     Model/Severity.antt the classification of a change.
--     Model/Encoding.antt has `json.Marshal`, and Model/Diff.antt, with Walk and Paths below it, the
--     field diff of two snapshots. Model/Normalize.antt has the lists and rules of `normalizeFor`,
--     and Walk below it the walk itself and `CanonicalFor`.
--   * internal/model/dns.go: Model/Dns.antt, the two shapes of a DNS snapshot and what both express.
--   * internal/store/snapshots.go and, of internal/store/storage_limits.go, the bounds of a stored
--     value: Store/Snapshots.antt has the tables `snapshots` and `collector_state` and the state of a
--     write transaction; below it Upsert has `upsertResource`, Removal `massRemovalGuard` and
--     `reconcileMissing`, States the rows that are written for a collector, Unsupported
--     `unsupportedCollector`, Failures `recordCollectorFailuresTx`, and Batch `collector` and the
--     loop over the results of a poll.
--   * internal/store/routing.go and internal/store/mutes.go: Store/Routing.antt has the rules of a
--     destination, Columns below it how they are stored, and Digest the fan-out of a batch;
--     Store/Mutes.antt has the table of mute rules, and Evaluate below it what they do to a change.
--   * internal/store/sessions.go: Store/Sessions.antt has the table `sessions` and the calls on it.
--   * internal/expiry/expiry.go: Expiry.antt, from the sorted items to the warnings and next state.
-- How they interact: the webhook handler verifies a delivery and records it as a trigger; the
-- monitor's scheduler claims and finishes them, with one poll for the union of their scopes; each poll hands what it collected to the
-- snapshots, whose stored values are compared by the diff after normalisation, and whose recorded
-- changes are what the mutes see; its delivery worker claims notifications from the outbox, sends
-- each and records what came of it; mutes, severity and routing decide which changes reach a
-- digest; the monitor's expiry worker calls `Plan` with the saved state; the web server asks the
-- throttle before it verifies a password; stored errors are shortened by textutil.
--
-- Conventions. A Go string that the program walks is the list of its bytes, one that it only
-- compares may be a native String. Maps are association lists: their order stands for any order of
-- iteration. Times and durations are natural numbers of nanoseconds, and a difference that may be
-- negative is compared by adding on the other side, so that no test is changed by subtraction
-- stopping at 0. Random tokens, whether the generator fails, and the hash of a
-- session token are arguments. Stored
-- timestamps are written in one fixed-width format, so SQL's comparison of texts is that of times.
-- Loops over slices are structural recursion; the eviction loop of the throttle takes as much fuel
-- as there are entries, which is enough since each round deletes one (Web/Throttle/Bounds.antt). The
-- diff takes the depth of the deeper value, and one more (Model/Diff/Depth.antt).
--
-- Not modelled: SQLite itself (durability, isolation of transactions), HTTP and HTML, encryption,
-- the Shoutrrr transports, the Tailscale client, migrations, and the parts that only log or format.
-- `strings.ToLower` and `strings.TrimSpace` know the ASCII letters and spaces.
-- Of a batch, the event rows, the digest, the attribution of changes and the evidence ledger
-- (`recordChangeBatch`) are not modelled, nor the invites that go with a changed device share.
-- `notify.SafeDeliveryMessage`, which filters recorded errors, is an argument of the transactions.
-- So are the severity of a changed device share and whether the key box can open the URL of a
-- destination. Snapshots are taken as decoded JSON, with numbers as the text that Marshal gives
-- them; decoding a text (`decode`) is an argument, as is the SHA-256 of a text in
-- hexadecimal digits (`digest`). The goroutine that renews the lease of an item
-- while it is sent is not modelled; a renewal is one of the calls.
pub mod Prelude
pub mod Web
pub mod Text
pub mod Webhook
pub mod Store
pub mod Expiry
pub mod Monitor
pub mod Model
mod Tests
