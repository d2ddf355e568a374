-- ===== src/Lib.antt =====
-- Fluxcope is an intercepting HTTP proxy with a terminal UI. This library models the parts that keep
-- and announce what was captured, and the parts that decide where a request is sent.
--
-- The capture pipeline (src/capture):
-- * Capture/Feed.antt, with Feed/Log, Feed/Read and Feed/Delivery, is src/capture/change.rs: the ring of
--   the last 4096 changes, `publish`, `subscribe`, `try_read`. The mutex makes each call one step on
--   ChangeState; a Tokio watch channel is the epoch last sent. `none` is the panic of an exhausted epoch.
-- * Capture/Budget.antt, with Budget/Charge, Budget/Linear and Budget/Reserve, is `CaptureMemoryBudget`
--   of src/capture/model.rs. A compare-exchange loop takes the list of the values that its failed
--   exchanges reported; the loop ends after one more round than there are such values.
-- * Capture/Body.antt, with Body/Content and Body/Flatten, is `BodyCapture` and `CapturedBodyPreview` of
--   src/capture/model.rs: the chain of full chunks of 64 KiB and the trailing piece. The `Arc`s of the
--   chain are values, since a node is never changed. `append` runs on fuel, the length of the bytes,
--   which is enough as each round takes at least one.
-- * Capture/Record.antt, with Record/Announce, Record/Stream, Record/Append and Record/Finish, is
--   `CaptureRecord`: one locked operation is a function of the record, the feed and the budget. The
--   overhead of a chunk node depends on the target's layout and is a parameter, node_overhead.
-- * Capture/Metadata.antt, with Metadata/Lengths, Metadata/Headers and Metadata/Measured, is how
--   src/capture/publisher.rs measures and captures texts and headers. Common/Text/Utf8.antt and its
--   children are the UTF-8 of the standard library. The loop of `lossy_utf8_len` has one round of fuel more
--   than there are bytes, which is enough as each round but the last removes one.
-- * Capture/Publisher.antt, with Publisher/Live, Publisher/Admission, Publisher/Response and Publisher/Lifecycle, is
--   `CapturePublisher` and `CaptureHandle`. tokio's semaphore and channel are parameters; the weak pointer
--   of a handle is an index into cells, and a cell is empty once its record is dropped.
-- * Capture/Store.antt, with Store/Ordered, Store/Retention, Store/Insert and Store/Remove, is
--   src/capture/store.rs. The records are shared with the proxy's handlers, so they stand in an arena
--   (Shared) and the store holds pointers. Retention takes one round for each entry of the map, which
--   is enough as a round removes one.
--
-- The mapping rules (src/mapping.rs, src/settings.rs, src/settings/mapping_ops.rs):
-- * Settings.antt is the proxy part of the settings in src/settings.rs.
-- * Mapping/Url.antt is the URLs of rules. The `url` and `http` crates are a parameter, UrlLibrary, and so
--   is the value of HOME; a call of the crates is a field of the parameter.
-- * Mapping/Rules.antt, with Rules/Resolve, is `CompiledRules`; a hash map is an association list.
-- * Mapping/Diagnostics.antt and Mapping/Engine.antt, with Engine/Agree and Engine/Compile, are
--   `MappingEngine`: compiling the active preset, mapping a request and tracing it. A message is data,
--   the values that the source formats.
-- * Mapping/Validate.antt, with Validate/Capped, is `validate_proxy_settings_capped`.
-- * Settings/Mutation.antt and its children Checks, Tables, Presets and Apply are src/settings/mapping_ops.rs:
--   the fifteen mutations, as functions from the settings to an error or the new settings and the
--   reported effect. Settings/Mutation/Effect, with its children, and Settings/Mutation/Move are about them.
--
-- The private RPC (src/control_rpc):
-- * Rpc/Errors.antt is `ControlError` of src/control_rpc/protocol.rs; a message is data.
-- * Rpc/Framing.antt, with Framing/Reserve, Framing/Writing, Framing/Encoding and Framing/Reading, is the
--   frames of src/control_rpc/framing.rs. A reader is the bytes that it gives, serde_json is the chunks
--   that it writes, and the allocator is a parameter. The loop that doubles a buffer has fuel for the
--   bytes required and one more, which is enough as each round raises the target.
--
-- The terminal interface:
-- * Input/TextInput.antt, with TextInput/Boundary, TextInput/Editing and TextInput/Keys, is
--   src/text_input/state.rs. The graphemes of a text, Segmentation, are a parameter.
-- * Input/Select.antt, with Select/Focus and Select/Keys, is src/select.rs; `to_lowercase` and the equality
--   of identifiers are parameters.
--
-- The request search (src/request_search):
-- * Search.antt, with Search/Answers and Search/Runs, is the service of service.rs: one step for each event
--   that its `select!`s take, and the client's calls between them. What a worker finds is a parameter; the
--   client outlives the service, so its channel does not close.
--
-- The recording prefilter (src/recording.rs):
-- * Recording.antt, with Recording/Prefilter, Recording/Alternate and Recording/OtherForm, is `RecordingPrefilter`: compiling the
--   patterns, and the inclusion of a URL with or without its default port. The `globset` crate and the parser of an
--   authority are a parameter, GlobLibrary.
--
-- Common.antt and its children hold what the modules share: Boolean tests, lists over the native
-- numbers, word arithmetic, results and texts. Words have 64 bits. A text is a list of Unicode scalar
-- values. Tests.antt and its children apply the theorems to concrete inputs.
--
-- Not modelled: the request policy, the matching of a search's query, snapshots and summaries of records, decoding of
-- bodies, the control services, the sockets, leases and deadlines of their RPC, the MCP server, the runtime, the UI, the certificate
-- authority, files and processes. Locks are taken to be held for a whole operation, as the source does;
-- the order of memory accesses below that is not modelled.
pub mod Common
pub mod Capture
pub mod Settings
pub mod Mapping
pub mod Rpc
pub mod Input
pub mod Search
pub mod Recording
pub mod Tests
