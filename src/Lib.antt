-- ===== src/Lib.antt =====
-- fluxplane-dex, the core of the plugin host: the package runtime, the package protocol, and the
-- part of core/pluginbinding about indexes, capabilities and secrets.
--
-- The program keeps its state in JSON files below a home directory and talks to plugins, which are
-- processes. Four parts of the state come first, then the runner that serves plugins from it.
--
-- The endpoint registry (runtime/endpoints.go) is Endpoints: one file with the records, and one
-- function per operation, from the file to its result and the file afterwards. Endpoints/Laws
-- states each operation through the answers of the others, Endpoints/Runs sequences of operations.
--
-- The registry of installed plugins (runtime/plugins.go) and the marketplace it is matched with
-- (runtime/marketplace.go) are Plugins, with what is shown of plugins in Plugins/Status; the
-- removal of a plugin, which also deletes its binary, is Uninstall, with its sequences of
-- operations in Uninstall/Runs. Both registries use Files, a handler that loads a file and ends in
-- a write or in an error, and Keyed, the loops over records with a key.
--
-- Grants and secrets (runtime/secret.go) are Grants and Grants/Release. A grant is a file named by
-- its token; a plugin shows the token, and the host releases a secret from the secret store or
-- from an environment variable.
--
-- The index (runtime/index.go) is Index: the records, their links and their enrichment
-- (Index/Records is about what is kept of the JSON). Index/Store has the files of snapshots and
-- the questions answered from them, Index/Store/Status the status of an index, Index/Score the
-- score of a search, Index/Lookup the terms and the score of a lookup, Index/Search both searches.
-- Jobs is how a plugin builds an index (core/pluginbinding/index.go), and Jobs/Inputs how its
-- input is read. Json and Maps stand for Go's map[string]any and maps.
--
-- Core and Protocol are the types of core/types.go and protocol/protocol.go, Capabilities those of
-- core/pluginbinding/capabilities.go. Runner (runtime/runner.go) is what happens when a command of
-- a plugin is invoked. Runner/Invoke is InvokeInstance from end to end; Runner/Scope computes from
-- the manifest of the plugin what its grant covers, and Runner/Scope/Laws compares that with a
-- table of the kinds of access. Runner/Frames is the conversation with the process,
-- invokeRequestV2: a loop over the frames that the process sends, against a relation on received
-- and sent frames in Runner/Frames/Conversation, with its end in Runner/Frames/Ends.
-- Runner/Requests is handleHostRequest, which serves one request of the plugin under its grant
-- from the state in Runner/Host, and Runner/Auth the headers that it adds to a request over HTTP.
-- Runner/Requests/Granted and Runner/Frames/World join these with Grants.
--
-- Runner/Payloads reads payloads, Runner/Endpoints puts endpoints into inputs,
-- Runner/IndexDatasource and Runner/Enrichment answer from the index and complete records
-- (runtime/host_index_datasource.go, runtime/datasource_enrichment.go), Runner/Commands finds the
-- command of a plugin, Runner/Buffers limits its output. Capabilities/Local, Capabilities/Paths
-- and Capabilities/Http are the local capability host, runtime/capabilities.go. PluginSecrets is
-- the plugin's side of secrets, core/pluginbinding/secrets.go.
--
-- A function of the source in camel case is the definition of the same words in snake case; the
-- loop or the closure of a function is a definition of its own beside it. Prelude has the shared
-- names: Outcome for a result and an error, Sorting for the package sort, Ranking for the best
-- answers of a search, Unique for the loop that collects distinct values, Strings and Slices for
-- the package strings, Int for the signed integers.
--
-- Bounds and fuel: times and durations are numbers of nanoseconds without a width, and the sums
-- and scores are numbers without a width, far below 2 ^ 63 in the program. The score of a record
-- recurses on fuel, and the searches use fuel one, as the terms of a query are not split again
-- (Index/Score/Depth). Decimal printing uses the number itself as its fuel. A number is parsed by
-- atoi within 64 bits. The loop over frames has fuel, one for each frame, and has no result where
-- the fuel is used up, or where the process never answers a read or never ends, as the loop of the
-- program then waits for ever. For a process that answers, with a measure of what it can still
-- send, fuel above the measure is enough. Timeouts of HTTP keep their wrap-around of 64 bits.
--
-- Parameters: the endpoint types and their validation (fluxplane-endpoint), the references and the
-- store of secrets (fluxplane-secret), encoding/json as a codec, the deletion of a file, the
-- clock, the random token, the environment, and the test that a path lies inside a directory, the
-- process of a plugin, the capabilities of the host and its providers, the operating system,
-- net/url and net/http. What these do to the world outside is a state of any type that they pass
-- on. A Go map is a list of pairs in some order; the text null is taken to hold no object, as the
-- code treats a nil map. While one request is served the clock and the files stay as they are.
--
-- Not modelled: that a write is seen half done by another process, the modes of files and
-- directories, the quotes in error messages, letter case outside of ASCII, paths of systems other
-- than Unix, cancelled contexts, the protocol without frames and the probe for it, the
-- installation of plugins, and the parts of the program that only call others: the command line,
-- the clients of services and their plugins, and the providers of the host.
pub mod Prelude
pub mod Files
pub mod Keyed
pub mod Maps
pub mod Endpoints
pub mod Grants
pub mod Plugins
pub mod Uninstall
pub mod Json
pub mod Index
pub mod Tests
pub mod Jobs
pub mod Core
pub mod Capabilities
pub mod Protocol
pub mod PluginSecrets
pub mod Runner
