-- ===== src/Lib.antt =====
-- The event pipeline engine of neptunus: inputs make events, lines of processors change them, a
-- fan-out broadcasts them to the outputs, filters stand before each plugin, and a service starts,
-- stops and edits pipelines whose configurations are in a storage.
--
-- Base holds what the other modules share: tests on numbers, lists, Go maps as association lists,
-- comparable types, signed integers, and the value-or-error type. A Go map is a list whose order is
-- that of `range`; theorems hold for every order.
--
-- core/tracker.go, core/event.go and core/errors.go are Core.Tracker and Core.Event. Trackers live
-- in a heap, and an event holds the address of one; an int32 is its bit pattern below 2 ^ 32. Hooks
-- are numbers, and the calls of hooks are what a function returns. The tree of fields of an event is
-- the module github.com/gekatateam/mappath, which is not part of the repository: Core.Fields has it
-- as a parameter. plugins/core/fanout/fanout.go is Fan.
--
-- core/unit/soft.go is Units, the processor's unit, Units.Input, the input's, and Units.Output, the
-- output's. The goroutines of a unit and its channels are a state on which a list of actions runs,
-- in any interleaving; what a plugin does with an event is part of the action. A goroutine's last
-- send or close and its `wg.Done` are one action. Channels have no bound: the runs with bounds are
-- among these, so that what holds of all runs holds with bounds too; that a unit ends is not shown.
-- A processor may send or drop events of its own, and an output may collect events in batches. A
-- mixer, which sends to the channels of other lines, is not a processor of this model. The units of
-- lookups, fan-in and fan-out are not modelled.
--
-- config/pipeline.go is Config: the settings, their defaults, and the accessors of the reserved keys
-- of a plugin's configuration. The configure methods of pipeline/pipeline.go, which `Build` calls in
-- turn, are Assembly: Assembly.Stages has the five stages, and each reads and extends the aliases
-- taken so far and may fail; Assembly.Made says from what their plugins are made. The plugins and
-- what these methods call on them are the parameter `Registry`; logging and the notices of
-- deprecated plugins are left out. The rest of pipeline/pipeline.go is Pipeline: a state, the error
-- of the last build, the point of its goroutine in `Run`, and whether its context is done;
-- Pipeline.Lifecycle runs it. pipeline/interfaces.go is Pipeline.Storage, and
-- pipeline/storage/filesystem.go, over a parameter for the file system and the encoders, is
-- Pipeline.Files. pipeline/storage/postgresql.go is Pipeline.Postgres: the SQL statements are
-- functions on the rows of two tables, the times of rows are left out, and which call of the
-- database fails is an argument, also whether a commit that fails has taken effect. The encoders are
-- parameters, and what is decoded need not be what was encoded: numbers of the variables may come
-- back with another type. Pipeline.Postgres.Store is what the tables stand for: a map from ids to
-- configurations, and the locks.
--
-- pipeline/service/internal.go is Service. A unit holds the address of a pipeline object. A request
-- that waits for a lock takes what happens meanwhile as an argument, any function on the service;
-- from the lock on it is one step. `startAsync`, which runs the same steps in goroutines, and
-- `Stats` are not modelled.
--
-- Remote is pipeline/api/rest.go (Remote.Api) and pipeline/gateway/rest.go (Remote.Gateway) over any
-- implementation of the interface Service; Remote.Faults joins the two by a network that brings
-- every request, for ids that stay one segment of a url's path. HTTP, JSON and the words of errors
-- are the parameter `Web`. The interface of the command line, pipeline/api/cli.go, is not modelled.
--
-- plugins/common/ is Common (batcher, distributor, retryer, sharedstorage) and Convert (convert).
-- The loop of the retryer runs on fuel, also in Processors.Deduplicate; the theorems give fuel that
-- is enough. strconv, time and the floating point numbers are a parameter of Convert.
-- plugins/filters/ and plugins/core/not/not.go are Filters, and the processors clone, defaults,
-- delete, rename, switchcase and rk are Processors. plugins/processors/stats/ is Processors.Stats,
-- its metrics, and below it their caches and the events that are made of them, over a parameter for
-- floating point numbers; the loop of its `Run`, which waits for ticks, is not modelled.
-- plugins/processors/converter/ is Processors.Converter, and plugins/processors/parser/ with
-- plugins/common/ider/ is Processors.Parsing. The processors template, lookup, regex and deduplicate
-- are modules of their names in Processors, with plugins/core/lookup/ beside the second;
-- Processors.Failing is what template and lookup share. text/template, regexp and Redis are
-- parameters. pkg/slices/ is Slices. What is sent to a channel is a list.
--
-- Not modelled: inputs, outputs, parsers, serializers, keykeepers and lookups, which call
-- third-party clients and codecs; the command line, HTTP servers, logging and metrics; the starlark
-- interpreter. Error texts leave out what `fmt` prints of a value's type.
pub mod Base
pub mod Core
pub mod Fan
pub mod Config
pub mod Assembly
pub mod Units
pub mod Pipeline
pub mod Service
pub mod Common
pub mod Convert
pub mod Filters
pub mod Processors
pub mod Tests
pub mod Slices
pub mod Remote
