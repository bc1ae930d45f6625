-- ===== src/Lib.antt =====
-- schemix validates maps of dynamic data against a schema. A schema is compiled into a tree of
-- field descriptors, checked by the CUE layer, and a list of rules, run behind it by the blob
-- layer; the result lists the errors and may carry a transformed copy of the data. This library
-- models the validation at run time, from the compiled schema and the data to the result, and what
-- stands around it: the public calls, the registry, the texts for a person, the options, the
-- built-in functions.
--
-- The parts, and the files of the repository that they model:
--   Value       the dynamic values (Go's any, map[string]any), and Value.Float, float64 by its bits
--   Nested      path.go: reads, writes, deletes, copies by dot path
--   Errors      errors.go: codes, errors, results and their queries
--   Suggest     suggest.go: the distance of words and the suggestion
--   FailMode    failmode.go: the modes
--   Classify    classify.go: codes for the errors of CUE, and disjunctions merged
--   Fast        fastpath.go: the checks of a value against a descriptor in plain Go
--   Schema      compile.go, validator.go: descriptors, rules, validator; the interface to CUE
--   Compile     compile.go: the controls in @meta, the extraction of rules, their order, Fields
--   Detail      errors.go, localize.go: what is lifted out of the text of a violation
--   Convert     convert.go: from what a caller passes to a map
--   Api         api.go: the public calls
--   Registry    registry.go: the store of validators, the ownership of environments, the plugins
--   Localize    localize.go: labels, templates, catalogs and their validation
--   Options     options.go, funcmap.go, builtin.go: options, custom functions, the environment
--   Builtin     builtin_methods.go, builtin_funcs.go: the built-in methods and functions
--   Fallible    a value or the text of an error
--   CueLayer    cue_layer.go: the walk over the descriptors
--   Process     process.go: processInternal, the loop over the rules and their stages
--   GoLib       the functions of Go's library that the code calls
--   Examples    concrete parameters and inputs, on which definitions run and theorems apply
--
-- State. Go changes one Result through a pointer; here a result goes in and a result comes out.
-- LoopState is blobLoopState, and a round of the loop returns a Visit: the loop ends, or goes on.
-- The Process modules use the CueLayer modules, these use Fast and Classify, and all use Errors.
--
-- Names. A Go function keeps its name in snake case: processInternal is process_internal,
-- setNestedValue is set_nested, validateFastInt64Range is validate_fast_int64_range. A branch of a
-- type switch that other branches follow is a helper by clauses, such as skip_answer.
--
-- Errors and panics. A write into a nil map panics in Go: set_nested has no result then, the stage
-- answers rule_panic, and process_internal has no result. CUE and Bloblang are parameters: a
-- record Cue of the calls that are made of CUE, and executors as functions from the input to an
-- answer. ReportsErrors says what the code relies on: a failed validation lists an error.
--
-- Bounds and fuel. Integers of Go are integers here, since no operation that is modelled does
-- arithmetic on the data that could wrap around; where the size of int matters it is a hypothesis
-- (PrioritiesFit). The digits of a number have fuel, one step for each unit of it and so for each
-- digit, and so have the binary digits of a number that is made a float64. The loops over brackets
-- have the length of the text and one as fuel: each round leaves a shorter text. The fuel of resolve
-- is maxFallbackDepth, the code's own bound. The search for a cycle of catalogs gets its fuel as an
-- argument, at least the number of catalogs and one. The walks over a schema have what is left of the
-- limit on the depth: the code's own bound.
--
-- Strings. A text is the list of its bytes. An error's code and its type are texts, as in Go, so a
-- caller's own code is one too.
--
-- Not modelled: the compilation of fields into descriptors and the fast checks that it extracts,
-- validateCUERecursive, which only a benchmark calls, metrics and traces, the tools around the
-- library. What Go's library, CUE and Bloblang do is a parameter: parsing of JSON, URLs, addresses
-- and times, regular expressions, reflection. A localizer of the caller is a function that returns.
-- A map is a list of entries without an order that a reader could rely on: Go's order of iteration
-- is not modelled, and no modelled function depends on it, since List sorts the names. A lock makes
-- a call one step, so a run of several goroutines is a sequence of calls. A value of a type that the
-- code does not look into is its type's name, as the ErrorType that resultToMap hands on.
pub mod Prelude
pub mod Value
pub mod Nested
pub mod Errors
pub mod GoLib
pub mod Fast
pub mod Suggest
pub mod FailMode
pub mod Classify
pub mod Schema
pub mod Detail
pub mod Compile
pub mod Fallible
pub mod Convert
pub mod Api
pub mod Registry
pub mod Localize
pub mod Options
pub mod Builtin
pub mod CueLayer
pub mod Process
pub mod Examples
