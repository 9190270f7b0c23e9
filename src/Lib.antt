-- ===== src/Lib.antt =====
-- safetylint proves that Go programs share no memory without protection. This library models the
-- part of it that decides which mutexes are held where, internal/nosharing/mutexguard.go, the part
-- that decides whether the accesses to an object are protected, internal/nosharing/objectguard.go,
-- fields.go and nested.go, and the tests on types, values and callees that these ask; and, beside
-- the analysis, the comments that suppress its reports, the build tags of the command, and the
-- directives and uses of package reflect that internal/nounsafe reports. The input of the analysis,
-- the SSA form of golang.org/x/tools/go/ssa and the types of go/types, is a parameter: `Ssa` has one
-- record with what the source reads of them, and `IsWellFounded` states the documented shape that
-- some theorems need, namely that an operand is defined before its uses and that a chain of pointer
-- types is finite.
--
-- Hold      the maps from guards to modes, `holdSet`, and their operations. A Go map is a list of
--           pairs with each key once (`IsWf`); a missing key reads as 0, as in Go.
-- Types     the tests on types: `isNamedSyncType`, `structOf`, `isLockerFieldType` and others.
-- Strip     the walks over operands: `stripToObject`, `mutexContainer`, `baseCoversAddr` and others.
-- Sweep, Flow
--           the loop `for changed { … }` over the blocks of a function, which the two data-flow
--           analyses share, with the rules to prove what it computes.
-- Guard     which guard a call locks or unlocks: `lockUnlockGuard`. Guard/Cell has the free-standing
--           mutexes, Guard/Wrapper the methods that wrap the lock of a field.
-- Calls     the classes of callees: `isWhitelistedSyncMethod`, `isAsyncCallbackCallee` and others.
-- Curated   what is known of the standard library's functions: which spawn, retain, write and only
--           read (`curatedRetainParams`, `isStdlibReadOnlyCall` and others).
-- MayUnlock the search for unlocks through the call graph: `calleeMayUnlock`. MayUnlock/Sound says
--           what its answer no covers.
-- MustHold  the analysis: MustHold/Step what an instruction does (`transferHold`), MustHold/Edge
--           what a branch adds (`edgeHold`), MustHold/Tables the fixed point of `analyzeMustHold`,
--           MustHold/Ends that it is reached, and MustHold/Sound that it claims no more than every
--           path holds; MustHold/Trace says this of the locks and unlocks on the way, with
--           MustHold/Step/Effects and MustHold/Ways for what these are, apart from any hold set;
--           MustHold/Inherit has the guards that a function starts with.
-- Structural
--           the mutex fields of struct types (`findStructuralGuards`), and which one is held at every
--           access of an object (`findTiedMutex`).
-- Access    the tests on one access to shared memory, the nested fields with their own guard
--           (Access/Nested), and which accesses need no guard (`prepareGuardAccesses`, Access/Drop).
-- Partition writers of disjoint parts: `constIndexPartitionOK`, `rangePartitionOK` and `mergeRanges`.
-- Guarded   the cascade of `accessesGuarded`: free-standing mutexes, and one guard for each field.
-- Strings   what the source uses of Go's package strings, on texts as lists of code points.
-- Nolint    the comments that suppress reports: internal/nolint/nolint.go.
-- Command   the build tags among the arguments and in GOFLAGS: cmd/safetylint/main.go. Command/Items
--           reads a command line as a list of options.
-- Unsafe    the directives and the uses of package reflect that are reported:
--           internal/nounsafe/nounsafe.go.
-- Samples   small programs and texts on which all of this is evaluated.
--
-- A pointer to a value, a block or a function is an element of an abstract type with decided
-- equality. Walks over operands take the depth of their value as fuel, which is enough since every
-- step goes to a smaller depth. The fixed points take fuel for every change that their tables
-- allow and give `none` without it; `MustHold.Ends` and `Guard.Wrapper.Ends` have their measures.
-- `calleeMayUnlock` takes fuel for one call of every function (`MayUnlock.Ends`).
-- `analyzeMustHold` takes fuel for every function that can be under way (`MustHold.Inherit.Ends`).
-- The search through embedded structs takes its fuel from the caller, since the source may not
-- end; the cascade gives it fuel for the levels of embedding, where these are bounded, and finds no
-- guard where they are not (`Structural.Ends`). Where the source never returns, the model so gives a
-- result; where the allocation in mergeRanges panics, for ranges far apart, it finds a hole and
-- returns no range.
--
-- The guard cascade takes the results of `analyzeMustHold` and `affineRangePartitionOK` as arguments;
-- the first is instantiated by the analysis where a theorem needs it. An int64 index is the number
-- that it has plus 2 ^ 63, so that the order of the numbers is that of the indexes, and Go's `+` wraps
-- at 2 ^ 64. The lists of a Go map's keys come in an order that is a parameter of the program.
--
-- Not modelled: the search for the accesses of an object, the partition of objects by affine bounds,
-- the idioms that hand memory over (channels, wait groups, pools and others), the facts between
-- packages, and the reports of internal/nounsafe on imports, assembly and cgo. Loading a program and
-- reporting are input and output.
mod Base
pub mod Hold
pub mod Ssa
pub mod Types
pub mod Strip
pub mod Sweep
pub mod Flow
pub mod Guard
pub mod Calls
pub mod MayUnlock
pub mod MustHold
pub mod Structural
pub mod Curated
pub mod Access
pub mod Partition
pub mod Guarded
pub mod Strings
pub mod Nolint
pub mod Command
pub mod Unsafe
mod Samples
