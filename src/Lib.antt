-- ===== src/Lib.antt =====
-- Verification of rustmc, a stateless model checker for Rust programs that extends GenMC.
--
-- The checker executes a program step by step, keeps an execution graph of its memory events,
-- and explores the graphs that the memory model allows. What is verified here are the execution
-- graph with its labels, the data structures that the graph, the memory model and the driver
-- rest on, the symbolic expressions of annotations, the driver's choice of the next thread, its
-- list of revisits to explore, and the part of the driver that works out how a read can take its
-- bytes from several stores. An event of the graph has a position (Event), vector clocks over
-- positions (View, and DepView with holes, which are a VSet for each thread) tell what happens
-- before an event, and an access (MemAccess) is a range of bytes from an address (SAddr) that
-- the allocator (SAddr/Allocator) has given out. Matrix2D is a relation on positions. RfOptions
-- uses accesses and positions, and RoundBound and ContextBound schedule events by a View. A
-- value in memory is an SVal. An EventLabel is what an event does, and the ExecutionGraph keeps
-- the labels of each thread, the coherence order of the stores of each word, and for each store
-- the reads that read from it. An SExpr over registers evaluates to one, with the unknown
-- registers in a VSet, and a Trie maps the sequence of values that a thread has read to what it
-- did next. Worklist and Schedule stand by themselves.
--
-- The files and the code they model:
--   Prelude.antt, Prelude/: what the others share; Booleans, lists, options, bits of numbers.
--   VSet.antt, VSet/: src/VSet.hpp and src/VSet.tcc. A set is the list of its elements in
--     order; `find`, `count`, `insert`, `erase`, `subset_of`, `intersects`, `intersect_with`
--     are the methods of these names, `insert_set` and `erase_set` the bulk `insert` and
--     `erase`, whose in-place loops are `fill` and `sweep`.
--   Event.antt, Event/Order.antt: src/Event.hpp.
--   View.antt, View/: src/View.hpp and src/View.cpp; `update` is `View::update(const View &)`.
--   DepView.antt, DepView/: src/DepView.hpp and src/DepView.cpp; each method by its name.
--   SAddr.antt, SAddr/Fields.antt: src/SAddr.hpp; SAddr/Allocator.antt, SAddr/Allocator/:
--     src/SAddrAllocator.hpp.
--   SVal.antt, SVal/: src/SVal.hpp; `apply` is the binary operators.
--   SExpr.antt, SExpr/: src/SExpr.hpp, with the evaluator (Evaluate; Meaning and Meaning/
--     say what it computes, Meaning/Semantics.antt by words of 64 bits), the substitution and
--     concretization of registers (Replace) and the transformation (Transform) of
--     src/SExprVisitor.hpp and src/SExprVisitor.tcc; `evaluate_with` is the overload of
--     `evaluate` that takes one value.
--   Trie.antt, Trie/: src/Trie.hpp. `add_below` and `look_below` are the loops of `addSeq` and
--     `lookup`; Find is the search that they are compared with, Laws has the statements.
--   Schedule.antt, Schedule/: `scheduleNext` of src/GenMCDriver.cpp and the functions that it
--     calls, by their names.
--   MemAccess.antt, MemAccess/: src/MemAccess.hpp.
--   EventLabel.antt, EventLabel/: src/EventLabel.hpp. `Role` has a constructor for each class
--     of labels, with the kind and the fields that the graph uses; `kind` is the number of a
--     label in `EventLabelKind`.
--   ExecutionGraph.antt, ExecutionGraph/: src/ExecutionGraph.hpp and src/ExecutionGraph.cpp,
--     with the lists of readers of src/EventLabel.hpp. Change has the changes of what a read
--     reads from (`change_rf` and `change_rfs` are the two forms of `changeRf`), the removal
--     of a last label and the ties of accesses to allocations; Cut the cut to a stamp and the
--     compression of stamps, Searches the searches along threads, Updates the atomic updates
--     and the reads to revisit, Coherence the coherence order with its iterators, Scans the
--     questions that walk over all labels, Validate the method `validate`, and Copy the copy
--     of a graph up to a clock. Readers, Steps, Edits and Attach carry the proofs of Rewire,
--     and Addition, Copy/Origin, Copy/Steps, Copy/Links and Copy/Coverage those of Copy/Contents;
--     Examples has concrete graphs.
--   Matrix2D.antt, Matrix2D/: src/Matrix2D.hpp and src/Matrix2D.tcc, a relation on positions
--     as a flat matrix; `trans_closure` is `transClosure` of the layout that is built.
--   RfOptions.antt, RfOptions/: `enumerateRfHelper` and `enumerateRfOptions` of
--     src/GenMCDriver.cpp.
--   Worklist.antt, Worklist/: `WorkSet` of src/WorkSet.hpp, and `addToWorklist`,
--     `getNextItem`, `restrictWorklist` and `restrictChoices` of src/GenMCDriver.cpp.
--   RoundBound.antt, RoundBound/: src/RoundBoundDecider.cpp; `calculate` has a fuel, which
--     bounds the rounds it may find.
--   ContextBound.antt, ContextBound/: src/ContextBoundDecider.cpp. `prefix_from` is
--     `doesPrefixExceedBound` with the number of events as its fuel, since each call takes an
--     event off; Search has this, Unwinding the schedules that it looks for, Termination that
--     it comes to an answer.
--   Examples.antt, Examples/: concrete values.
--
-- Numbers are natural numbers. A 64-bit address wraps modulo 2 ^ 64 and the 32-bit parts of the
-- allocator modulo 2 ^ 32, as written; indices of events and of threads are of type `int` in the
-- source and are taken not to overflow. An abort (`BUG`, `BUG_ON`) is the answer `none`. Loops
-- are recursions on what they consume. The loop of the bulk deletion has the sum of the two
-- sizes as its fuel, since each round advances one of the two positions, and the in-place loops
-- count the positions that are left. A value of a program is a number below 2 ^ 64, and what C++
-- leaves undefined of it, a division by zero or a shift by 64 and more, is the answer `none`
-- too. The loops over a prefix tree have the length of the sequence as their fuel, since labels
-- are not empty, and the walk over symmetric threads has the number of the thread, since
-- predecessors have smaller numbers. The loops over a thread of a graph count the labels that
-- are left. A pointer to a label is the label's position, so a pointer to a label that was
-- deleted cannot be told from one to what stands at its position now; stamps wrap modulo 2 ^ 32.
--
-- What is a parameter: the test of `enumerateRfHelper` whether a piece of a read would be
-- incoherent, which asks the execution graph and the memory model; and the graph that RoundBound
-- and ContextBound ask for threads, labels and the events before and after a label. What
-- Schedule reads of the interpreter, the graph and the configuration is a record, and a random
-- draw is a function of its bound. Of the C++ and LLVM libraries, `std::lower_bound`, the
-- ordered sets, the vectors and `llvm::IndexedMap` have their documented meaning.
--
-- Not modelled: the views that labels carry, the exploration of the driver, the memory model's
-- generated checks, the adjacency lists, the interpreter and all that is built on LLVM classes,
-- the command line, and the printing of values and expressions. The combinations and
-- permutations of src/CombinatoricUtils.hpp are a copy of another library.
pub mod EventLabel
pub mod ExecutionGraph
pub mod ContextBound
pub mod Prelude
pub mod VSet
pub mod Event
pub mod View
pub mod SAddr
pub mod SVal
pub mod SExpr
pub mod Trie
pub mod Schedule
pub mod MemAccess
pub mod RfOptions
pub mod Worklist
pub mod RoundBound
pub mod DepView
pub mod Matrix2D
pub mod Examples
