-- ===== src/Lib.antt =====
-- Verification of dinit, the service manager of this repository (cdinit/dinit/src).
--
-- dinit keeps a set of services with dependencies between them. A service counts in `required_by`
-- what wants it: its own explicit activation, and the links by which dependents hold it. Operations
-- change this count and set flags; `process_queues` then propagates requirements, releases and
-- failures along the links, and executes transitions between the states.
--
-- Parts and files:
-- - Base: shared names, Boolean tests, functions updated at a point.
-- - LinkedList (cdinit/dinit/src/includes/dinit-ll.h): `slist`, whose nodes are a store of successors
--   indexed by elements. LinkedList/Queue is its abstract view, LinkedList/Refine relates the two.
--   LinkedList/Double is `dlist`, whose elements form a circle: Circle has the laws of the circle's
--   pointers, Without of those that a removal leaves, Refine and Unlink relate the operations to those
--   of lists, Run any sequence of them.
-- - Service (cdinit/dinit/src/service.cc, cdinit/dinit/src/includes/service.h,
--   cdinit/dinit/src/includes/service-constants.h):
--   Types holds `service_record` as `Service`, `service_dep` as `Link` with its two flags in the
--   maps `waiting_on` and `holding_acq`, and `service_set` as `World`. A pointer to a service or to
--   a link is a number. State has the short operations; Stop, DoStop, Start, Transition, Propagation
--   and Commands have the member functions under their names, split where the code branches.
--   `Dispatch` is the record of virtual functions; Classes ties in the base class, triggered
--   services and those with a process. Links has the operations on single links, with what they keep.
-- - Service/Process (cdinit/dinit/src/baseproc-service.cc, cdinit/dinit/src/proc-service.cc,
--   cdinit/dinit/src/includes/proc-service.h): the process of a service is the record `Proc`. Base has
--   `base_process_service`, Plain `process_service`, Scripted `scripted_service`, Watchers the event
--   watchers, Methods the virtual functions by class. The results of system calls are the parameter
--   `Os`, and the default of `proc_status_t` is another one.
-- - Service/Events has the steps of the event loop on the services: commands and watchers in any order.
-- - Service/Refs is about the counts of references, Service/Fuel about the recursion of `do_stop`,
--   Service/Moves about the states that a stop changes, Service/Limit about the limit of restarts,
--   Service/Detach about the links that the end of a service lets go,
--   Service/Active about the count of active services.
-- - ControlBuffer (cdinit/dinit/src/includes/cpbuffer.h): `cpbuffer`, and as a queue of bytes.
-- - Settings (cdinit/dinit/src/includes/load-service.h, cdinit/dinit/src/includes/file-input-stack.h):
--   the reading of service descriptions. Chars has the loops over white space and names, Value
--   `read_setting_value`, Input `file_input_stack`, Lines `process_service_file`, Numbers the functions
--   for times, numbers and limits. An exception is a value of `Error`; what the library functions for
--   numbers give, and what an include opens, are parameters.
-- - Loading (cdinit/dinit/src/load-service.cc): Cycle has `check_cycle`.
-- - Environment (cdinit/dinit/src/includes/dinit-env.h): `environment`, by the operations on its
--   variables, and Laws about what `get` gives after them. What `getenv` gives is a parameter.
-- - Utilities (cdinit/dinit/src/includes/dinit-util.h): Digits has `to_dec_digits`, Paths the functions
--   on paths.
--
-- The service model takes the two queues as the lists that the pointers of `slist` spell, with the
-- same test for membership (LinkedList/Queue); the console queue, a `dlist`, is the list of its
-- elements (LinkedList/Double/Run).
--
-- Fuel: `do_stop` calls itself through the release of dependents. Each such call follows the loss of
-- an explicit activation, so the number of records bounds the depth, which is the fuel that `do_stop`
-- gives. `process_queues` has no bound in the code: services that start each other in a chain can keep
-- it running, so its fuel is an argument, one unit for each element that is taken from a queue. The
-- fuel of the tied virtual functions counts how often they are entered from within themselves. Where fuel ends, the
-- world records it in `out_of_fuel`. `read_setting_value` takes a character in each round, so the length
-- of the text is its fuel. `process_service_file` has an argument for the rounds: a file that includes
-- itself keeps the code reading until it may open no more files. `check_cycle` visits each service once, so the
-- number of records and one more is its fuel.
--
-- Not modelled: the control protocol, the meaning of the settings and the loading of further
-- services (a chained service is looked up among the loaded ones), the substitution of variables,
-- the building of the environment of a process and the reading of environment files,
-- logging, the handlers of `bgproc_service`, the output buffers, signals and event loop of the main program, and
-- the client programs. The event loop library is taken as the source of events. `int` counters
-- have no upper end.
pub mod Base
pub mod LinkedList
pub mod Service
pub mod ControlBuffer
pub mod Settings
pub mod Utilities
pub mod Loading
pub mod Environment
