-- ===== src/Fifo.antt =====
-- The queue of asynchronous operations of a worker, src/classes/async-fifo-queue.ts.
-- `LinkedList` is the private list of nodes with its heap; `Queue` is the class `AsyncFifoQueue`
-- on top of it; the other children hold proofs and tests.
pub mod LinkedList
pub mod Queue
