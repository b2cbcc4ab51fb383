-- ===== src/Netif.antt =====
-- ports/unix/netif: the list of list.c, over an explicit heap, and the byte queue of fifo.c.
pub mod List
pub mod Cells
pub mod Queue
pub mod Remove
pub mod Refine
pub mod Fifo
mod Examples
