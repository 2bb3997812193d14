-- ===== src/Cluster.antt =====
-- lse_sched_cluster.c: the topology on the list of the clusters and on the clusters as objects, the
-- pointers of the CPUs, and the notifiers that follow the frequencies.
pub mod Topology
pub mod Objects
pub mod Build
pub mod Seen
pub mod Published
pub mod Parted
pub mod Step
pub mod Divided
pub mod Init
pub mod Ends
pub mod Notifiers
mod Freqs
mod Noted
pub mod Notices
pub mod Sorted
pub mod Tests
